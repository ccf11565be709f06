-- ===== src/Pipeline.antt =====
-- A message on its way through the parts: MessagePreprocessor, IRCBot and ResponsePostprocessor.
pub mod Release
pub mod Runs
pub mod Stuck
pub mod Scheduler
mod Tests
