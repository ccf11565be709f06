-- ===== src/Recommend.antt =====
-- The recommendations of tillerinobot: tillerino/tillerinobot/predicates and
-- tillerino/tillerinobot/recommendations.
pub mod Predicate
pub mod Sampler
pub mod Settings
pub mod Request
pub mod Top
pub mod Manager
