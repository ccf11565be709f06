-- ===== src/Chat.antt =====
-- The way of a chat event through the bot: the events and responses of tillerinobot-model
-- (org/tillerino/ppaddict/chat), and the stages of tillerinobot before and behind the event queue
-- (org/tillerino/ppaddict/chat/impl).
pub mod Bouncer
pub mod Response
pub mod Event
pub mod Preprocessor
pub mod Postprocessor
