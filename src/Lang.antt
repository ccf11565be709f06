-- ===== src/Lang.antt =====
-- tillerinobot/src/main/java/tillerino/tillerinobot/lang: what the languages keep state with.
pub mod Shuffler
pub mod Tsundere
