-- ===== src/Frontend.antt =====
-- ppaddict-site/src/main/resources/static/code.js: the website's own script.
pub mod Welcome
pub mod Dialogs
pub mod Time
pub mod Merge
pub mod Countdown
pub mod Position
pub mod Help
pub mod Htmx
