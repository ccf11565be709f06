-- ===== src/Site.antt =====
-- ppaddict-site/src/main/java/org/tillerino/ppaddict/server: the website's server.
pub mod Bundle
pub mod Comments
