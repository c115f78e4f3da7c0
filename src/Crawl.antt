-- ===== src/Crawl.antt =====
-- The tree crawl of one site (web_listening/blocks/tree_crawler.py).
pub mod Urls
pub mod Data
pub mod Links
pub mod Pages
pub mod Revisit
pub mod Runs
pub mod Rules
pub mod Turns
pub mod Ending
pub mod Sound
pub mod Prefixes
pub mod Again
pub mod Rounds
pub mod Tours
pub mod Limits
pub mod Missing
