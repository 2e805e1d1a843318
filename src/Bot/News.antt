-- ===== src/Bot/News.antt =====
-- The package bot/news: the jobs of the news pipeline, the links of the posts and the buttons.
pub mod Publish
pub mod Deliver
pub mod Links
pub mod Crawler
pub mod Crawl
