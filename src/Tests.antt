-- ===== src/Tests.antt =====
-- Runs of the operations on small inputs, and the theorems applied to them.
pub mod Links
pub mod Tables
pub mod Stores
pub mod Texts
pub mod Fetches
pub mod Pages
pub mod Hrefs
pub mod Documents
pub mod Crawls
