-- ===== src/Core.antt =====
-- crates/mk-core: the domain types and the pure functions over them.
pub mod Host
pub mod Settings
pub mod Job
pub mod Credentials
pub mod Recent
pub mod Bookmark
pub mod Persistence
pub mod Config
