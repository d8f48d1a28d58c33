-- ===== src/Ui.antt =====
-- crates/mk-ui/src/store.rs: the state behind the views, one module for each group of operations.
pub mod Queue
pub mod Enqueue
pub mod Steps
pub mod Engine
pub mod Progress
pub mod Tick
pub mod Listing
pub mod Browser
pub mod Hosts
