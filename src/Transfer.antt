-- ===== src/Transfer.antt =====
-- crates/mk-transfer: the scheduling decisions of the transfer queue.
pub mod Scheduler
