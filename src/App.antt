-- ===== src/App.antt =====
-- app/src: what the application does between the backends and the local disk.
pub mod Disk
pub mod Paths
pub mod Transfer
pub mod Verify
pub mod Download
