-- ===== src/Vfs.antt =====
-- crates/mk-vfs: backends behind one trait, the connection pool, and host-key verification.
pub mod Pool
pub mod Error
pub mod HostPatterns
pub mod KnownHosts
