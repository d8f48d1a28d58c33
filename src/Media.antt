-- ===== src/Media.antt =====
-- crates/mk-media: the loopback server that streams a remote file by HTTP byte ranges.
pub mod Range
pub mod Stream
pub mod Url
pub mod Server
