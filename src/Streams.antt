-- ===== src/Streams.antt =====
-- src/ytp/streams.c: the streams of a file, by the names of their peer and channel.
pub mod State
pub mod Search
pub mod Announce
pub mod Close
