-- ===== src/Cursor.antt =====
-- src/ytp/cursor.c: a cursor walks over the announcements and the data messages of a file, and calls
-- the callbacks that are registered.
pub mod Array
pub mod State
pub mod Open
pub mod Register
pub mod Poll
pub mod Consume
