-- ===== src/Control.antt =====
-- src/ytp/control.cpp: peers and channels by number, for the announcements of a file.
pub mod Table
pub mod Registry
pub mod Messages
pub mod Decl
pub mod Numbers
pub mod Search
pub mod Tables
pub mod Answers
pub mod Seekers
pub mod Order
pub mod Laws
pub mod Keys
pub mod Walk
pub mod Insert
pub mod Declares
pub mod Commits
