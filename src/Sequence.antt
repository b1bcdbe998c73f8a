-- ===== src/Sequence.antt =====
-- src/ytp/sequence.cpp: a control and a timeline over it, which the clients of a file use.
pub mod Calls
pub mod Shared
pub mod Delivery
