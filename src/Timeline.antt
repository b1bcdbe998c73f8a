-- ===== src/Timeline.antt =====
-- src/ytp/timeline.cpp: callbacks on the channels of a control, by the prefixes of their names.
pub mod Prefix
pub mod Order
pub mod Keys
pub mod Match
pub mod Both
pub mod Register
pub mod Poll
pub mod Round
pub mod Tables
pub mod Given
pub mod Reached
pub mod Delivery
pub mod Announced
