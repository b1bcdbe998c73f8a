-- ===== src/Message.antt =====
-- The messages that the layers above yamal write into its lists: src/ytp/time.cpp, data.c,
-- announcement.c, subscription.c and index.c, with the lists' numbers of include/ytp/stream.h.
-- The words of a message are little-endian, as on the host.
pub mod Fields
pub mod Time
pub mod Data
pub mod Announcement
pub mod Subscription
pub mod Index
