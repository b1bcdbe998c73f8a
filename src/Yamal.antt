-- ===== src/Yamal.antt =====
-- The yamal layer: src/ytp/yamal.c and include/ytp/yamal.h.
pub mod State
pub mod Pages
pub mod Reserve
pub mod Commit
pub mod Iter
pub mod Close
pub mod Init
pub mod Chain
pub mod Publish
pub mod Race
