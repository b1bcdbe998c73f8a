-- ===== src/Tests.antt =====
-- Concrete files, and the theorems at them.
pub mod Files
mod YamalTests
mod RaceTests
mod StreamTests
pub mod HeapTests
mod ReactorTests
mod MessageTests
mod VectorTests
mod CursorTests
pub mod TimelineTests
mod SequenceTests
mod ControlTests
