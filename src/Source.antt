-- ===== src/Source.antt =====
-- src/operator/source: where streams come from.
pub mod File
pub mod ParallelIterator
pub mod Tests
