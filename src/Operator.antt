-- ===== src/Operator.antt =====
-- src/operator: the operators of a chain, each over the elements that the previous one returns.
pub mod Filter
pub mod DropTimestamp
pub mod AddTimestamp
pub mod Map
pub mod FlatMap
pub mod KeyedFlatMap
pub mod Fold
pub mod Reorder
pub mod End
pub mod Zip
pub mod LimitSorted
pub mod RichMap
pub mod FilterMap
pub mod Inspect
mod Tests
