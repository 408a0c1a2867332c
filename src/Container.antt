-- ===== src/Container.antt =====
-- The dependency container (src/container/): its data, its operations, and what they keep.
pub mod Types
pub mod Keys
pub mod State
pub mod Resolve
pub mod Inv
pub mod Storage
pub mod Register
pub mod Aggregate
pub mod Construct
pub mod Build
pub mod Collect
pub mod Layers
pub mod Validate
pub mod Cycles
