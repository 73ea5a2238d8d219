-- ===== src/Round.antt =====
-- programs/tickersix/src/instructions/round.rs: market rounds from the draft to the final state.
pub mod Binding
pub mod Draft
pub mod Universe
pub mod AddAsset
pub mod Lifecycle
pub mod Order
pub mod Assets
pub mod Final
