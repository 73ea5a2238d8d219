-- ===== src/Price.antt =====
-- programs/tickersix/src/instructions/price.rs: attestations of prices and the phases of an asset.
pub mod Quorum
pub mod Reports
pub mod Phase
pub mod Submit
pub mod Signed
pub mod Supplied
pub mod Resolved
pub mod Finalized
