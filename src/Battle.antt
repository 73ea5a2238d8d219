-- ===== src/Battle.antt =====
-- programs/tickersix/src/instructions/battle.rs: rated battles from their creation to the result.
pub mod Create
pub mod Lineup
pub mod Settle
pub mod Close
pub mod Invariant
pub mod Effects
pub mod Commitment
pub mod Admission
