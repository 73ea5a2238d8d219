-- ===== src/Program.antt =====
-- programs/tickersix/src/lib.rs: the entry points, run against a ledger that holds every account of
-- the program. A failed instruction leaves the ledger as it was.
pub mod Ledger
pub mod Battles
pub mod Rounds
pub mod Admins
pub mod Dispatch
pub mod Effect
pub mod BattleSteps
pub mod RoundSteps
pub mod AdminSteps
pub mod Steps
pub mod Counts
pub mod Reachable
