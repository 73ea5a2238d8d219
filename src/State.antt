-- ===== src/State.antt =====
-- programs/tickersix/src/state.rs: the account types of the program.
mod Kinds
mod Policy
mod Market
mod Arena
pub use Kinds.*
pub use Policy.*
pub use Market.*
pub use Arena.*
