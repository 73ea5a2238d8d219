-- ===== src/Protocol.antt =====
-- crates/protocol/src/lib.rs: the rules that the program, the services and the clients share.
pub mod Scores
pub mod Evidence
pub mod Quorum
pub mod Decimal
pub mod Ranked
pub mod Swiss
use tickersix.Base.{
  ℕ, zero, suc, ◌+◌, ◌*◌, Bool, true, false, ◌&&◌, ◌||◌, ◌==◌, ltb, List, [], ◌∷◌, ◌++◌,
  if◌then◌else◌, Option, none, some,
}
use tickersix.Runtime.{Key, Bytes}

pub data MathError : Type 0 where
  invalid_decimal non_positive_price overflow empty_observation_set invalid_lineup : MathError
  captain_not_in_lineup duplicate_attestor too_many_attestors no_compatible_quorum : MathError

-- `u64::from_le_bytes`.
unfoldable pub from_le_bytes : Bytes → ℕ
from_le_bytes [] = 0
from_le_bytes (b ∷ bs) = b + 256 * from_le_bytes bs

-- The indexes that a list of pairs names.
unfoldable pub paired : List (ℕ × ℕ) → List ℕ
paired [] = []
paired ((a, b) ∷ pairs) = a ∷ b ∷ paired pairs

-- The one that is in no pair.
abbrev pub left_over : Option ℕ → List ℕ
left_over none = []
left_over (some a) = a ∷ []
