-- ===== src/Runtime.antt =====
-- What the program takes from Solana and Anchor: keys, the clock, program-derived addresses, the
-- hash, and an account with its address. The functions of `Runtime` are parameters of the model.
use tickersix.Base.{ℕ, zero, suc, ◌/◌, ◌%◌, ◌^◌, ◌-◌, List, [], ◌∷◌, ◌++◌, Bool, ◌==◌, not}
use tickersix.Base.Int.{ℤ, pos, negsuc}
use tickersix.Errors.{
  Result, ErrorCode, check, require, ◌>>◌, constraint_seeds, account_already_in_use,
}

-- A public key or a 32-byte hash, read as a big-endian number: the order of Rust's byte arrays is
-- then the order of the numbers, and the all-zero array is 0.
abbrev pub Key : Type 0
Key = ℕ

abbrev pub default_key : Key
default_key = 0

abbrev pub Bytes : Type 0
Bytes = List ℕ

-- `to_le_bytes` of an unsigned integer of `width` bytes.
unfoldable pub le_bytes : ℕ → ℕ → Bytes
le_bytes zero n = []
le_bytes (suc width) n = n % 256 ∷ le_bytes width (n / 256)

-- `to_le_bytes` of an `i64`: two's complement.
unfoldable pub i64_bytes : ℤ → Bytes
unfolding le_bytes
i64_bytes (pos n) = le_bytes 8 n
i64_bytes (negsuc n) = le_bytes 8 (2 ^ 64 - suc n)

-- The bytes of a key, most significant first.
unfoldable pub be_bytes : ℕ → ℕ → Bytes
be_bytes zero n = []
be_bytes (suc width) n = be_bytes width (n / 256) ++ (n % 256) ∷ []

unfoldable pub key_bytes : Key → Bytes
unfolding be_bytes
key_bytes k = be_bytes 32 k

-- `Clock::get()`.
pub record Clock : Type 0 where
  pub unix_timestamp : ℤ
  pub slot : ℕ

-- `find_program_address` gives the address and the canonical bump of a list of seeds;
-- `create_program_address` the address for a stored bump.
pub record Runtime : Type 0 where
  pub program_id : Key
  pub find_program_address : List Bytes → Key
  pub find_bump : List Bytes → ℕ
  pub create_program_address : List Bytes → ℕ → Key
  pub sha256 : Bytes → Key

-- An account and its address.
pub record Account {ℓ} (A : Type ℓ) : Type ℓ where
  pub key : Key
  pub account : A

-- An account that an instruction creates: its address, and whether it exists already.
pub record NewAccount : Type 0 where
  pub key : Key
  pub in_use : Bool

-- `#[account(seeds = [...], bump = stored)]`.
unfoldable pub seeds_constraint : Runtime → List Bytes → ℕ → Key → Result (Unit {0})
seeds_constraint rt seeds bump key =
    check (rt.create_program_address seeds bump == key) constraint_seeds

-- `#[account(init, seeds = [...], bump)]`.
unfoldable pub init_constraint : Runtime → List Bytes → NewAccount → Result (Unit {0})
init_constraint rt seeds new = do
  check (rt.find_program_address seeds == new.key) constraint_seeds
  check (not new.in_use) account_already_in_use

-- `require_keys_eq!`.
abbrev pub require_keys_eq : Key → Key → ErrorCode → Result (Unit {0})
require_keys_eq a b c = require (a == b) c
