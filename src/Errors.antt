-- ===== src/Errors.antt =====
-- programs/tickersix/src/error.rs, and Anchor's `Result` with the macros `require!` and `err!`.
use mathlib.Core.Path.{◌≡◌, refl}
use mathlib.Core.Logic.{◌⊎◌, inl, inr}
use mathlib.Core.Bool.{Bool, true, false}

-- The custom errors of the program, in the order of their codes.
pub data ErrorCode : Type 0 where
  protocol_paused unauthorized_admin unauthorized_coordinator invalid_protocol_version : ErrorCode
  invalid_policy_version uncalibrated_policy unsupported_settlement_source : ErrorCode
  source_config_mismatch invalid_attestor_set invalid_asset_id invalid_scoring_mint : ErrorCode
  registry_entry_mismatch invalid_registry_version registry_not_frozen invalid_round_state :
      ErrorCode
  invalid_round_timing invalid_eligibility_snapshot invalid_round_sequence : ErrorCode
  rated_battle_window_closed insufficient_eligible_assets duplicate_round_asset : ErrorCode
  wrong_market_round replay_cannot_be_rated same_battle_player invalid_rated_battle_mode : ErrorCode
  not_battle_participant invalid_commitment_state commit_window_closed : ErrorCode
  reveal_window_closed invalid_lineup captain_not_in_lineup commitment_mismatch : ErrorCode
  price_policy_mismatch quality_policy_mismatch attestor_set_mismatch math_overflow : ErrorCode
  attestation_window_closed invalid_attestation_evidence unregistered_attestor : ErrorCode
  invalid_attestation invalid_attestation_instruction invalid_pyth_verifier_instruction : ErrorCode
  invalid_pyth_evidence invalid_pyth_source_config no_compatible_quorum : ErrorCode
  price_phase_resolved round_asset_unavailable invalid_battle_state : ErrorCode
  battle_already_finalized invalid_league league_registration_closed league_full : ErrorCode
  already_league_member not_league_member : ErrorCode

-- What an instruction fails with: a code of the program, or a check that Anchor makes on an account
-- before the handler runs (`seeds`, `init`, a missing or foreign account).
pub data Failure : Type 0 where
  custom : ErrorCode → Failure
  constraint_seeds account_already_in_use account_not_owned : Failure

pub data Result {ℓ} (A : Type ℓ) : Type ℓ where
  ok : A → Result A
  err : Failure → Result A

-- Did the instruction succeed?
abbrev pub is_ok {ℓ} : {A : Type ℓ} → Result A → Bool
is_ok (ok value) = true
is_ok (err failure) = false

abbrev pub check : Bool → Failure → Result (Unit {0})
check true failure = ok tt
check false failure = err failure

-- `require!(test, ErrorCode::code)`.
abbrev pub require : Bool → ErrorCode → Result (Unit {0})
require true code = ok tt
require false code = err (custom code)

-- `?` on a `Result`: the first failure ends the instruction.
infixl 5 ◌>>=◌ ◌>>◌
abbrev pub ◌>>=◌ {κ ℓ} : {A : Type κ} {B : Type ℓ} → Result A → (A → Result B) → Result B
ok value >>= next = next value
err failure >>= next = err failure

abbrev pub ◌>>◌ {κ} : {B : Type κ} → Result (Unit {0}) → Result B → Result B
test >> next = test >>= λ passed. next

-- What a chain of steps did when it succeeded, for proofs where the steps stay shut.
module _ {κ ℓ} {A : Type κ} {B : Type ℓ} where
  pub >>=-eq-ok :
      (step : Result A) (next : A → Result B) {last : B}
      → (step >>= next) ≡ ok last
      → (value : A) × (step ≡ ok value) × (next value ≡ ok last)
  >>=-eq-ok (ok value) next success = (value, refl, success)
  >>=-eq-ok (err failure) next success = cc

pub >>-eq-ok {ℓ} :
    {B : Type ℓ} (test : Result (Unit {0})) (next : Result B) {last : B}
    → (test >> next) ≡ ok last
    → (test ≡ ok tt) × (next ≡ ok last)
>>-eq-ok (ok passed) next success = (refl, success)
>>-eq-ok (err failure) next success = cc

pub require-eq-ok : (b : Bool) (c : ErrorCode) → require b c ≡ ok tt → b ≡ true
require-eq-ok true c h = refl
require-eq-ok false c h = cc

-- To split on a computed result and keep the equation.
pub Result-cases {ℓ} : {A : Type ℓ} (m : Result A) → ((a : A) × (m ≡ ok a)) ⊎ (is_ok m ≡ false)
Result-cases (ok a) = inl (a, refl)
Result-cases (err e) = inr refl
