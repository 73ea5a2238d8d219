-- ===== src/Protocol/Scores.antt =====
-- crates/protocol/src/lib.rs: returns, lineup scores and the median of the services.
pub mod Agree
pub mod Median
use tickersix.Base.{
  ℕ, zero, suc, ◌+◌, ◌-◌, ◌*◌, ◌/◌, ◌%◌, Bool, true, false, not, ◌&&◌, ◌||◌, ◌==◌, List, [], ◌∷◌,
  ◌++◌, Option, some, none, if◌then◌else◌, contains, length, get_or,
}
use tickersix.Base.Int.{ℤ, pos, pos_part, ◌+ℤ◌, ◌-ℤ◌, ◌*ℤ◌, ◌/ℤ◌, leb_ℤ, ltb_ℤ, fits_i64, fits_i128}
use tickersix.Runtime.{Key, Bytes, key_bytes, le_bytes}
use tickersix.Constants.{codes}
use tickersix.Math.{id_bytes, sort_unstable}
use tickersix.Price.Quorum.{sort_prices}
use tickersix.Outcome.{Outcome, ok, err, require, ◌>>◌, ◌>>=◌}
use tickersix.Protocol.{MathError}

-- `checked_*` on `i128`, and `i64::try_from`.
unfoldable pub checked_i128 : ℤ → Outcome MathError ℤ
unfolding fits_i128
checked_i128 a = if fits_i128 a then ok a else err MathError.overflow

unfoldable pub try_i64 : ℤ → Outcome MathError ℤ
unfolding fits_i64
try_i64 a = if fits_i64 a then ok a else err MathError.overflow

unfoldable pub return_q9 : ℤ → ℤ → Outcome MathError ℤ
unfolding ltb_ℤ ◌-ℤ◌ ◌*ℤ◌ ◌/ℤ◌ checked_i128 try_i64
return_q9 start_q9 end_q9 = do
  require (not (leb_ℤ start_q9 (pos 0) || leb_ℤ end_q9 (pos 0))) MathError.non_positive_price
  difference ← checked_i128 (end_q9 -ℤ start_q9)
  numerator ← checked_i128 (difference *ℤ 1_000_000_000)
  value ← checked_i128 (numerator /ℤ pos_part start_q9)
  try_i64 value

-- The loop of `validate_lineup`: no identifier occurs again after itself. Both branches of the source
-- look for the identifier at `left`, which in the first is the captain.
unfoldable pub validate_ids : List ℕ → ℕ → Outcome MathError (Unit {0})
unfolding contains
validate_ids [] captain = ok tt
validate_ids (x ∷ xs) captain =
    (if x == captain
      then require (not (contains xs captain)) MathError.invalid_lineup
      else require (not (contains xs x)) MathError.invalid_lineup)
    >> validate_ids xs captain

unfoldable pub validate_lineup : List ℕ → ℕ → Outcome MathError (Unit {0})
unfolding validate_ids contains
validate_lineup asset_ids captain = do
  validate_ids asset_ids captain
  require (contains asset_ids captain) MathError.captain_not_in_lineup

unfoldable pub weighted_total : ℕ → List ℤ → List ℕ → ℤ → Outcome MathError ℤ
unfolding checked_i128 ◌*ℤ◌ ◌+ℤ◌
weighted_total captain (r ∷ rs) (a ∷ as') total = do
  term ← checked_i128 (r *ℤ (if a == captain then 2 else 1))
  total' ← checked_i128 (total +ℤ term)
  weighted_total captain rs as' total'
weighted_total captain _ _ total = ok total

unfoldable pub lineup_score_q9 : List ℤ → List ℕ → ℕ → Outcome MathError ℤ
unfolding weighted_total checked_i128 try_i64 ◌/ℤ◌ validate_lineup
lineup_score_q9 returns asset_ids captain = do
  validate_lineup asset_ids captain
  total ← weighted_total captain returns asset_ids (pos 0)
  score ← checked_i128 (total /ℤ 7)
  try_i64 score

-- The median: the middle of the sorted values, or the truncated mean of the two middle ones.
unfoldable pub median_of_sorted : List ℤ → Outcome MathError ℤ
unfolding ◌+ℤ◌ ◌/ℤ◌ checked_i128 try_i64
median_of_sorted sorted =
    let middle = length sorted / 2 in
    if length sorted % 2 == 1
    then ok (get_or sorted middle (pos 0))
    else (checked_i128 (get_or sorted (middle - 1) (pos 0) +ℤ get_or sorted middle (pos 0))
        >>= λ sum. try_i64 (sum /ℤ 2))

unfoldable pub median_q9 : List ℤ → Outcome MathError ℤ
unfolding median_of_sorted sort_prices
median_q9 [] = err MathError.empty_observation_set
median_q9 (v ∷ vs) = median_of_sorted (sort_prices (v ∷ vs))

-- The program's identifier and the hash are parameters.
unfoldable pub commitment : (Bytes → Key) → Key → Key → Key → ℕ → List ℕ → ℕ → Key → Key
unfolding key_bytes le_bytes id_bytes sort_unstable
commitment sha256 program_id battle player registry_version asset_ids captain salt = sha256 (
    (codes "TICKERSIX_LINEUP_V1" ++ 0 ∷ [])
    ++ (key_bytes program_id
        ++ (key_bytes battle
            ++ (key_bytes player
                ++ (le_bytes 4 registry_version
                    ++ (id_bytes (sort_unstable asset_ids)
                        ++ (le_bytes 2 captain ++ key_bytes salt)))))))
