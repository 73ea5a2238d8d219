-- ===== src/Math.antt =====
-- programs/tickersix/src/math.rs: the lineup commitment, the lineup check, returns and scores. The
-- arithmetic is `i128`, checked at each step, and a result must fit an `i64`.
pub mod Returns
pub mod Score
pub mod Lineup
use tickersix.Base.{
  ℕ, suc, ◌+◌, ◌<◌, ◌≡◌, Bool, true, false, not, ◌&&◌, List, [], ◌∷◌, ◌++◌, ◌==◌, ltb, leb,
  if◌then◌else◌, contains,
}
use tickersix.Base.Int.{
  ℤ, pos, negsuc, ◌+ℤ◌, ◌-ℤ◌, ◌*ℤ◌, ◌/ℤ◌, ltb_ℤ, pos_part, fits_i64, fits_i128,
}
use tickersix.Errors.{Result, ok, err, custom, ErrorCode, require, ◌>>=◌, ◌>>◌}
use tickersix.Runtime.{Key, Bytes, Runtime, le_bytes, key_bytes}
use tickersix.State.{Bitmap}
use tickersix.Constants.{codes, return_scale_q9, has_asset}

-- `sort_unstable` on identifiers: insertion into a sorted list.
unfoldable pub insert_sorted : ℕ → List ℕ → List ℕ
insert_sorted a [] = a ∷ []
insert_sorted a (x ∷ xs) = if leb a x then a ∷ x ∷ xs else x ∷ insert_sorted a xs

unfoldable pub sort_unstable : List ℕ → List ℕ
unfolding insert_sorted
sort_unstable [] = []
sort_unstable (x ∷ xs) = insert_sorted x (sort_unstable xs)

-- The identifiers of a lineup, as the preimage holds them.
unfoldable pub id_bytes : List ℕ → Bytes
unfolding le_bytes
id_bytes [] = []
id_bytes (x ∷ xs) = le_bytes 2 x ++ id_bytes xs

unfoldable pub canonical_lineup_commitment : Runtime → Key → Key → ℕ → List ℕ → ℕ → Key → Key
unfolding key_bytes le_bytes id_bytes sort_unstable
canonical_lineup_commitment rt battle player registry_version asset_ids captain salt = rt.sha256 (
    codes "TICKERSIX_LINEUP_V1"
    ++ (0 ∷ [])
    ++ (key_bytes rt.program_id
        ++ (key_bytes battle
            ++ (key_bytes player
                ++ (le_bytes 4 registry_version
                    ++ (id_bytes (sort_unstable asset_ids)
                        ++ (le_bytes 2 captain ++ key_bytes salt)))))))

-- The loop of `validate_lineup`: `left` walks over the list, whose tail is `asset_ids[left + 1..]`.
unfoldable pub validate_each : Bitmap → List ℕ → Result (Unit {0})
unfolding contains has_asset
validate_each bitmap [] = ok tt
validate_each bitmap (x ∷ xs) = do
  require (ltb x 256) ErrorCode.invalid_lineup
  require (has_asset bitmap x) ErrorCode.invalid_lineup
  require (not (contains xs x)) ErrorCode.invalid_lineup
  validate_each bitmap xs

unfoldable pub validate_lineup : List ℕ → ℕ → Bitmap → Result (Unit {0})
unfolding validate_each contains
validate_lineup asset_ids captain bitmap = do
  require (contains asset_ids captain) ErrorCode.captain_not_in_lineup
  validate_each bitmap asset_ids

-- `checked_*` on `i128`: the exact value, unless it leaves the type.
unfoldable pub checked_i128 : ℤ → Result ℤ
unfolding fits_i128
checked_i128 a = if fits_i128 a then ok a else err (custom ErrorCode.math_overflow)

-- `i64::try_from`.
unfoldable pub try_i64 : ℤ → Result ℤ
unfolding fits_i64
try_i64 a = if fits_i64 a then ok a else err (custom ErrorCode.math_overflow)

-- The divisor is the start price, which is positive where the division is made.
unfoldable pub return_q9 : ℤ → ℤ → Result ℤ
unfolding ltb_ℤ ◌-ℤ◌ ◌*ℤ◌ ◌/ℤ◌ checked_i128 try_i64
return_q9 start_q9 end_q9 = do
  require (ltb_ℤ (pos 0) start_q9 && ltb_ℤ (pos 0) end_q9) ErrorCode.round_asset_unavailable
  difference ← checked_i128 (end_q9 -ℤ start_q9)
  numerator ← checked_i128 (difference *ℤ return_scale_q9)
  value ← checked_i128 (numerator /ℤ pos_part start_q9)
  try_i64 value

-- The loop of `lineup_score_q9` over the returns and the identifiers, zipped.
unfoldable pub weighted_total : ℕ → List ℤ → List ℕ → ℤ → Result ℤ
unfolding checked_i128 ◌*ℤ◌ ◌+ℤ◌
weighted_total captain (r ∷ rs) (a ∷ as') total = do
  term ← checked_i128 (r *ℤ (if a == captain then 2 else 1))
  total' ← checked_i128 (total +ℤ term)
  weighted_total captain rs as' total'
weighted_total captain _ _ total = ok total

unfoldable pub lineup_score_q9 : List ℤ → List ℕ → ℕ → Result ℤ
unfolding weighted_total checked_i128 try_i64 ◌/ℤ◌ contains
lineup_score_q9 returns asset_ids captain = do
  require (contains asset_ids captain) ErrorCode.captain_not_in_lineup
  total ← weighted_total captain returns asset_ids (pos 0)
  score ← checked_i128 (total /ℤ 7)
  try_i64 score
