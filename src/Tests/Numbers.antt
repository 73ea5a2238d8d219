-- ===== src/Tests/Numbers.antt =====
-- Runs of the arithmetic of math.rs and of the bitmaps of constants.rs.
use tickersix.Base.{ℕ, ◌≡◌, ◌↔◌, refl, true, List, [], ◌∷◌, arith, All, contains, test_bit}
use tickersix.Base.Int.{ℤ, pos, ◌≤ℤ◌}
use tickersix.Errors.{ok}
use tickersix.State.{Bitmap}
use tickersix.Constants.{has_asset, add_asset, empty_bitmap}
use tickersix.Constants.Bits.{has_asset-add_asset}
use tickersix.Math.{return_q9, lineup_score_q9, validate_lineup}
use tickersix.Math.Returns.{return_q9-exact}
use tickersix.Math.Lineup.{validate_lineup_iff, IsDistinct, IsEligible}
use tickersix.Math.Score.{lineup_score_q9_bounds}

abbrev pub six : List ℕ
six = 0 ∷ 1 ∷ 2 ∷ 3 ∷ 4 ∷ 5 ∷ []

abbrev pub first_six : Bitmap
first_six = record { word_0 = 63; word_1 = 0; word_2 = 0; word_3 = 0 }

abbrev pub returns : List ℤ
returns = pos 100 ∷ pos 200 ∷ pos 300 ∷ pos 400 ∷ pos 500 ∷ pos 600 ∷ []

pub six-valid : validate_lineup six 3 first_six ≡ ok tt
unfolding validate_lineup test_bit
six-valid = refl

lineup_score_q9_bounds_example :
    (score : ℤ) × (lineup_score_q9 returns six 3 ≡ ok score)
    × (pos 100 ≤ℤ score)
    × (score ≤ℤ pos 600)
lineup_score_q9_bounds_example =
    lineup_score_q9_bounds returns six 3 first_six (pos 100) (pos 600) refl refl six-valid
      (omega arith) (omega arith) (omega arith) (omega arith)

return_q9-exact_example : return_q9 (pos 100) (pos 110) ≡ ok (pos 100_000_000)
return_q9-exact_example =
    return_q9-exact 100 110 (omega arith) (omega arith) (omega arith) (omega arith)

validate_lineup_iff_example :
    (validate_lineup six 3 first_six ≡ ok tt)
    ↔ ((contains six 3 ≡ true) × IsDistinct six × All (IsEligible first_six) six)
validate_lineup_iff_example = validate_lineup_iff six 3 first_six

has_asset-add_asset_example : has_asset (add_asset empty_bitmap 70) 70 ≡ true
unfolding has_asset
has_asset-add_asset_example = has_asset-add_asset empty_bitmap 70 70 (omega arith) (omega arith)
