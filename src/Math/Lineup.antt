-- ===== src/Math/Lineup.antt =====
-- What the lineup checks of math.rs accept.
use tickersix.Base.{ℕ, ◌<◌, ◌≡◌, refl, ◌↔◌, true, false, List, [], ◌∷◌, arith, All, contains}
use tickersix.Errors.{ok}
use tickersix.State.{Bitmap}
use tickersix.Constants.{has_asset}
use tickersix.Math.{validate_each, validate_lineup}

-- No identifier occurs twice.
abbrev pub IsDistinct : List ℕ → Type 0
IsDistinct [] = Unit
IsDistinct (x ∷ xs) = (contains xs x ≡ false) × IsDistinct xs

-- A set of six eligible identifiers: in range, admitted to the round, and pairwise different.
abbrev pub IsEligible : Bitmap → ℕ → Type 0
IsEligible bitmap x = (x < 256) × (has_asset bitmap x ≡ true)

pub validate_each→IsDistinct :
    (b : Bitmap) (xs : List ℕ) → validate_each b xs ≡ ok tt → IsDistinct xs
unfolding validate_each
validate_each→IsDistinct b [] h = tt
validate_each→IsDistinct b (x ∷ xs) h = (ground arith, validate_each→IsDistinct b xs (ground arith))

pub validate_each→All :
    (b : Bitmap) (xs : List ℕ) → validate_each b xs ≡ ok tt → All (IsEligible b) xs
unfolding validate_each
validate_each→All b [] h = tt
validate_each→All b (x ∷ xs) h =
    ((ground arith, ground arith), validate_each→All b xs (ground arith))

of_parts :
    (b : Bitmap) (xs : List ℕ) → IsDistinct xs → All (IsEligible b) xs → validate_each b xs ≡ ok tt
unfolding validate_each
of_parts b [] d e = refl
of_parts b (x ∷ xs) d e = ground (arith, of_parts b xs d.1 e.1)

-- The on-chain check passes exactly the lists that hold the captain, whose identifiers are
-- pairwise different, and each of which is below 256 and has its bit in the round's bitmap.
pub validate_lineup_iff :
    (ids : List ℕ) (captain : ℕ) (b : Bitmap)
    → (validate_lineup ids captain b ≡ ok tt)
      ↔ ((contains ids captain ≡ true) × IsDistinct ids × All (IsEligible b) ids)
unfolding validate_lineup
validate_lineup_iff ids captain b = (
  λ h.
      let each : validate_each b ids ≡ ok tt = ground arith in
      (ground arith, validate_each→IsDistinct b ids each, validate_each→All b ids each),
  λ h. ground (arith, of_parts b ids h.1 h.2),
)
