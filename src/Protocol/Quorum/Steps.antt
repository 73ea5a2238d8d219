-- ===== src/Protocol/Quorum/Steps.antt =====
-- crates/protocol/src/lib.rs and programs/tickersix/src/instructions/price.rs: the checked steps of a
-- candidate in the services and in the program.
use tickersix.Base.{
  none-some, ℕ, ◌+◌, ◌/◌, ◌≤◌, ◌≡◌, refl, sym, true, ◌==◌, List, [], ◌∷◌, if◌then◌else◌, length,
  map, arith,
}
use tickersix.Base.Int.{
  ℤ, pos, negsuc, pos_part, neg_part, ◌-ℤ◌, ◌*ℤ◌, ◌/ℤ◌, IsI64, ◌<ℤ◌, fits_i128,
}
use tickersix.Errors
use tickersix.Errors.{Result}
use tickersix.Math
use tickersix.Math.Score.{quot-parts, term-parts}
use tickersix.Price.Quorum
use tickersix.Price.Quorum.{
  AttestationSummary, QuorumResult, select_mask, minimum_from, maximum_from, subset_price,
  subset_candidate, is_better, keep_better, quorum_loop, combinations, choose_compatible_quorum,
  quorum_or_error, sort_prices, insert_price,
}
use tickersix.Price.Quorum.Sorts.{length-sort_prices}
use tickersix.Outcome.{Outcome, ok, err, ◌>>=◌, outcome_of, value_of}
use tickersix.Protocol.{MathError}
use tickersix.Protocol.Scores.{checked_i128, try_i64, median_q9, median_of_sorted}
use tickersix.Protocol.Quorum.{prices_of, try_u64}
use tickersix.Protocol.Quorum.Views.{report_of, mapped}

-- A price as the program stores it, when it is one.
abbrev pub IsPrice : ℤ → Type 0
IsPrice p = (pos 0 <ℤ p) × IsI64 p

-- Two computations that agree up to a view of the result.
pub bind_mapped {ι κ ℓ} :
    {A : Type ι} {B : Type κ} {C : Type ℓ} (f : B → C) (m : Result A) (o : Outcome MathError A)
    (g : A → Result B) (h : A → Outcome MathError C)
    → outcome_of o ≡ value_of m
    → ((a : A) → outcome_of (h a) ≡ mapped f (value_of (g a)))
    → outcome_of (o >>= h) ≡ mapped f (value_of (Errors.◌>>=◌ m g))
bind_mapped f (Errors.ok a) (ok b) g h e k = (let e' : b ≡ a = cc in rw e' (k a))
bind_mapped f (Errors.ok a) (err x) g h e k = absurd (none-some e)
bind_mapped f (Errors.err x) (ok b) g h e k = absurd (none-some (sym e))
bind_mapped f (Errors.err x) (err y) g h e k = refl

-- The same, where the first step is a view of the program's.
pub step_agree {ι κ ℓ} :
    {A : Type ι} {D : Type ι} {B : Type κ} {C : Type ℓ} (v : A → D) (f : B → C) (m : Result A)
    (o : Outcome MathError D) (g : A → Result B) (h : D → Outcome MathError C)
    → outcome_of o ≡ mapped v (value_of m)
    → ((a : A) → outcome_of (h (v a)) ≡ mapped f (value_of (g a)))
    → outcome_of (o >>= h) ≡ mapped f (value_of (Errors.◌>>=◌ m g))
step_agree v f (Errors.ok a) (ok b) g h e k = (let e' : b ≡ v a = cc in rw e' (k a))
step_agree v f (Errors.ok a) (err x) g h e k = absurd (none-some e)
step_agree v f (Errors.err x) (ok b) g h e k = absurd (none-some (sym e))
step_agree v f (Errors.err x) (err y) g h e k = refl

pub try_u64_agree : (a : ℤ) → outcome_of (try_u64 a) ≡ value_of (Quorum.try_u64 a)
unfolding try_u64 Quorum.try_u64
try_u64_agree (pos n) = ground arith
try_u64_agree (negsuc n) = refl

pub fits :
    (a : ℤ)
    → pos_part a ≤ 184467440737095516160000
    → neg_part a ≤ 184467440737095516160000
    → fits_i128 a ≡ true
unfolding fits_i128
fits (pos n) p q = ground arith
fits (negsuc n) p q = ground arith

pub -ℤ_bounds :
    (a b : ℤ)
    → (pos_part (a -ℤ b) ≤ pos_part a + neg_part b) × (neg_part (a -ℤ b) ≤ neg_part a + pos_part b)
unfolding ◌-ℤ◌
-ℤ_bounds a b = (ground arith, ground arith)

pub quotient_le : (a k : ℕ) → a / k ≤ a
quotient_le a k = grind arith

module _ (mn mx : ℤ) (p : IsPrice mn) (q : IsPrice mx) (k : ℕ) where
  abbrev pub scaled : ℤ
  scaled = (mx -ℤ mn) *ℤ 10000

  pub difference_fits : checked_i128 (mx -ℤ mn) ≡ ok (mx -ℤ mn)
  unfolding checked_i128
  difference_fits =
      let b = -ℤ_bounds mx mn in rw (fits (mx -ℤ mn) (omega (arith, b)) (omega (arith, b))) refl

  pub scaled_bounds :
      (pos_part scaled ≤ 184467440737095516160000) × (neg_part scaled ≤ 184467440737095516160000)
  scaled_bounds =
      let b = -ℤ_bounds mx mn in
      let t = term-parts (mx -ℤ mn) 10000 in (omega (arith, b, t), omega (arith, b, t))

  pub scaled_fits :
      (checked_i128 scaled ≡ ok scaled) × (Math.checked_i128 scaled ≡ Errors.ok scaled)
  unfolding checked_i128 Math.checked_i128
  scaled_fits = let e = fits scaled scaled_bounds.0 scaled_bounds.1 in (rw e refl, rw e refl)

  pub spread_fits : checked_i128 (scaled /ℤ k) ≡ ok (scaled /ℤ k)
  unfolding checked_i128
  spread_fits =
      let b = scaled_bounds in
      let d = quot-parts scaled k in
      rw
        (fits (scaled /ℤ k) (omega (arith, b, d, quotient_le (pos_part scaled) k))
          (omega (arith, b, d, quotient_le (neg_part scaled) k)))
        refl

pub try_i64_agree : (a : ℤ) → outcome_of (try_i64 a) ≡ value_of (Math.try_i64 a)
unfolding try_i64 Math.try_i64
try_i64_agree a = ground arith

-- The price of two or three reports.
pub price_agree :
    (sel : List AttestationSummary) (midpoint : ℤ)
    → 2 ≤ length sel
    → length sel ≤ 3
    → outcome_of
        (if length sel == 2 then try_i64 midpoint else median_q9 (prices_of (map report_of sel)))
      ≡ value_of (subset_price sel midpoint)
unfolding subset_price median_q9 median_of_sorted
price_agree [] midpoint l u = absurd (omega arith)
price_agree (a ∷ []) midpoint l u = absurd (omega arith)
price_agree (a ∷ b ∷ []) midpoint l u = try_i64_agree midpoint
price_agree (a ∷ b ∷ c ∷ []) midpoint l u =
    rw (length-sort_prices (a.price_q9 ∷ b.price_q9 ∷ c.price_q9 ∷ [])) refl
price_agree (a ∷ b ∷ c ∷ d ∷ rest) midpoint l u = absurd (omega arith)

pub length-reports : (sel : List AttestationSummary) → length (map report_of sel) ≡ length sel
length-reports [] = refl
length-reports (x ∷ xs) = omega (arith, length-reports xs)
