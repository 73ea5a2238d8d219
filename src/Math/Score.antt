-- ===== src/Math/Score.antt =====
-- What `lineup_score_q9` of math.rs computes on a lineup that was checked.
use tickersix.Base.{
  ℕ, ◌+◌, ◌*◌, ◌/◌, ◌≤◌, ◌≡◌, refl, inl, inr, true, false, List, [], ◌∷◌, ◌==◌, arith,
  if◌then◌else◌, All, contains, length, Bool-cases,
}
use tickersix.Base.Int.{ℤ, pos, negsuc, pos_part, neg_part, ◌+ℤ◌, ◌*ℤ◌, ◌/ℤ◌, ◌≤ℤ◌, IsI64, +ℤ_parts}
use tickersix.Errors.{ok}
use tickersix.State.{Bitmap}
use tickersix.Math.{lineup_score_q9, weighted_total, validate_lineup, checked_i128, try_i64}
use tickersix.Math.Lineup.{IsDistinct, validate_lineup_iff}

-- The weights of a lineup: the captain's return counts twice.
weight_sum : ℕ → List ℤ → List ℕ → ℕ
weight_sum captain (r ∷ rs) (a ∷ as') = (if a == captain then 2 else 1) + weight_sum captain rs as'
weight_sum captain _ _ = 0

weight_sum-absent :
    (c : ℕ) (rs : List ℤ) (ids : List ℕ)
    → length rs ≡ length ids
    → contains ids c ≡ false
    → weight_sum c rs ids ≡ length ids
unfolding weight_sum contains
weight_sum-absent c [] [] l h = refl
weight_sum-absent c [] (a ∷ as') l h = absurd (omega arith)
weight_sum-absent c (r ∷ rs) [] l h = absurd (omega arith)
weight_sum-absent c (r ∷ rs) (a ∷ as') l h =
    ground (arith, weight_sum-absent c rs as' (omega arith))

weight_sum-present :
    (c : ℕ) (rs : List ℤ) (ids : List ℕ)
    → length rs ≡ length ids
    → IsDistinct ids
    → contains ids c ≡ true
    → weight_sum c rs ids ≡ length ids + 1
unfolding weight_sum contains
weight_sum-present c [] [] l d h = absurd (ground arith)
weight_sum-present c [] (a ∷ as') l d h = absurd (omega arith)
weight_sum-present c (r ∷ rs) [] l d h = absurd (omega arith)
weight_sum-present c (r ∷ rs) (a ∷ as') l d h =
    ground (
      arith,
      weight_sum-present c rs as' (omega arith) d.1,
      weight_sum-absent c rs as' (omega arith),
    )

abbrev Between : ℤ → ℤ → ℤ → Type 0
Between lo hi r = (lo ≤ℤ r) × (r ≤ℤ hi)

-- `T` lies between `t + w * lo` and `t + w * hi`.
record IsWeighted (lo hi : ℤ) (w : ℕ) (t T : ℤ) : Type 0 where
  lower : pos_part t + neg_part T + w * pos_part lo ≤ pos_part T + neg_part t + w * neg_part lo
  upper : pos_part T + neg_part t + w * neg_part hi ≤ pos_part t + neg_part T + w * pos_part hi

pub term-parts :
    (r : ℤ) (k : ℕ) → (pos_part (r *ℤ k) ≡ pos_part r * k) × (neg_part (r *ℤ k) ≡ neg_part r * k)
unfolding ◌*ℤ◌
term-parts (pos n) k = (ground arith, ground arith)
term-parts (negsuc n) k = (ground arith, ground arith)

checked_i128-fits :
    (a : ℤ)
    → pos_part a ≤ 170141183460469231731687303715884105727
    → neg_part a ≤ 170141183460469231731687303715884105728
    → checked_i128 a ≡ ok a
unfolding checked_i128
checked_i128-fits (pos n) p q = ground arith
checked_i128-fits (negsuc n) p q = ground arith

try_i64-fits :
    (a : ℤ) → pos_part a ≤ 9223372036854775807 → neg_part a ≤ 9223372036854775808 → try_i64 a ≡ ok a
unfolding try_i64
try_i64-fits (pos n) p q = ground arith
try_i64-fits (negsuc n) p q = ground arith

pub +ℤ_bounds :
    (a b : ℤ)
    → (pos_part (a +ℤ b) ≤ pos_part a + pos_part b) × (neg_part (a +ℤ b) ≤ neg_part a + neg_part b)
unfolding ◌+ℤ◌
+ℤ_bounds a b = (ground arith, ground arith)

-- one return, added to the running total
IsWeighted-one :
    (lo hi r t T : ℤ) (w : ℕ)
    → Between lo hi r
    → IsWeighted lo hi w (t +ℤ r *ℤ 1) T
    → IsWeighted lo hi (1 + w) t T
IsWeighted-one lo hi r t T w b h = omega (arith, +ℤ_parts t (r *ℤ 1), term-parts r 1)

IsWeighted-two :
    (lo hi r t T : ℤ) (w : ℕ)
    → Between lo hi r
    → IsWeighted lo hi w (t +ℤ r *ℤ 2) T
    → IsWeighted lo hi (2 + w) t T
IsWeighted-two lo hi r t T w b h = omega (arith, +ℤ_parts t (r *ℤ 2), term-parts r 2)

-- room for `w` more returns in an `i128`
abbrev HasRoom : ℕ → ℤ → Type 0
HasRoom w t =
    (pos_part t + w * 9223372036854775808 ≤ 170141183460469231731687303715884105727)
    × (neg_part t + w * 9223372036854775808 ≤ 170141183460469231731687303715884105727)

HasRoom-step : (r t : ℤ) (w : ℕ) → IsI64 r → HasRoom (1 + w) t → HasRoom w (t +ℤ r *ℤ 1)
HasRoom-step r t w i h = omega (arith, +ℤ_bounds t (r *ℤ 1), term-parts r 1)

HasRoom-step_two : (r t : ℤ) (w : ℕ) → IsI64 r → HasRoom (2 + w) t → HasRoom w (t +ℤ r *ℤ 2)
HasRoom-step_two r t w i h = omega (arith, +ℤ_bounds t (r *ℤ 2), term-parts r 2)

-- The running total never overflows, and ends between the weighted bounds of the returns.
weighted_total_lem :
    (c : ℕ) (lo hi : ℤ) (rs : List ℤ) (ids : List ℕ) (t : ℤ)
    → All IsI64 rs
    → All (Between lo hi) rs
    → HasRoom (weight_sum c rs ids) t
    → (T : ℤ) × (weighted_total c rs ids t ≡ ok T) × IsWeighted lo hi (weight_sum c rs ids) t T
unfolding weighted_total weight_sum
weighted_total_lem c lo hi [] ids t i b room = (t, refl, omega arith)
weighted_total_lem c lo hi (r ∷ rs) [] t i b room = (t, refl, omega arith)
weighted_total_lem c lo hi (r ∷ rs) (a ∷ as') t i b room = elim (Bool-cases (a == c)) [
  | inl e ↦
      let room' : HasRoom (2 + weight_sum c rs as') t = rw e at room in
      let later = HasRoom-step_two r t (weight_sum c rs as') i.0 room' in
      let (T, run, weighted) = weighted_total_lem c lo hi rs as' (t +ℤ r *ℤ 2) i.1 b.1 later in
      (
        T,
        rw
            (
              e,
              checked_i128-fits (r *ℤ 2) (omega (arith, term-parts r 2))
                  (omega (arith, term-parts r 2)),
            )
            (rw (checked_i128-fits (t +ℤ r *ℤ 2) (omega arith) (omega arith)) run),
        rw e (IsWeighted-two lo hi r t T (weight_sum c rs as') b.0 weighted),
      )
  | inr e ↦
      let room' : HasRoom (1 + weight_sum c rs as') t = rw e at room in
      let later = HasRoom-step r t (weight_sum c rs as') i.0 room' in
      let (T, run, weighted) = weighted_total_lem c lo hi rs as' (t +ℤ r *ℤ 1) i.1 b.1 later in
      (
        T,
        rw
            (
              e,
              checked_i128-fits (r *ℤ 1) (omega (arith, term-parts r 1))
                  (omega (arith, term-parts r 1)),
            )
            (rw (checked_i128-fits (t +ℤ r *ℤ 1) (omega arith) (omega arith)) run),
        rw e (IsWeighted-one lo hi r t T (weight_sum c rs as') b.0 weighted),
      )
]

pub quot-parts :
    (a : ℤ) (k : ℕ) → (pos_part (a /ℤ k) ≡ pos_part a / k) × (neg_part (a /ℤ k) ≡ neg_part a / k)
unfolding ◌/ℤ◌
quot-parts (pos n) k = (ground arith, ground arith)
quot-parts (negsuc n) k = (ground arith, ground arith)

quotient-zero : (k : ℕ) → 0 / k ≡ 0
quotient-zero k = grind arith

mean_between :
    (lo hi T : ℤ) (w : ℕ) → w ≡ 7 → IsWeighted lo hi w (pos 0) T → (lo ≤ℤ T /ℤ 7) × (T /ℤ 7 ≤ℤ hi)
mean_between lo hi T w e h =
    let h' : IsWeighted lo hi 7 (pos 0) T = rw e at h in
    (omega (arith, quot-parts T 7), omega (arith, quot-parts T 7))

IsI64-between : (lo hi a : ℤ) → IsI64 lo → IsI64 hi → lo ≤ℤ a → a ≤ℤ hi → IsI64 a
IsI64-between lo hi (pos n) l h p q = (ground arith, omega arith)
IsI64-between lo hi (negsuc n) l h p q = (omega arith, ground arith)

-- The score of a checked lineup of six assets never overflows, and lies between any two bounds on
-- the six returns: the captain's double weight moves it, but never out of their range.
pub lineup_score_q9_bounds :
    (rs : List ℤ) (ids : List ℕ) (captain : ℕ) (bitmap : Bitmap) (lo hi : ℤ)
    → length rs ≡ 6
    → length ids ≡ 6
    → validate_lineup ids captain bitmap ≡ ok tt
    → All IsI64 rs
    → All (Between lo hi) rs
    → IsI64 lo
    → IsI64 hi
    → (score : ℤ) × (lineup_score_q9 rs ids captain ≡ ok score) × (lo ≤ℤ score) × (score ≤ℤ hi)
unfolding lineup_score_q9
lineup_score_q9_bounds rs ids captain bitmap lo hi lr li valid i b ilo ihi =
    let (present, distinct, _) = (validate_lineup_iff ids captain bitmap).0 valid in
    let w : weight_sum captain rs ids ≡ 7 =
      omega (arith, weight_sum-present captain rs ids (omega arith) distinct present) in
    let (T, run, weighted) = weighted_total_lem captain lo hi rs ids (pos 0) i b (omega arith) in
    let (above, below) = mean_between lo hi T _ w weighted in
    let fits = IsI64-between lo hi (T /ℤ 7) ilo ihi above below in
    (
      T /ℤ 7,
      rw (present, run)
          (rw (checked_i128-fits (T /ℤ 7) (omega (arith, fits.0)) (omega (arith, fits.1)))
            (try_i64-fits (T /ℤ 7) fits.0 fits.1)),
      above,
      below,
    )
