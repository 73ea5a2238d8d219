-- ===== src/Protocol/Scores/Median.antt =====
-- crates/protocol/src/lib.rs: the median of an attestor's observations.
use tickersix.Base.{
  ◌-◌, ◌/◌, ◌%◌, ◌≤◌, ◌<◌, ◌≡◌, ◌∙◌, ◌⊎◌, refl, sym, ap, ◌==◌, List, [], ◌∷◌, arith, inl, inr,
  Bool-cases, length, get_or, All,
}
use tickersix.Base.Shuffle.{Shuffle, same, keep, swap, after}
use tickersix.Base.Int.{
  ℤ, pos, negsuc, pos_part, neg_part, ◌+ℤ◌, ◌/ℤ◌, ◌≤ℤ◌, leb_ℤ, fits_i64, fits_i128, IsI64,
  eq_of_parts, +ℤ_parts,
}
use tickersix.Price.Quorum.{insert_price, sort_prices}
use tickersix.Math.Score.{quot-parts, +ℤ_bounds}
use tickersix.Price.Quorum.Sorts.{All-sort_prices, All-get_or, length-sort_prices}
use tickersix.Outcome.{ok, ◌>>=◌}
use tickersix.Protocol.Scores.{median_q9, median_of_sorted, checked_i128, try_i64}

insert_comm :
    (a b : ℤ) (xs : List ℤ)
    → insert_price a (insert_price b xs) ≡ insert_price b (insert_price a xs)
unfolding insert_price leb_ℤ
insert_comm a b [] = ground (arith, eq_of_parts a b)
insert_comm a b (x ∷ xs) = ground (arith, eq_of_parts a b, insert_comm a b xs)

sort_prices-Shuffle : {xs ys : List ℤ} → Shuffle xs ys → sort_prices xs ≡ sort_prices ys
unfolding sort_prices
sort_prices-Shuffle same = refl
sort_prices-Shuffle (keep x s) = ap (insert_price x) (sort_prices-Shuffle s)
sort_prices-Shuffle (swap x y {xs}) = insert_comm x y (sort_prices xs)
sort_prices-Shuffle (after s t) = sort_prices-Shuffle s ∙ sort_prices-Shuffle t

median_q9-cons : (xs : List ℤ) → 0 < length xs → median_q9 xs ≡ median_of_sorted (sort_prices xs)
unfolding median_q9
median_q9-cons [] h = absurd (omega arith)
median_q9-cons (x ∷ xs) h = refl

Shuffle-length : {xs ys : List ℤ} → Shuffle xs ys → length xs ≡ length ys
Shuffle-length same = refl
Shuffle-length (keep x s) = omega (arith, Shuffle-length s)
Shuffle-length (swap x y) = refl
Shuffle-length (after s t) = Shuffle-length s ∙ Shuffle-length t

checked_fits :
    (a : ℤ)
    → pos_part a ≤ 18446744073709551616
    → neg_part a ≤ 18446744073709551616
    → checked_i128 a ≡ ok a
unfolding checked_i128 fits_i128
checked_fits (pos n) p q = ground arith
checked_fits (negsuc n) p q = ground arith

try_fits :
    (a : ℤ) → pos_part a ≤ 9223372036854775807 → neg_part a ≤ 9223372036854775808 → try_i64 a ≡ ok a
unfolding try_i64 fits_i64
try_fits (pos n) p q = ground arith
try_fits (negsuc n) p q = ground arith

-- An integer is positive or negative, not both.
one_sign : (a : ℤ) → (pos_part a ≡ 0) ⊎ (neg_part a ≡ 0)
one_sign (pos n) = inr refl
one_sign (negsuc n) = inl refl

mean-between :
    (lo hi a b : ℤ)
    → IsI64 a
    → IsI64 b
    → (lo ≤ℤ a) × (a ≤ℤ hi)
    → (lo ≤ℤ b) × (b ≤ℤ hi)
    → (m : ℤ) × ((checked_i128 (a +ℤ b) >>= λ sum. try_i64 (sum /ℤ 2)) ≡ ok m)
      × (lo ≤ℤ m)
      × (m ≤ℤ hi)
mean-between lo hi a b i j p q =
    let sum = a +ℤ b in
    let bounds = +ℤ_bounds a b in
    let halves = quot-parts sum 2 in
    (
      sum /ℤ 2,
      rw (checked_fits sum (omega (arith, bounds)) (omega (arith, bounds)))
          (try_fits (sum /ℤ 2) (omega (arith, bounds, halves)) (omega (arith, bounds, halves))),
      omega (arith, +ℤ_parts a b, halves, one_sign sum),
      omega (arith, +ℤ_parts a b, halves, one_sign sum),
    )

sorted-between :
    (lo hi : ℤ) (xs : List ℤ)
    → 0 < length xs
    → All IsI64 xs
    → All (λ x. (lo ≤ℤ x) × (x ≤ℤ hi)) xs
    → (m : ℤ) × (median_of_sorted xs ≡ ok m) × (lo ≤ℤ m) × (m ≤ℤ hi)
unfolding median_of_sorted
sorted-between lo hi xs n i b =
    let middle = length xs / 2 in
    let high = All-get_or (λ x. (lo ≤ℤ x) × (x ≤ℤ hi)) xs middle (pos 0) (omega arith) b in
    elim (Bool-cases (length xs % 2 == 1)) [
      | inl odd ↦ (get_or xs middle (pos 0), rw odd refl, high.0, high.1)
      | inr even ↦
          let low =
            All-get_or (λ x. (lo ≤ℤ x) × (x ≤ℤ hi)) xs (middle - 1) (pos 0) (omega arith) b in
          let low_fits = All-get_or IsI64 xs (middle - 1) (pos 0) (omega arith) i in
          let high_fits = All-get_or IsI64 xs middle (pos 0) (omega arith) i in
          let (m, run, above, below) =
            mean-between lo hi (get_or xs (middle - 1) (pos 0)) (get_or xs middle (pos 0)) low_fits
              high_fits low high in
          (m, rw even run, above, below)
    ]

-- The median of at least one observation, all of type `i64`, does not depend on their order, never
-- overflows, and lies between any two bounds on them.
pub median_q9-between :
    (xs ys : List ℤ) (lo hi : ℤ)
    → 0 < length xs
    → Shuffle xs ys
    → All IsI64 xs
    → All (λ x. (lo ≤ℤ x) × (x ≤ℤ hi)) xs
    → (m : ℤ) × (median_q9 xs ≡ ok m) × (median_q9 ys ≡ ok m) × (lo ≤ℤ m) × (m ≤ℤ hi)
median_q9-between xs ys lo hi n s i b =
    let sorted = sort_prices xs in
    let all_i64 = All-sort_prices IsI64 xs i in
    let all_between = All-sort_prices (λ x. (lo ≤ℤ x) × (x ≤ℤ hi)) xs b in
    let (m, run, above, below) =
      sorted-between lo hi sorted (omega (arith, length-sort_prices xs)) all_i64 all_between in
    (
      m,
      median_q9-cons xs n ∙ run,
      median_q9-cons ys (omega (arith, Shuffle-length s))
          ∙ (ap median_of_sorted (sym (sort_prices-Shuffle s)) ∙ run),
      above,
      below,
    )
