-- ===== src/Price/Quorum/Sorts.antt =====
-- programs/tickersix/src/instructions/price.rs: the sorts, the minimum and the maximum of a subset of
-- the reports.
use tickersix.Base.{
  ℕ, zero, suc, ◌<◌, ◌≡◌, refl, sym, List, [], ◌∷◌, arith, length, map, All, get_or, inl, inr,
  Bool-cases,
}
use tickersix.Base.Int.{ℤ, pos, ltb_ℤ, ◌≤ℤ◌, ◌<ℤ◌, ◌+ℤ◌, ◌/ℤ◌, ltb_ℤ-false, ltb_ℤ→lt}
use mathlib.Core.Path.{subst}
use tickersix.Price.Quorum.{
  AttestationSummary, sort_prices, insert_price, sort_by_attestor, insert_by_attestor, minimum_from,
  maximum_from,
}

module _ {κ} (P : AttestationSummary → Type κ) where
  pub All-insert_by_attestor :
      (a : AttestationSummary) (xs : List AttestationSummary)
      → (P a × All P xs → All P (insert_by_attestor a xs))
        × (All P (insert_by_attestor a xs) → P a × All P xs)
  unfolding insert_by_attestor
  All-insert_by_attestor a [] = (λ h. h, λ h. h)
  All-insert_by_attestor a (x ∷ xs) = ground (arith, All-insert_by_attestor a xs)

  pub All-sort_by_attestor :
      (xs : List AttestationSummary)
      → (All P xs → All P (sort_by_attestor xs)) × (All P (sort_by_attestor xs) → All P xs)
  unfolding sort_by_attestor
  All-sort_by_attestor [] = (λ h. h, λ h. h)
  All-sort_by_attestor (x ∷ xs) =
      let (into, from) = All-sort_by_attestor xs in
      let (ins, out) = All-insert_by_attestor x (sort_by_attestor xs) in
      (λ h. ins (h.0, into h.1), λ h. ((out h).0, from (out h).1))

pub length-insert_by_attestor :
    (a : AttestationSummary) (xs : List AttestationSummary)
    → length (insert_by_attestor a xs) ≡ suc (length xs)
unfolding insert_by_attestor
length-insert_by_attestor a [] = refl
length-insert_by_attestor a (x ∷ xs) = ground (arith, length-insert_by_attestor a xs)

pub length-sort_by_attestor :
    (xs : List AttestationSummary) → length (sort_by_attestor xs) ≡ length xs
unfolding sort_by_attestor
length-sort_by_attestor [] = refl
length-sort_by_attestor (x ∷ xs) =
    omega (arith, length-insert_by_attestor x (sort_by_attestor xs), length-sort_by_attestor xs)

module _ (P : ℤ → Type 0) where
  pub All-insert_price : (a : ℤ) (xs : List ℤ) → P a → All P xs → All P (insert_price a xs)
  unfolding insert_price
  All-insert_price a [] p h = (p, tt)
  All-insert_price a (x ∷ xs) p h = ground (arith, All-insert_price a xs p)

  pub All-sort_prices : (xs : List ℤ) → All P xs → All P (sort_prices xs)
  unfolding sort_prices
  All-sort_prices [] h = tt
  All-sort_prices (x ∷ xs) h = All-insert_price x (sort_prices xs) h.0 (All-sort_prices xs h.1)

  pub All-get_or : (xs : List ℤ) (i : ℕ) (d : ℤ) → i < length xs → All P xs → P (get_or xs i d)
  All-get_or [] i d lt h = absurd (ground arith)
  All-get_or (x ∷ xs) zero d lt h = h.0
  All-get_or (x ∷ xs) (suc i) d lt h = All-get_or xs i d (ground arith) h.1

pub length-insert_price : (a : ℤ) (xs : List ℤ) → length (insert_price a xs) ≡ suc (length xs)
unfolding insert_price
length-insert_price a [] = refl
length-insert_price a (x ∷ xs) = ground (arith, length-insert_price a xs)

pub length-sort_prices : (xs : List ℤ) → length (sort_prices xs) ≡ length xs
unfolding sort_prices
length-sort_prices [] = refl
length-sort_prices (x ∷ xs) =
    omega (arith, length-insert_price x (sort_prices xs), length-sort_prices xs)

pub length-prices : (xs : List AttestationSummary) → length (map (λ r. r.price_q9) xs) ≡ length xs
length-prices [] = refl
length-prices (x ∷ xs) = omega (arith, length-prices xs)

pub All-prices :
    (P : ℤ → Type 0) (xs : List AttestationSummary)
    → All (λ r. P r.price_q9) xs
    → All P (map (λ r. r.price_q9) xs)
All-prices P [] h = tt
All-prices P (x ∷ xs) h = (h.0, All-prices P xs h.1)

-- One step of the minimum goes on from one of two prices, which is below both.
pub minimum_from-step :
    (m : ℤ) (r : AttestationSummary) (rs : List AttestationSummary)
    → (n : ℤ) × (minimum_from m (r ∷ rs) ≡ minimum_from n rs)
      × (n ≤ℤ m)
      × (n ≤ℤ r.price_q9)
      × ((lo : ℤ) → lo ≤ℤ m → lo ≤ℤ r.price_q9 → lo ≤ℤ n)
unfolding minimum_from
minimum_from-step m r rs = elim (Bool-cases (ltb_ℤ r.price_q9 m)) [
  | inl k ↦
      (r.price_q9, ground arith, omega (arith, ltb_ℤ→lt r.price_q9 m k), omega arith, λ lo h l. l)
  | inr k ↦ (m, ground arith, omega arith, omega (arith, ltb_ℤ-false r.price_q9 m k), λ lo h l. h)
]

pub maximum_from-step :
    (m : ℤ) (r : AttestationSummary) (rs : List AttestationSummary)
    → (n : ℤ) × (maximum_from m (r ∷ rs) ≡ maximum_from n rs)
      × (m ≤ℤ n)
      × (r.price_q9 ≤ℤ n)
      × ((hi : ℤ) → m ≤ℤ hi → r.price_q9 ≤ℤ hi → n ≤ℤ hi)
unfolding maximum_from
maximum_from-step m r rs = elim (Bool-cases (ltb_ℤ m r.price_q9)) [
  | inl k ↦
      (r.price_q9, ground arith, omega (arith, ltb_ℤ→lt m r.price_q9 k), omega arith, λ hi h l. l)
  | inr k ↦ (m, ground arith, omega arith, omega (arith, ltb_ℤ-false m r.price_q9 k), λ hi h l. h)
]

-- The minimum is the greatest of the bounds below the prices.
pub minimum_from-lower :
    (m : ℤ) (rs : List AttestationSummary)
    → (minimum_from m rs ≤ℤ m) × All (λ r. minimum_from m rs ≤ℤ r.price_q9) rs
unfolding minimum_from
minimum_from-lower m [] = (omega arith, tt)
minimum_from-lower m (r ∷ rs) =
    let (n, e, below_m, below_r, _) = minimum_from-step m r rs in
    let (h, hs) = minimum_from-lower n rs in
    subst (λ x. (x ≤ℤ m) × All (λ r'. x ≤ℤ r'.price_q9) (r ∷ rs)) (sym e)
      (omega arith, (omega arith, hs))

pub minimum_from-greatest :
    (lo m : ℤ) (rs : List AttestationSummary)
    → lo ≤ℤ m
    → All (λ r. lo ≤ℤ r.price_q9) rs
    → lo ≤ℤ minimum_from m rs
unfolding minimum_from
minimum_from-greatest lo m [] h k = h
minimum_from-greatest lo m (r ∷ rs) h k =
    let (n, e, _, _, above) = minimum_from-step m r rs in
    subst (λ x. lo ≤ℤ x) (sym e) (minimum_from-greatest lo n rs (above lo h k.0) k.1)

pub maximum_from-above : (m : ℤ) (rs : List AttestationSummary) → m ≤ℤ maximum_from m rs
unfolding maximum_from
maximum_from-above m [] = omega arith
maximum_from-above m (r ∷ rs) =
    let (n, e, above, _, _) = maximum_from-step m r rs in
    subst (λ x. m ≤ℤ x) (sym e) (omega (arith, maximum_from-above n rs))

pub maximum_from-upper :
    (m : ℤ) (rs : List AttestationSummary)
    → (m ≤ℤ maximum_from m rs) × All (λ r. r.price_q9 ≤ℤ maximum_from m rs) rs
unfolding maximum_from
maximum_from-upper m [] = (omega arith, tt)
maximum_from-upper m (r ∷ rs) =
    let (n, e, above_m, above_r, _) = maximum_from-step m r rs in
    let (h, hs) = maximum_from-upper n rs in
    subst (λ x. (m ≤ℤ x) × All (λ r'. r'.price_q9 ≤ℤ x) (r ∷ rs)) (sym e)
      (omega arith, (omega arith, hs))

pub maximum_from-least :
    (hi m : ℤ) (rs : List AttestationSummary)
    → m ≤ℤ hi
    → All (λ r. r.price_q9 ≤ℤ hi) rs
    → maximum_from m rs ≤ℤ hi
unfolding maximum_from
maximum_from-least hi m [] h k = h
maximum_from-least hi m (r ∷ rs) h k =
    let (n, e, _, _, below) = maximum_from-step m r rs in
    subst (λ x. x ≤ℤ hi) (sym e) (maximum_from-least hi n rs (below hi h k.0) k.1)

pub midpoint_between :
    (lo hi a b : ℤ)
    → lo ≤ℤ a
    → a ≤ℤ b
    → b ≤ℤ hi
    → pos 0 <ℤ a
    → (lo ≤ℤ (a +ℤ b) /ℤ 2) × ((a +ℤ b) /ℤ 2 ≤ℤ hi)
unfolding ◌+ℤ◌ ◌/ℤ◌
midpoint_between lo hi a b h k l p = ground arith
