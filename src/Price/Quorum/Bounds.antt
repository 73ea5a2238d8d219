-- ===== src/Price/Quorum/Bounds.antt =====
-- programs/tickersix/src/instructions/price.rs: what `choose_compatible_quorum` promises of the reports
-- that it selects and of their price.
use tickersix.Base.{
  ◌+◌, ◌-◌, ◌*◌, ℕ, ◌/◌, ◌≤◌, ◌≡◌, sym, ap, ◌==◌, List, [], ◌∷◌, some, arith, length, map, All,
  get_or, inl, inr, Bool-cases,
}
use tickersix.Base.Int.{ℤ, pos, negsuc, ◌≤ℤ◌, ◌<ℤ◌, ◌+ℤ◌, ◌-ℤ◌, ◌*ℤ◌, ◌/ℤ◌}
use mathlib.Core.Path.{subst}
use tickersix.Errors.{ok}
use tickersix.Math.{checked_i128}
use tickersix.Price.Quorum.{
  AttestationSummary, QuorumResult, try_u64, subset_candidate, subset_price, sort_prices,
  sort_by_attestor, minimum_from, maximum_from, choose_compatible_quorum, select_mask,
}
use tickersix.Price.Quorum.Best.{choose_compatible_quorum-IsBest}
use tickersix.Price.Quorum.Sorts.{
  All-sort_by_attestor, length-sort_by_attestor, All-sort_prices, All-get_or, length-sort_prices,
  length-prices, All-prices, minimum_from-lower, minimum_from-greatest, maximum_from-above,
  maximum_from-least, maximum_from-upper, midpoint_between,
}

abbrev pub Within : ℤ → ℤ → AttestationSummary → Type 0
Within lo hi r = (lo ≤ℤ r.price_q9) × (r.price_q9 ≤ℤ hi)

-- The least and the greatest price of reports: bounds within any bounds.
abbrev pub IsRange : ℤ → ℤ → List AttestationSummary → Type 0
IsRange lo hi rs = All (Within lo hi) rs × ((l u : ℤ) → All (Within l u) rs → (l ≤ℤ lo) × (hi ≤ℤ u))

-- What a chosen quorum is: two reports at least, all with positive prices, their spread, within the
-- limit, and a price within any bounds of the prices of the reports.
pub record IsQuorum (max_spread_bps : ℕ) (quorum : QuorumResult) : Type 0 where
  pub enough : 2 ≤ length quorum.selected
  pub spread_fits : quorum.spread_bps ≤ max_spread_bps
  pub spread_exact :
      (lo hi : ℕ)
      → IsRange (pos lo) (pos hi) quorum.selected
      → quorum.spread_bps ≡ ((hi - lo) * 10000) / ((lo + hi) / 2)
  pub positive : All (λ r. pos 0 <ℤ r.price_q9) quorum.selected
  pub price_between :
      (lo hi : ℤ)
      → All (Within lo hi) quorum.selected
      → (lo ≤ℤ quorum.finalized_price_q9) × (quorum.finalized_price_q9 ≤ℤ hi)

pub candidate_inversion :
    (max_spread_bps : ℕ) (first : AttestationSummary) (others : List AttestationSummary)
    {quorum : QuorumResult}
    → subset_candidate max_spread_bps (first ∷ others) ≡ ok (some quorum)
    → (2 ≤ length (first ∷ others))
      × (pos 0 <ℤ minimum_from first.price_q9 others)
      × (quorum.spread_bps ≤ max_spread_bps)
      × (quorum.selected ≡ sort_by_attestor (first ∷ others))
      × (subset_price
            (first ∷ others)
            ((minimum_from first.price_q9 others +ℤ maximum_from first.price_q9 others) /ℤ 2)
          ≡ ok quorum.finalized_price_q9)
unfolding subset_candidate
candidate_inversion max_spread_bps first others h = ground arith

candidate-spread :
    (max_spread_bps : ℕ) (first : AttestationSummary) (others : List AttestationSummary) (lo hi : ℕ)
    {quorum : QuorumResult}
    → subset_candidate max_spread_bps (first ∷ others) ≡ ok (some quorum)
    → minimum_from first.price_q9 others ≡ pos lo
    → maximum_from first.price_q9 others ≡ pos hi
    → lo ≤ hi
    → quorum.spread_bps ≡ ((hi - lo) * 10000) / ((lo + hi) / 2)
unfolding subset_candidate ◌+ℤ◌ ◌-ℤ◌ ◌*ℤ◌ ◌/ℤ◌ checked_i128 try_u64
candidate-spread max_spread_bps first others lo hi h e f l =
    let k = rw (e, f, subset_candidate) at h in ground arith

subset_price-between :
    (xs : List AttestationSummary) (midpoint lo hi : ℤ) {price : ℤ}
    → 2 ≤ length xs
    → (lo ≤ℤ midpoint) × (midpoint ≤ℤ hi)
    → All (Within lo hi) xs
    → subset_price xs midpoint ≡ ok price
    → (lo ≤ℤ price) × (price ≤ℤ hi)
unfolding subset_price
subset_price-between xs midpoint lo hi l b w h = elim (Bool-cases (length xs == 2)) [
  | inl k ↦ ground arith
  | inr k ↦
      let prices = map (λ r. r.price_q9) xs in
      let middle = get_or (sort_prices prices) (length xs / 2) (pos 0) in
      let bounds : (lo ≤ℤ middle) × (middle ≤ℤ hi) =
        All-get_or (λ p. (lo ≤ℤ p) × (p ≤ℤ hi)) (sort_prices prices) (length xs / 2) (pos 0)
          (omega (arith, length-sort_prices prices, length-prices xs))
          (All-sort_prices (λ p. (lo ≤ℤ p) × (p ≤ℤ hi)) prices
            (All-prices (λ p. (lo ≤ℤ p) × (p ≤ℤ hi)) xs w)) in
      ground (arith, bounds)
]

All-map {ℓ} :
    {A : Type ℓ} (P Q : A → Type 0) → ((a : A) → P a → Q a) → (xs : List A) → All P xs → All Q xs
All-map P Q f [] h = tt
All-map P Q f (x ∷ xs) h = (f x h.0, All-map P Q f xs h.1)

pub All-both {ℓ} :
    {A : Type ℓ} (P Q : A → Type 0) (xs : List A) → All P xs → All Q xs → All (λ a. P a × Q a) xs
All-both P Q [] h k = tt
All-both P Q (x ∷ xs) h k = ((h.0, k.0), All-both P Q xs h.1 k.1)

pub empty-refused :
    (max_spread_bps : ℕ) {quorum : QuorumResult}
    → subset_candidate max_spread_bps [] ≡ ok (some quorum)
    → ⊥
unfolding subset_candidate
empty-refused max_spread_bps h = ground arith

≤ℤ_antisym : (a b : ℤ) → a ≤ℤ b → b ≤ℤ a → a ≡ b
≤ℤ_antisym (pos m) (pos n) h k = ground arith
≤ℤ_antisym (pos m) (negsuc n) h k = ground arith
≤ℤ_antisym (negsuc m) (pos n) h k = ground arith
≤ℤ_antisym (negsuc m) (negsuc n) h k = ground arith

-- The minimum and the maximum lie within any bounds of the prices, and bound them.
extremes_within :
    (l u : ℤ) (x : AttestationSummary) (xs : List AttestationSummary)
    → All (Within l u) (x ∷ xs)
    → (l ≤ℤ minimum_from x.price_q9 xs) × (maximum_from x.price_q9 xs ≤ℤ u)
extremes_within l u x xs w = (
  minimum_from-greatest l x.price_q9 xs w.0.0
      (All-map (Within l u) (λ r. l ≤ℤ r.price_q9) (λ r k. k.0) xs w.1),
  maximum_from-least u x.price_q9 xs w.0.1
      (All-map (Within l u) (λ r. r.price_q9 ≤ℤ u) (λ r k. k.1) xs w.1),
)

Within-extremes :
    (x : AttestationSummary) (xs : List AttestationSummary)
    → All (Within (minimum_from x.price_q9 xs) (maximum_from x.price_q9 xs)) (x ∷ xs)
Within-extremes x xs =
    let lo = minimum_from x.price_q9 xs in
    let hi = maximum_from x.price_q9 xs in
    All-both (λ r. lo ≤ℤ r.price_q9) (λ r. r.price_q9 ≤ℤ hi) (x ∷ xs)
      (minimum_from-lower x.price_q9 xs) (maximum_from-upper x.price_q9 xs)

-- Every candidate of a subset is a quorum.
candidate-IsQuorum :
    (max_spread_bps : ℕ) (xs : List AttestationSummary) {quorum : QuorumResult}
    → subset_candidate max_spread_bps xs ≡ ok (some quorum)
    → IsQuorum max_spread_bps quorum
candidate-IsQuorum max_spread_bps [] h = absurd (empty-refused max_spread_bps h)
candidate-IsQuorum max_spread_bps (x ∷ xs) {quorum} h =
    let (enough, positive, spread, e, price) = candidate_inversion max_spread_bps x xs h in
    let lo = minimum_from x.price_q9 xs in
    let hi = maximum_from x.price_q9 xs in
    let lower = minimum_from-lower x.price_q9 xs in
    let back : (P : AttestationSummary → Type 0) → All P quorum.selected → All P (x ∷ xs) =
      λ P w. (All-sort_by_attestor P (x ∷ xs)).1 (subst (All P) e w) in
    let forth : (P : AttestationSummary → Type 0) → All P (x ∷ xs) → All P quorum.selected =
      λ P w. subst (All P) (sym e) ((All-sort_by_attestor P (x ∷ xs)).0 w) in
    let inside : (l u : ℤ) → All (Within l u) quorum.selected → (l ≤ℤ lo) × (hi ≤ℤ u) =
      λ l u w. extremes_within l u x xs (back (Within l u) w) in
    let ordered : lo ≤ℤ hi = omega (arith, maximum_from-above x.price_q9 xs, lower) in
    record {
      enough = omega (arith, ap length e, length-sort_by_attestor (x ∷ xs));
      spread_fits = spread;
      spread_exact = λ a b range.
          let (below, above) = inside (pos a) (pos b) range.0 in
          let (least, greatest) = range.1 lo hi (forth (Within lo hi) (Within-extremes x xs)) in
          candidate-spread max_spread_bps x xs a b h (≤ℤ_antisym lo (pos a) least below)
            (≤ℤ_antisym hi (pos b) above greatest) (omega (arith, ordered));
      positive =
          forth (λ r. pos 0 <ℤ r.price_q9)
            (All-map (λ r. lo ≤ℤ r.price_q9) (λ r. pos 0 <ℤ r.price_q9) (λ r k. omega arith)
              (x ∷ xs) lower);
      price_between = λ l u w.
          let (below, above) = inside l u w in
          subset_price-between (x ∷ xs) ((lo +ℤ hi) /ℤ 2) l u enough
            (midpoint_between l u lo hi below ordered above positive) (back (Within l u) w) price;
    }

-- When a compatible quorum is chosen, it has at least two reports, all of them with positive prices,
-- its spread is that of their least and greatest price, in basis points of the midpoint and truncated,
-- and within the limit, and its price lies within any bounds of the prices of its reports.
pub choose_compatible_quorum-IsQuorum :
    (reports : List AttestationSummary) (max_spread_bps : ℕ) {quorum : QuorumResult}
    → choose_compatible_quorum reports max_spread_bps ≡ ok quorum
    → IsQuorum max_spread_bps quorum
choose_compatible_quorum-IsQuorum reports max_spread_bps h =
    let best = choose_compatible_quorum-IsBest max_spread_bps reports h in
    candidate-IsQuorum max_spread_bps (select_mask best.found.0 reports) best.found.2
