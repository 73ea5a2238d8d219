-- ===== src/Protocol/Quorum/Views.antt =====
-- crates/protocol/src/lib.rs and programs/tickersix/src/instructions/price.rs: the two computations of a
-- quorum, part by part.
use tickersix.Base.{
  ℕ, ◌/◌, ◌%◌, ◌≡◌, ◌∙◌, refl, sym, ap, ◌==◌, List, [], ◌∷◌, Option, some, none, if◌then◌else◌,
  length, map, arith, All, inl, inr, Bool-cases,
}
use tickersix.Base.Int.{ℤ, ltb_ℤ}
use tickersix.Math.{sort_unstable, insert_sorted}
use tickersix.Price.Quorum.{
  AttestationSummary, QuorumResult, select_mask, minimum_from, maximum_from, sort_by_attestor,
  insert_by_attestor, attestors_lt, is_better,
}
use tickersix.Protocol.Quorum.{
  AttestorReport, QuorumSelection, selected_by, prices_of, least_price, greatest_price, keys_lt,
  improves,
}

-- What the services see of a report, and of a result of the program.
abbrev pub report_of : AttestationSummary → AttestorReport
report_of r = record { attestor = r.attestor; median_price_q9 = r.price_q9 }

abbrev pub selection_of : QuorumResult → QuorumSelection
selection_of q = record {
  selected_attestors = map (λ r. r.attestor) q.selected;
  finalized_price_q9 = q.finalized_price_q9;
  spread_bps = q.spread_bps;
}

abbrev pub mapped {κ ℓ} : {A : Type κ} {B : Type ℓ} → (A → B) → Option A → Option B
mapped f none = none
mapped f (some a) = some (f a)

pub selected_by-map :
    (m : ℕ) (rs : List AttestationSummary)
    → selected_by m (map report_of rs) ≡ map report_of (select_mask m rs)
unfolding selected_by select_mask
selected_by-map m [] = refl
selected_by-map m (r ∷ rs) = elim (Bool-cases (m % 2 == 1)) [
  | inl e ↦ rw (e, selected_by-map (m / 2) rs) refl
  | inr e ↦ rw (e, selected_by-map (m / 2) rs) refl
]

pub least_price-map :
    (m : ℤ) (rs : List AttestationSummary)
    → least_price m (prices_of (map report_of rs)) ≡ minimum_from m rs
unfolding least_price minimum_from
least_price-map m [] = refl
least_price-map m (r ∷ rs) = least_price-map (if ltb_ℤ r.price_q9 m then r.price_q9 else m) rs

pub greatest_price-map :
    (m : ℤ) (rs : List AttestationSummary)
    → greatest_price m (prices_of (map report_of rs)) ≡ maximum_from m rs
unfolding greatest_price maximum_from
greatest_price-map m [] = refl
greatest_price-map m (r ∷ rs) = greatest_price-map (if ltb_ℤ m r.price_q9 then r.price_q9 else m) rs

module _ (P : ℤ → Type 0) where
  pub minimum_from-All :
      (m : ℤ) (rs : List AttestationSummary)
      → P m
      → All (λ r. P r.price_q9) rs
      → P (minimum_from m rs)
  unfolding minimum_from
  minimum_from-All m [] p h = p
  minimum_from-All m (r ∷ rs) p h = elim (Bool-cases (ltb_ℤ r.price_q9 m)) [
    | inl e ↦ rw e (minimum_from-All r.price_q9 rs h.0 h.1)
    | inr e ↦ rw e (minimum_from-All m rs p h.1)
  ]

  pub maximum_from-All :
      (m : ℤ) (rs : List AttestationSummary)
      → P m
      → All (λ r. P r.price_q9) rs
      → P (maximum_from m rs)
  unfolding maximum_from
  maximum_from-All m [] p h = p
  maximum_from-All m (r ∷ rs) p h = elim (Bool-cases (ltb_ℤ m r.price_q9)) [
    | inl e ↦ rw e (maximum_from-All r.price_q9 rs h.0 h.1)
    | inr e ↦ rw e (maximum_from-All m rs p h.1)
  ]

pub map-insert_by_attestor :
    (a : AttestationSummary) (rs : List AttestationSummary)
    → map (λ r. r.attestor) (insert_by_attestor a rs)
      ≡ insert_sorted a.attestor (map (λ r. r.attestor) rs)
unfolding insert_by_attestor insert_sorted
map-insert_by_attestor a [] = refl
map-insert_by_attestor a (x ∷ xs) = ground (arith, map-insert_by_attestor a xs)

pub map-sort_by_attestor :
    (rs : List AttestationSummary)
    → sort_unstable (map (λ r. r.attestor) (map report_of rs))
      ≡ map (λ r. r.attestor) (sort_by_attestor rs)
unfolding sort_unstable sort_by_attestor
map-sort_by_attestor [] = refl
map-sort_by_attestor (x ∷ xs) =
    ap (insert_sorted x.attestor) (map-sort_by_attestor xs)
    ∙ sym (map-insert_by_attestor x (sort_by_attestor xs))

pub keys_lt-map :
    (xs ys : List AttestationSummary)
    → keys_lt (map (λ r. r.attestor) xs) (map (λ r. r.attestor) ys) ≡ attestors_lt xs ys
unfolding keys_lt attestors_lt
keys_lt-map xs [] = refl
keys_lt-map [] (y ∷ ys) = refl
keys_lt-map (x ∷ xs) (y ∷ ys) = ground (arith, keys_lt-map xs ys)

pub length-attestors :
    (xs : List AttestationSummary) → length (map (λ r. r.attestor) xs) ≡ length xs
length-attestors [] = refl
length-attestors (x ∷ xs) = omega (arith, length-attestors xs)

pub improves-map : (p q : QuorumResult) → improves (selection_of p) (selection_of q) ≡ is_better p q
unfolding improves is_better
improves-map p q =
    rw (length-attestors p.selected, length-attestors q.selected, keys_lt-map p.selected q.selected)
      refl
