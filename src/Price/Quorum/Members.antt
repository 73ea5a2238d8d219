-- ===== src/Price/Quorum/Members.antt =====
-- programs/tickersix/src/instructions/price.rs: the reports that `choose_compatible_quorum` selects are
-- some of those that it was given.
use tickersix.Base.{
  ℕ, suc, ◌/◌, ◌≤◌, ◌≡◌, sym, ◌==◌, List, [], ◌∷◌, some, All, if◌then◌else◌, arith,
}
use mathlib.Core.Path.{subst}
use tickersix.Errors.{ok}
use tickersix.Runtime.{Key}
use tickersix.Price.Quorum.{
  AttestationSummary, QuorumResult, select_mask, subset_candidate, sort_by_attestor,
  insert_by_attestor, choose_compatible_quorum,
}
use tickersix.Price.Quorum.Best.{choose_compatible_quorum-IsBest}
use tickersix.Price.Quorum.Bounds.{candidate_inversion, empty-refused}
use tickersix.Price.Quorum.Sorts.{All-sort_by_attestor}

-- How many of the reports are of an attestor.
unfoldable pub count : Key → List AttestationSummary → ℕ
count key [] = 0
count key (r ∷ rs) = if r.attestor == key then suc (count key rs) else count key rs

All-select_mask :
    (P : AttestationSummary → Type 0) (mask : ℕ) (rs : List AttestationSummary)
    → All P rs
    → All P (select_mask mask rs)
unfolding select_mask
All-select_mask P mask [] h = tt
All-select_mask P mask (r ∷ rs) h = ground (arith, All-select_mask P (mask / 2) rs)

count-select_mask :
    (key : Key) (mask : ℕ) (rs : List AttestationSummary)
    → count key (select_mask mask rs) ≤ count key rs
unfolding select_mask count
count-select_mask key mask [] = omega arith
count-select_mask key mask (r ∷ rs) = ground (arith, count-select_mask key (mask / 2) rs)

count-insert_by_attestor :
    (key : Key) (a : AttestationSummary) (rs : List AttestationSummary)
    → count key (insert_by_attestor a rs)
      ≡ (if a.attestor == key then suc (count key rs) else count key rs)
unfolding insert_by_attestor count
count-insert_by_attestor key a [] = ground arith
count-insert_by_attestor key a (r ∷ rs) = ground (arith, count-insert_by_attestor key a rs)

count-sort_by_attestor :
    (key : Key) (rs : List AttestationSummary) → count key (sort_by_attestor rs) ≡ count key rs
unfolding sort_by_attestor count
count-sort_by_attestor key [] = omega arith
count-sort_by_attestor key (r ∷ rs) =
    ground
      (arith, count-insert_by_attestor key r (sort_by_attestor rs), count-sort_by_attestor key rs)

candidate-selected :
    (max_spread_bps : ℕ) (rs : List AttestationSummary) {quorum : QuorumResult}
    → subset_candidate max_spread_bps rs ≡ ok (some quorum)
    → quorum.selected ≡ sort_by_attestor rs
candidate-selected max_spread_bps [] h = absurd (empty-refused max_spread_bps h)
candidate-selected max_spread_bps (x ∷ xs) h =
    let (_, _, _, selected, _) = candidate_inversion max_spread_bps x xs h in selected

-- What all the reports satisfy, the selected ones do; and no attestor has more of them.
pub choose_compatible_quorum-All :
    (P : AttestationSummary → Type 0) (reports : List AttestationSummary) (max_spread_bps : ℕ)
    {quorum : QuorumResult}
    → choose_compatible_quorum reports max_spread_bps ≡ ok quorum
    → All P reports
    → All P quorum.selected × ((key : Key) → count key quorum.selected ≤ count key reports)
choose_compatible_quorum-All P reports max_spread_bps h p =
    let best = choose_compatible_quorum-IsBest max_spread_bps reports h in
    let (m, _, c) = best.found in
    let e = sym (candidate-selected max_spread_bps (select_mask m reports) c) in
    (
      subst (All P) e
          ((All-sort_by_attestor P (select_mask m reports)).0 (All-select_mask P m reports p)),
      λ key.
          subst (λ rs. count key rs ≤ count key reports) e
            (omega (
              arith,
              count-sort_by_attestor key (select_mask m reports),
              count-select_mask key m reports,
            )),
    )
