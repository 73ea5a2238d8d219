-- ===== src/Protocol/Quorum/Agree.antt =====
-- crates/protocol/src/lib.rs and programs/tickersix/src/instructions/price.rs: the quorum that the
-- services select is the one that the program chooses.
use tickersix.Base.{
  ℕ, zero, suc, ◌/◌, ◌%◌, ◌≤◌, ◌≡◌, refl, true, false, ◌==◌, ltb, leb, List, [], ◌∷◌, Option, some,
  none, length, map, arith, All, inl, inr, Bool-cases,
}
use tickersix.Base.Int.{pos, pos_part, ◌+ℤ◌, ◌-ℤ◌, ◌*ℤ◌, ◌/ℤ◌, leb_ℤ, lt→ltb_ℤ}
use tickersix.Errors
use tickersix.Errors.{Result}
use tickersix.Price.Quorum
use tickersix.Price.Quorum.{
  AttestationSummary, QuorumResult, select_mask, minimum_from, maximum_from, subset_price,
  subset_candidate, is_better, keep_better, quorum_loop, combinations, choose_compatible_quorum,
  quorum_or_error, sort_prices, insert_price,
}
use tickersix.Outcome
use tickersix.Outcome.{Outcome, ok, err, ◌>>=◌, outcome_of, value_of}
use tickersix.Protocol.{MathError}
use tickersix.Protocol.Quorum.{
  QuorumSelection, candidate, better_of, select_loop, masks, has_duplicate, any_not_positive,
  select_compatible_quorum,
}
use tickersix.Protocol.Quorum.Views.{
  report_of, selection_of, mapped, selected_by-map, least_price-map, greatest_price-map,
  minimum_from-All, maximum_from-All, map-sort_by_attestor, improves-map,
}
use tickersix.Protocol.Quorum.Steps.{
  IsPrice, bind_mapped, step_agree, try_u64_agree, difference_fits, scaled_fits, spread_fits,
  price_agree, length-reports,
}

candidate_agree :
    (max_spread_bps : ℕ) (sel : List AttestationSummary)
    → All (λ r. IsPrice r.price_q9) sel
    → length sel ≤ 3
    → outcome_of (candidate max_spread_bps (map report_of sel))
      ≡ mapped (mapped selection_of) (value_of (subset_candidate max_spread_bps sel))
unfolding candidate subset_candidate
candidate_agree s [] h u = refl
candidate_agree s (first ∷ others) h u = elim (Bool-cases (ltb (length (first ∷ others)) 2)) [
  | inl e ↦ rw (length-reports others, e) refl
  | inr e ↦
      let mn = minimum_from first.price_q9 others in
      let mx = maximum_from first.price_q9 others in
      let p = minimum_from-All IsPrice first.price_q9 others h.0 h.1 in
      let q = maximum_from-All IsPrice first.price_q9 others h.0 h.1 in
      let midpoint = (mn +ℤ mx) /ℤ 2 in
      rw
        (
          least_price-map first.price_q9 others,
          greatest_price-map first.price_q9 others,
          length-reports others,
          e,
          lt→ltb_ℤ (pos 0) mn p.0,
          difference_fits mn mx p q (pos_part midpoint),
          (scaled_fits mn mx p q (pos_part midpoint)).0,
          (scaled_fits mn mx p q (pos_part midpoint)).1,
          spread_fits mn mx p q (pos_part midpoint),
        )
        (bind_mapped (mapped selection_of)
          (Quorum.try_u64 ((mx -ℤ mn) *ℤ 10000 /ℤ pos_part midpoint)) _ _ _
          (try_u64_agree ((mx -ℤ mn) *ℤ 10000 /ℤ pos_part midpoint))
          (λ bps. elim (Bool-cases (ltb s bps)) [
            | inl wide ↦ rw wide refl
            | inr narrow ↦ rw narrow (
                bind_mapped (mapped selection_of) (subset_price (first ∷ others) midpoint) _ _ _
                  (price_agree (first ∷ others) midpoint (ground arith) u)
                  (λ price. rw (map-sort_by_attestor (first ∷ others)) refl))
          ]))
]

improves_agree :
    (c b : Option QuorumResult)
    → better_of (mapped selection_of c) (mapped selection_of b)
      ≡ mapped selection_of (keep_better c b)
improves_agree none b = refl
improves_agree (some c) none = refl
improves_agree (some c) (some b) = elim (Bool-cases (is_better c b)) [
  | inl e ↦ rw (improves-map c b, e) refl
  | inr e ↦ rw (improves-map c b, e) refl
]

select_mask-All :
    (P : AttestationSummary → Type 0) (m : ℕ) (rs : List AttestationSummary)
    → All P rs
    → All P (select_mask m rs) × (length (select_mask m rs) ≤ length rs)
unfolding select_mask
select_mask-All P m [] h = (tt, omega arith)
select_mask-All P m (r ∷ rs) h =
    let later = select_mask-All P (m / 2) rs h.1 in
    elim (Bool-cases (m % 2 == 1)) [
      | inl e ↦ rw e ((h.0, later.0), omega (arith, later.1))
      | inr e ↦ rw e (later.0, omega (arith, later.1))
    ]

loop_agree :
    (left mask : ℕ) (rs : List AttestationSummary) (s : ℕ) (best : Option QuorumResult)
    → All (λ r. IsPrice r.price_q9) rs
    → length rs ≤ 3
    → outcome_of (select_loop left mask (map report_of rs) s (mapped selection_of best))
      ≡ mapped (mapped selection_of) (value_of (quorum_loop left mask rs s best))
unfolding select_loop quorum_loop
loop_agree zero mask rs s best h u = refl
loop_agree (suc left) mask rs s best h u =
    let sel = select_mask mask rs in
    let (all, fewer) = select_mask-All (λ r. IsPrice r.price_q9) mask rs h in
    let here = candidate_agree s sel all (omega (arith, fewer, u)) in
    rw (selected_by-map mask rs) (
      step_agree (mapped selection_of) (mapped selection_of) (subset_candidate s sel)
        (candidate s (map report_of sel)) _ _ here
        (λ c.
          rw (improves_agree c best) (loop_agree left (suc mask) rs s (keep_better c best) h u)))

masks-combinations : (rs : List AttestationSummary) → masks (map report_of rs) ≡ combinations rs
masks-combinations [] = refl
masks-combinations (r ∷ rs) = omega (arith, masks-combinations rs)

prices-positive :
    (rs : List AttestationSummary)
    → All (λ r. IsPrice r.price_q9) rs
    → any_not_positive (map report_of rs) ≡ false
unfolding any_not_positive leb_ℤ
prices-positive [] h = refl
prices-positive (r ∷ rs) h = ground (arith, h.0.0, prices-positive rs h.1)

quorum_or_error_agree :
    (best : Option QuorumResult)
    → outcome_of (Outcome.ok_or (mapped selection_of best) MathError.no_compatible_quorum)
      ≡ mapped selection_of (value_of (quorum_or_error best))
quorum_or_error_agree none = refl
quorum_or_error_agree (some q) = refl

last_agree :
    (m : Result (Option QuorumResult)) (o : Outcome MathError (Option QuorumSelection))
    → outcome_of o ≡ mapped (mapped selection_of) (value_of m)
    → outcome_of (o >>= λ best. Outcome.ok_or best MathError.no_compatible_quorum)
      ≡ mapped selection_of (value_of (Errors.◌>>=◌ m quorum_or_error))
last_agree m o h =
    step_agree (mapped selection_of) selection_of m o quorum_or_error _ h quorum_or_error_agree

-- On at most three reports of different attestors, with positive prices of type `i64`, the services
-- select the quorum that the program chooses: the same attestors in the same order, the same price
-- and the same spread; and they find none exactly when the program does.
pub select_compatible_quorum-agree :
    (reports : List AttestationSummary) (max_spread_bps : ℕ)
    → length reports ≤ 3
    → All (λ r. IsPrice r.price_q9) reports
    → has_duplicate (map report_of reports) ≡ false
    → outcome_of (select_compatible_quorum (map report_of reports) max_spread_bps)
      ≡ mapped selection_of (value_of (choose_compatible_quorum reports max_spread_bps))
unfolding select_compatible_quorum choose_compatible_quorum
select_compatible_quorum-agree reports s u h d =
    let few : leb (length reports) 3 ≡ true = ground arith in
    rw (length-reports reports, few, prices-positive reports h, d, masks-combinations reports)
      (last_agree (quorum_loop (combinations reports) 0 reports s none)
        (select_loop (combinations reports) 0 (map report_of reports) s none)
        (loop_agree (combinations reports) 0 reports s none h u))
