-- ===== src/Price/Quorum/Best.antt =====
-- programs/tickersix/src/instructions/price.rs: `choose_compatible_quorum` finds the best subset.
use tickersix.Base.{
  ℕ, zero, suc, ◌+◌, ◌<◌, ◌≡◌, refl, sym, true, false, ◌==◌, List, [], ◌∷◌, Option, some, none, ◌⊎◌,
  inl, inr, arith, Bool-cases,
}
use mathlib.Core.Path.{subst}
use tickersix.Errors.{ok, >>=-eq-ok}
use tickersix.Price.Quorum.{
  AttestationSummary, QuorumResult, select_mask, subset_candidate, is_better, attestors_lt,
  keep_better, quorum_loop, combinations, choose_compatible_quorum, quorum_or_error,
}

pub attestors_lt_trans :
    (xs ys zs : List AttestationSummary)
    → attestors_lt xs ys ≡ true
    → attestors_lt ys zs ≡ true
    → attestors_lt xs zs ≡ true
unfolding attestors_lt
attestors_lt_trans xs ys [] h k = cc
attestors_lt_trans [] ys (z ∷ zs) h k = refl
attestors_lt_trans (x ∷ xs) [] (z ∷ zs) h k = cc
attestors_lt_trans (x ∷ xs) (y ∷ ys) (z ∷ zs) h k = ground (arith, attestors_lt_trans xs ys zs)

pub is_better_trans :
    (p q r : QuorumResult) → is_better p q ≡ true → is_better q r ≡ true → is_better p r ≡ true
unfolding is_better
is_better_trans p q r h k = ground (arith, attestors_lt_trans p.selected q.selected r.selected)

attestors_lt_irrefl : (xs : List AttestationSummary) → attestors_lt xs xs ≡ false
unfolding attestors_lt
attestors_lt_irrefl [] = refl
attestors_lt_irrefl (x ∷ xs) = ground (arith, attestors_lt_irrefl xs)

is_better_irrefl : (q : QuorumResult) → is_better q q ≡ false
unfolding is_better
is_better_irrefl q = ground (arith, attestors_lt_irrefl q.selected)

some_of :
    (result : Option QuorumResult) {q : QuorumResult}
    → quorum_or_error result ≡ ok q
    → result ≡ some q
some_of (some q) h = cc
some_of none h = cc

module _ (max_spread_bps : ℕ) (reports : List AttestationSummary) where
  -- The subset of a mask is the candidate `c`.
  abbrev Candidate : ℕ → QuorumResult → Type 0
  Candidate m c = subset_candidate max_spread_bps (select_mask m reports) ≡ ok (some c)

  -- `best` is one of the candidates below `mask`, and none of them is better.
  pub record IsBest (mask : ℕ) (best : QuorumResult) : Type 0 where
    pub found : (m : ℕ) × (m < mask) × Candidate m best
    pub unbeaten : (m : ℕ) (c : QuorumResult) → m < mask → Candidate m c → is_better c best ≡ false

  -- What the loop knows of the best so far.
  abbrev IsBestSoFar : ℕ → Option QuorumResult → Type 0
  IsBestSoFar mask none = (m : ℕ) (c : QuorumResult) → m < mask → Candidate m c → ⊥
  IsBestSoFar mask (some best) = IsBest mask best

  -- A mask below the next one is below this one, or this one.
  split_mask :
      (m mask : ℕ) (c : QuorumResult) → m < suc mask → Candidate m c → (m < mask) ⊎ Candidate mask c
  split_mask m mask c lt h = elim (Bool-cases (m == mask)) [
    | inl e ↦ inr (subst (λ x. Candidate x c) (ground arith) h)
    | inr e ↦ inl (ground arith)
  ]

  same-Candidate :
      (mask : ℕ) (c : QuorumResult) (candidate : Option QuorumResult)
      → subset_candidate max_spread_bps (select_mask mask reports) ≡ ok candidate
      → Candidate mask c
      → candidate ≡ some c
  same-Candidate mask c candidate e h = cc

  keep_none :
      (mask : ℕ) (best : Option QuorumResult)
      → subset_candidate max_spread_bps (select_mask mask reports) ≡ ok none
      → IsBestSoFar mask best
      → IsBestSoFar (suc mask) best
  keep_none mask none e p =
      λ m c lt h. elim (split_mask m mask c lt h) [ inl lt' ↦ p m c lt' h | inr h' ↦ absurd (cc) ]
  keep_none mask (some best) e p = record {
    found = (p.found.0, ground arith, p.found.2);
    unbeaten = λ m c lt h. elim (split_mask m mask c lt h) [
      | inl lt' ↦ p.unbeaten m c lt' h
      | inr h' ↦ absurd (cc)
    ];
  }

  -- The candidate of a mask is not better than itself.
  not_better_itself :
      (mask : ℕ) (candidate c : QuorumResult)
      → Candidate mask candidate
      → Candidate mask c
      → is_better c candidate ≡ false
  not_better_itself mask candidate c e h =
      let e' : candidate ≡ c = cc in
      subst (λ x. is_better c x ≡ false) (sym e') (is_better_irrefl c)

  keep_first :
      (mask : ℕ) (candidate : QuorumResult)
      → Candidate mask candidate
      → IsBestSoFar mask none
      → IsBest (suc mask) candidate
  keep_first mask candidate e p = record {
    found = (mask, ground arith, e);
    unbeaten = λ m c lt h. elim (split_mask m mask c lt h) [
      | inl lt' ↦ absurd (p m c lt' h)
      | inr h' ↦ not_better_itself mask candidate c e h'
    ];
  }

  not_better :
      (c candidate best : QuorumResult)
      → is_better c best ≡ false
      → is_better candidate best ≡ true
      → is_better c candidate ≡ false
  not_better c candidate best h b = elim (Bool-cases (is_better c candidate)) [
    | inl k ↦ absurd (ground (arith, is_better_trans c candidate best k b))
    | inr k ↦ k
  ]

  keep_new :
      (mask : ℕ) (candidate best : QuorumResult)
      → Candidate mask candidate
      → is_better candidate best ≡ true
      → IsBest mask best
      → IsBest (suc mask) candidate
  keep_new mask candidate best e b p = record {
    found = (mask, ground arith, e);
    unbeaten = λ m c lt h. elim (split_mask m mask c lt h) [
      | inl lt' ↦ not_better c candidate best (p.unbeaten m c lt' h) b
      | inr h' ↦ not_better_itself mask candidate c e h'
    ];
  }

  keep_old :
      (mask : ℕ) (candidate best : QuorumResult)
      → Candidate mask candidate
      → is_better candidate best ≡ false
      → IsBest mask best
      → IsBest (suc mask) best
  keep_old mask candidate best e b p = record {
    found = (p.found.0, ground arith, p.found.2);
    unbeaten = λ m c lt h. elim (split_mask m mask c lt h) [
      | inl lt' ↦ p.unbeaten m c lt' h
      | inr h' ↦ (let e' : candidate ≡ c = cc in subst (λ x. is_better x best ≡ false) e' b)
    ];
  }

  keep_step :
      (mask : ℕ) (candidate best : Option QuorumResult)
      → subset_candidate max_spread_bps (select_mask mask reports) ≡ ok candidate
      → IsBestSoFar mask best
      → IsBestSoFar (suc mask) (keep_better candidate best)
  keep_step mask none best e p = keep_none mask best e p
  keep_step mask (some c) none e p = keep_first mask c e p
  keep_step mask (some c) (some b) e p = elim (Bool-cases (is_better c b)) [
    | inl k ↦ rw k (keep_new mask c b e k p)
    | inr k ↦ rw k (keep_old mask c b e k p)
  ]

  loop_best :
      (left mask : ℕ) (best result : Option QuorumResult)
      → quorum_loop left mask reports max_spread_bps best ≡ ok result
      → IsBestSoFar mask best
      → IsBestSoFar (left + mask) result
  unfolding quorum_loop
  loop_best zero mask best result h p =
      subst (λ n. IsBestSoFar n result) (ground arith) (subst (IsBestSoFar mask) (ground arith) p)
  loop_best (suc left) mask best result h p =
      let (candidate, e, k) =
        >>=-eq-ok (subset_candidate max_spread_bps (select_mask mask reports))
          (λ c. quorum_loop left (suc mask) reports max_spread_bps (keep_better c best)) h in
      subst (λ n. IsBestSoFar n result) (ground arith)
        (loop_best left (suc mask) (keep_better candidate best) result k
          (keep_step mask candidate best e p))

  -- When a compatible quorum is chosen, it is the candidate of some subset of the reports, and no
  -- candidate of any subset is better: has more reports, or as many with a smaller spread, or as many
  -- with the same spread and attestors that come first.
  pub choose_compatible_quorum-IsBest :
      {quorum : QuorumResult}
      → choose_compatible_quorum reports max_spread_bps ≡ ok quorum
      → IsBest (combinations reports) quorum
  unfolding choose_compatible_quorum
  choose_compatible_quorum-IsBest {quorum} h =
      let (result, e, k) =
        >>=-eq-ok (quorum_loop (combinations reports) 0 reports max_spread_bps none) quorum_or_error
          h in
      subst (λ n. IsBest n quorum) (ground arith)
        (subst (IsBestSoFar (combinations reports + 0)) (some_of result k)
          (loop_best (combinations reports) 0 none result e (λ m c lt _. ground arith)))
