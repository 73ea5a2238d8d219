-- ===== src/Protocol/Swiss/Search.antt =====
-- crates/protocol/src/lib.rs: `search_pairing` finds a pairing exactly where there is one.
use tickersix.Base.{
  none-some, true-false, ℕ, zero, suc, ◌+◌, ◌%◌, ◌<◌, ◌≡◌, ◌≢◌, ◌∙◌, refl, sym, Bool, false, not,
  ◌&&◌, ◌==◌, ltb, List, [], ◌∷◌, ◌++◌, Option, some, arith, if◌then◌else◌, length, All, occurs,
  filter, sort_by, inl, inr, Bool-cases, Option-cases, occurs-filter, occurs-sort_by,
}
use mathlib.Core.Path.{subst}
use tickersix.Runtime.{Key, Bytes}
use tickersix.Protocol.{paired}
use tickersix.Protocol.Swiss.{
  PairingPlayer, has_met, met, pair_lt, leader_from, leader_lt, opponent_lt, ordered, without,
  try_candidates, search_pairing,
}
use tickersix.Protocol.Swiss.Counts.{
  IsPairing, Once, occurs-paired_append, occurs-paired_sort, All-sort, All-append, hit, occurs-cons,
  hit_self, hit-none,
}

occurs_nil : (a : ℕ) → 0 < occurs a [] → ⊥
unfolding occurs
occurs_nil a h = omega arith

-- Taking out two elements that are there.
counted :
    (a first c : ℕ) (xs : List ℕ)
    → Once xs
    → 0 < occurs first xs
    → 0 < occurs c xs
    → c ≢ first
    → hit a first + hit a c + occurs a (without first c xs) ≡ occurs a xs
unfolding hit
counted a first c xs once f g d = ground (
  arith,
  occurs-filter (λ index. not (index == first) && not (index == c)) a xs,
  once a,
  once first,
  once c,
)

module _ (sha256 : Bytes → Key) (players : List PairingPlayer) (seed : Key) where
  abbrev search : ℕ → Bool → List ℕ → Option (List (ℕ × ℕ))
  search = search_pairing sha256 players seed

  abbrev try : (List ℕ → Option (List (ℕ × ℕ))) → Bool → ℕ → List ℕ → List ℕ → Option (List (ℕ × ℕ))
  try = try_candidates sha256 players seed

  met_sym : (a b : ℕ) → met sha256 players seed a b ≡ met sha256 players seed b a
  unfolding met has_met
  met_sym a b = ground arith

  -- The pair may be made: it is no repeat, where repeats are to be avoided.
  abbrev pub MayMeet : Bool → ℕ × ℕ → Type 0
  MayMeet avoid (a, b) = (avoid && met sha256 players seed a b) ≡ false

  pub MayMeet-sym : (avoid : Bool) (a b : ℕ) → MayMeet avoid (a, b) → MayMeet avoid (b, a)
  MayMeet-sym avoid a b h = rw (met_sym b a) h

  MayMeet-ordered : (avoid : Bool) (a b : ℕ) → MayMeet avoid (a, b) → MayMeet avoid (ordered a b)
  MayMeet-ordered avoid a b h = elim (Bool-cases (ltb a b)) [
    | inl e ↦ rw e h
    | inr e ↦ rw e (MayMeet-sym avoid a b h)
  ]

  -- A pairing of the list, all of whose pairs may be made.
  pub record Pairs (avoid : Bool) (xs : List ℕ) (pairs : List (ℕ × ℕ)) : Type 0 where
    pub complete : IsPairing xs pairs
    pub allowed : All (MayMeet avoid) pairs

  pub leader-occurs :
      (best : ℕ) (xs : List ℕ) → 0 < occurs (leader_from sha256 players seed best xs) (best ∷ xs)
  unfolding leader_from
  leader-occurs best [] = rw (occurs-cons best best [], hit_self best) (omega arith)
  leader-occurs best (x ∷ xs) = elim (Bool-cases (leader_lt sha256 players seed x best)) [
    | inl e ↦
        let b = leader_from sha256 players seed x xs in
        rw e (omega (arith, leader-occurs x xs, occurs-cons b best (x ∷ xs)))
    | inr e ↦
        let b = leader_from sha256 players seed best xs in
        rw e (
          omega (
            arith,
            leader-occurs best xs,
            occurs-cons b best (x ∷ xs),
            occurs-cons b best xs,
            occurs-cons b x xs,
          ))
  ]

  -- What a candidate that is tried first to succeed tells.
  record Chosen (find : List ℕ → Option (List (ℕ × ℕ))) (avoid : Bool) (first : ℕ)
      (remaining cs : List ℕ) (pairs : List (ℕ × ℕ)) : Type 0 where
    candidate : ℕ
    listed : 0 < occurs candidate cs
    may_meet : MayMeet avoid (first, candidate)
    others : List (ℕ × ℕ)
    found : find (without first candidate remaining) ≡ some others
    result : pairs ≡ sort_by pair_lt (others ++ ordered first candidate ∷ [])

  module _ (find : List ℕ → Option (List (ℕ × ℕ))) (avoid : Bool) (first : ℕ)
      (remaining : List ℕ) where
    later :
        {c : ℕ} {cs : List ℕ} {pairs : List (ℕ × ℕ)}
        → Chosen find avoid first remaining cs pairs
        → Chosen find avoid first remaining (c ∷ cs) pairs
    later {c} {cs} h = record {
      candidate = h.candidate;
      listed = omega (arith, occurs-cons h.candidate c cs, h.listed);
      may_meet = h.may_meet;
      others = h.others;
      found = h.found;
      result = h.result;
    }

    try-Chosen :
        (cs : List ℕ) (pairs : List (ℕ × ℕ))
        → try find avoid first remaining cs ≡ some pairs
        → Chosen find avoid first remaining cs pairs
    unfolding try_candidates
    try-Chosen [] pairs h = absurd (ground arith)
    try-Chosen (c ∷ cs) pairs h = elim (Bool-cases (avoid && met sha256 players seed first c)) [
      | inl e ↦ later (try-Chosen cs pairs (rw e at h))
      | inr e ↦ elim (Option-cases (find (without first c remaining))) [
        | inl n ↦ later (try-Chosen cs pairs (rw (e, n) at h))
        | inr (others, f) ↦ record {
          candidate = c;
          listed = omega (arith, occurs-cons c c cs, hit_self c);
          may_meet = e;
          others = others;
          found = f;
          result =
              (let h' : some (sort_by pair_lt (others ++ ordered first c ∷ [])) ≡ some pairs =
                  rw (e, f) at h in
                cc);
        }
      ]
    ]

    -- A candidate that may be met, and without which the others can be paired, is enough.
    pub try-finds :
        (c : ℕ) (cs : List ℕ) (others : List (ℕ × ℕ))
        → 0 < occurs c cs
        → MayMeet avoid (first, c)
        → find (without first c remaining) ≡ some others
        → (pairs : List (ℕ × ℕ)) × (try find avoid first remaining cs ≡ some pairs)
    unfolding try_candidates
    try-finds c [] others l m f = absurd (occurs_nil c l)
    try-finds c (x ∷ xs) others l m f =
        elim (Bool-cases (avoid && met sha256 players seed first x)) [
          | inl e ↦
              let other : x ≢ c =
                λ q. true-false (sym e ∙ (subst (λ y. MayMeet avoid (first, y)) (sym q) m)) in
              rw e (
                try-finds c xs others (omega (arith, l, occurs-cons c x xs, hit-none c x other)) m
                  f)
          | inr e ↦ elim (Option-cases (find (without first x remaining))) [
            | inl n ↦
                let other : x ≢ c = λ q.
                  none-some (
                    sym n
                    ∙ subst (λ y. find (without first y remaining) ≡ some others) (sym q) f) in
                rw (e, n)
                  (try-finds c xs others (omega (arith, l, occurs-cons c x xs, hit-none c x other))
                    m f)
            | inr (ps, g) ↦ rw (e, g) (_, refl)
          ]
        ]

  pub occurs-without :
      (a first c : ℕ) (xs : List ℕ)
      → occurs a (without first c xs)
        ≡ (if not (a == first) && not (a == c) then occurs a xs else 0)
  occurs-without a first c xs =
      occurs-filter (λ index. not (index == first) && not (index == c)) a xs

  pub Once-without : (first c : ℕ) (xs : List ℕ) → Once xs → Once (without first c xs)
  Once-without first c xs once a = ground (arith, occurs-without a first c xs, once a)

  occurs-ordered : (a p q : ℕ) → occurs a (paired (ordered p q ∷ [])) ≡ hit a p + hit a q
  unfolding occurs paired hit
  occurs-ordered a p q = ground arith

  -- The candidates of `first`: the others.
  pub occurs-candidates :
      (avoid : Bool) (c first : ℕ) (xs : List ℕ)
      → occurs c (
          sort_by
            (opponent_lt sha256 players seed avoid first)
            (filter (λ index. not (index == first)) xs))
        ≡ (if c == first then 0 else occurs c xs)
  occurs-candidates avoid c first xs =
      occurs-sort_by (opponent_lt sha256 players seed avoid first) c
        (filter (λ index. not (index == first)) xs)
      ∙ (occurs-filter (λ index. not (index == first)) c xs ∙ (ground arith))

  -- A pair that is taken out of a list, with the pairs of the others, is a pairing of the list.
  with-pair :
      (avoid : Bool) (first c : ℕ) (xs : List ℕ) (others : List (ℕ × ℕ))
      → Once xs
      → 0 < occurs first xs
      → 0 < occurs c xs
      → c ≢ first
      → MayMeet avoid (first, c)
      → Pairs avoid (without first c xs) others
      → Pairs avoid xs (sort_by pair_lt (others ++ ordered first c ∷ []))
  with-pair avoid first c xs others once f g d m p = record {
    complete = λ a.
        let count : hit a first + hit a c + occurs a (without first c xs) ≡ occurs a xs =
          counted a first c xs once f g d in
        omega (
          arith,
          occurs-paired_sort pair_lt a (others ++ ordered first c ∷ []),
          occurs-paired_append a others (ordered first c ∷ []),
          occurs-ordered a first c,
          p.complete a,
          count,
        );
    allowed = All-sort pair_lt (MayMeet avoid) (others ++ ordered first c ∷ []) (
        All-append (MayMeet avoid) others (ordered first c ∷ []) p.allowed
          (MayMeet-ordered avoid first c m, tt));
  }

  -- Whatever the search returns is a pairing of the list, without repeats where it avoids them.
  pub search_pairing-Pairs :
      (depth : ℕ) (avoid : Bool) (xs : List ℕ) (pairs : List (ℕ × ℕ))
      → Once xs
      → search depth avoid xs ≡ some pairs
      → Pairs avoid xs pairs
  unfolding search_pairing paired
  search_pairing-Pairs depth avoid [] pairs once h =
      let e : [] ≡ pairs = cc in
      subst (Pairs avoid []) e (record { complete = λ a. refl; allowed = tt })
  search_pairing-Pairs zero avoid (x ∷ xs) pairs once h = absurd (none-some h)
  search_pairing-Pairs (suc depth) avoid (x ∷ xs) pairs once h =
      elim (Bool-cases (length (x ∷ xs) % 2 == 1)) [
        | inl odd ↦ absurd (none-some (rw odd at h))
        | inr even ↦
            let first = leader_from sha256 players seed x xs in
            let rest = search depth avoid in
            let chosen = try-Chosen rest avoid first (x ∷ xs) _ pairs (rw even at h) in
            let c = chosen.candidate in
            let listed = occurs-candidates avoid c first (x ∷ xs) in
            let others =
              search_pairing-Pairs depth avoid (without first c (x ∷ xs)) chosen.others
                (Once-without first c (x ∷ xs) once) chosen.found in
            subst (Pairs avoid (x ∷ xs)) (sym chosen.result) (
              with-pair avoid first c (x ∷ xs) chosen.others once (leader-occurs x xs)
                (ground (arith, listed, chosen.listed))
                (λ q. ground (arith, listed, chosen.listed, q)) chosen.may_meet others)
      ]
