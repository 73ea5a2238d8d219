-- ===== src/Protocol/Swiss/Complete.antt =====
-- crates/protocol/src/lib.rs: `search_pairing` misses no pairing.
use tickersix.Base.{
  ℕ, zero, suc, ◌+◌, ◌%◌, ◌≤◌, ◌<◌, ◌≡◌, ◌≢◌, ◌∙◌, refl, sym, Bool, false, not, ◌&&◌, ◌==◌, List,
  [], ◌∷◌, some, arith, length, All, occurs, inl, inr, Bool-cases, ==_iff, occurs-filter,
}
use mathlib.Core.Path.{subst}
use tickersix.Runtime.{Key, Bytes}
use tickersix.Protocol.{paired}
use tickersix.Protocol.Swiss.{PairingPlayer, leader_from, without, search_pairing}
use tickersix.Protocol.Swiss.Counts.{Once, same_length, hit, occurs-pair, occurs-cons, hit_self}
use tickersix.Protocol.Swiss.Search.{
  MayMeet, MayMeet-sym, Pairs, try-finds, leader-occurs, occurs-candidates, Once-without,
}

even-paired : (pairs : List (ℕ × ℕ)) → length (paired pairs) % 2 ≡ 0
unfolding paired
even-paired [] = refl
even-paired ((p, q) ∷ pairs) = omega (arith, even-paired pairs)

even_test : (n : ℕ) → n % 2 ≡ 0 → (n % 2 == 1) ≡ false
even_test n h = ground arith

occurs_none : (a : ℕ) → 0 < occurs a (paired []) → ⊥
unfolding occurs paired
occurs_none a h = omega arith

later_pair :
    (first p q : ℕ) (pairs : List (ℕ × ℕ))
    → (p == first) ≡ false
    → (q == first) ≡ false
    → 0 < occurs first (paired ((p, q) ∷ pairs))
    → 0 < occurs first (paired pairs)
unfolding occurs paired
later_pair first p q pairs e e' h = ground arith

twice : (first c n : ℕ) → c ≡ first → hit first first + hit first c + n ≤ 1 → ⊥
unfolding hit
twice first c n e h = ground arith

rest_counts :
    (a first c : ℕ) (xs others : List ℕ)
    → Once xs
    → ((b : ℕ) → hit b first + hit b c + occurs b others ≡ occurs b xs)
    → occurs a others ≡ occurs a (without first c xs)
unfolding hit
rest_counts a first c xs others once count =
    ground (
      arith,
      occurs-filter (λ index. not (index == first) && not (index == c)) a xs,
      once a,
      count a,
    )

module _ (sha256 : Bytes → Key) (players : List PairingPlayer) (seed : Key) (avoid : Bool) where
  abbrev Meets : ℕ × ℕ → Type 0
  Meets = MayMeet sha256 players seed avoid

  -- The pair of `first` in a pairing, and the other pairs.
  record Split (first : ℕ) (pairs : List (ℕ × ℕ)) : Type 0 where
    opponent : ℕ
    others : List (ℕ × ℕ)
    counts :
        (a : ℕ) → occurs a (paired pairs) ≡ hit a first + hit a opponent + occurs a (paired others)
    meets : Meets (first, opponent)
    others_meet : All Meets others

  split :
      (first : ℕ) (pairs : List (ℕ × ℕ))
      → 0 < occurs first (paired pairs)
      → All Meets pairs
      → Split first pairs
  split first [] h m = absurd (occurs_none first h)
  split first ((p, q) ∷ pairs) h m = elim (Bool-cases (p == first)) [
    | inl e ↦
        let e' : p ≡ first = (==_iff p first).0 e in
        record {
          opponent = q;
          others = pairs;
          counts = λ a.
              subst
                (λ f.
                  occurs a (paired ((p, q) ∷ pairs)) ≡ hit a f + hit a q + occurs a (paired pairs))
                e' (occurs-pair a p q pairs);
          meets = subst (λ f. Meets (f, q)) e' m.0;
          others_meet = m.1;
        }
    | inr e ↦ elim (Bool-cases (q == first)) [
      | inl e' ↦
          let e'' : q ≡ first = (==_iff q first).0 e' in
          record {
            opponent = p;
            others = pairs;
            counts = λ a.
                subst
                  (λ f.
                    occurs a (paired ((p, q) ∷ pairs))
                    ≡ hit a f + hit a p + occurs a (paired pairs))
                  e'' (omega (arith, occurs-pair a p q pairs));
            meets = subst (λ f. Meets (f, p)) e'' (MayMeet-sym sha256 players seed avoid p q m.0);
            others_meet = m.1;
          }
      | inr e' ↦
          let r = split first pairs (later_pair first p q pairs e e' h) m.1 in
          record {
            opponent = r.opponent;
            others = (p, q) ∷ r.others;
            counts =
                λ a. omega (arith, r.counts a, occurs-pair a p q pairs, occurs-pair a p q r.others);
            meets = r.meets;
            others_meet = (m.0, r.others_meet);
          }
    ]
  ]

  split_opponent :
      (first c : ℕ) (xs others : List ℕ)
      → Once xs
      → ((a : ℕ) → hit a first + hit a c + occurs a others ≡ occurs a xs)
      → (c ≢ first)
        × (0 < occurs c xs)
        × ((a : ℕ) → occurs a others ≡ occurs a (without first c xs))
  split_opponent first c xs others once count = (
    λ q. twice first c (occurs first others) q (omega (arith, once first, count first)),
    omega (arith, count c, hit_self c),
    λ a. rest_counts a first c xs others once count,
  )

  length-without :
      (first c : ℕ) (xs : List ℕ)
      → ((a : ℕ) → hit a first + hit a c + occurs a (without first c xs) ≡ occurs a xs)
      → length xs ≡ suc (suc (length (without first c xs)))
  length-without first c xs count = same_length xs (first ∷ c ∷ without first c xs) (λ a. omega (
    arith,
    count a,
    occurs-cons a first (c ∷ without first c xs),
    occurs-cons a c (without first c xs),
  ))

  -- Where the list has a pairing, all of whose pairs may be made, the search finds one, in at most as
  -- many calls as the list is long.
  pub search_pairing-finds :
      (depth : ℕ) (xs : List ℕ) (pairs : List (ℕ × ℕ))
      → Once xs
      → length xs ≤ depth
      → Pairs sha256 players seed avoid xs pairs
      → (found : List (ℕ × ℕ)) × (search_pairing sha256 players seed depth avoid xs ≡ some found)
  unfolding search_pairing
  search_pairing-finds depth [] pairs once fits p = ([], refl)
  search_pairing-finds zero (x ∷ xs) pairs once fits p = absurd (omega arith)
  search_pairing-finds (suc depth) (x ∷ xs) pairs once fits p =
      let all = x ∷ xs in
      let first = leader_from sha256 players seed x xs in
      let even =
        even_test (length all)
          (omega (arith, even-paired pairs, same_length (paired pairs) all p.complete)) in
      let leads = leader-occurs sha256 players seed x xs in
      let s = split first pairs (omega (arith, leads, p.complete first)) p.allowed in
      let c = s.opponent in
      let count : (a : ℕ) → hit a first + hit a c + occurs a (paired s.others) ≡ occurs a all =
        λ a. sym (s.counts a) ∙ p.complete a in
      let (different, there, same) = split_opponent first c all (paired s.others) once count in
      let count' : (a : ℕ) → hit a first + hit a c + occurs a (without first c all) ≡ occurs a all =
        λ a. omega (arith, count a, same a) in
      let (found, run) =
        search_pairing-finds depth (without first c all) s.others
          (Once-without sha256 players seed first c all once)
          (omega (arith, length-without first c all count'))
          (record { complete = same; allowed = s.others_meet }) in
      rw even (
        try-finds sha256 players seed (search_pairing sha256 players seed depth avoid) avoid first
          all c _ found
          (ground
            (arith, occurs-candidates sha256 players seed avoid c first all, there, different))
          s.meets run)
