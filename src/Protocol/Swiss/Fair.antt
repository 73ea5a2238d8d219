-- ===== src/Protocol/Swiss/Fair.antt =====
-- crates/protocol/src/lib.rs: what `pair_swiss` promises of the pairing of a round.
use tickersix.Base.{
  none-some, ℕ, ◌%◌, ◌≤◌, ◌<◌, ◌≡◌, ◌∙◌, refl, sym, Bool, true, false, not, ◌==◌, ltb, List, [],
  ◌∷◌, Option, some, none, arith, if◌then◌else◌, length, All, occurs, inl, inr, Bool-cases,
  Option-cases, range_from, occurs-filter, occurs-range_from, length-range_from, ==_iff, ◌⊎◌,
}
use mathlib.Core.Path.{subst}
use tickersix.Outcome.{ok}
use tickersix.Runtime.{Key, Bytes}
use tickersix.Protocol.{paired}
use tickersix.Protocol.Swiss.{
  PairingPlayer, PairingResult, usize_max, search_pairing, all_but, real_bye, first_fresh,
  with_repeats,
}
use tickersix.Protocol.Swiss.Counts.{IsPairing, Once, same_length, occurs-pair, occurs-cons}
use tickersix.Protocol.Swiss.Search.{MayMeet, Pairs, search_pairing-Pairs}
use tickersix.Protocol.Swiss.Complete.{search_pairing-finds}

-- Neighbours in the list, paired.
unfoldable neighbours : List ℕ → List (ℕ × ℕ)
neighbours [] = []
neighbours (x ∷ []) = []
neighbours (x ∷ y ∷ xs) = (x, y) ∷ neighbours xs

neighbours-IsPairing : (xs : List ℕ) → length xs % 2 ≡ 0 → IsPairing xs (neighbours xs)
unfolding neighbours paired
neighbours-IsPairing [] h a = refl
neighbours-IsPairing (x ∷ []) h a = absurd (omega arith)
neighbours-IsPairing (x ∷ y ∷ xs) h a = omega (
  arith,
  occurs-pair a x y (neighbours xs),
  occurs-cons a x (y ∷ xs),
  occurs-cons a y xs,
  neighbours-IsPairing xs (omega arith) a,
)

pub occurs_nil : (a : ℕ) → 0 < occurs a [] → ⊥
unfolding occurs
occurs_nil a h = omega arith

occurs_head : (a : ℕ) (xs : List ℕ) → 0 < occurs a (a ∷ xs)
unfolding occurs
occurs_head a xs = ground arith

more_occurs : (a x : ℕ) (xs : List ℕ) → 0 < occurs a xs → 0 < occurs a (x ∷ xs)
unfolding occurs
more_occurs a x xs h = ground arith

later_occurs : (a x : ℕ) (xs : List ℕ) → (x == a) ≡ false → 0 < occurs a (x ∷ xs) → 0 < occurs a xs
unfolding occurs
later_occurs a x xs e h = ground arith

module _ (sha256 : Bytes → Key) (players : List PairingPlayer) (seed : Key) where
  neighbours-MayMeet : (pairs : List (ℕ × ℕ)) → All (MayMeet sha256 players seed false) pairs
  neighbours-MayMeet [] = tt
  neighbours-MayMeet ((p, q) ∷ pairs) = (refl, neighbours-MayMeet pairs)

  pub occurs-all_but :
      (a bye : ℕ)
      → occurs a (all_but sha256 players seed bye)
        ≡ (if a == bye then 0 else (if ltb a (length players) then 1 else 0))
  unfolding all_but
  occurs-all_but a bye =
      occurs-filter (λ index. not (index == bye)) a (range_from 0 (length players))
      ∙ (rw (occurs-range_from a 0 (length players)) (ground arith))

  pub Once-all_but : (bye : ℕ) → Once (all_but sha256 players seed bye)
  Once-all_but bye a = ground (arith, occurs-all_but a bye)

  -- A bye of the round: nobody where the number of players is even, else one of them.
  abbrev pub IsBye : ℕ → Type 0
  IsBye bye =
      ((length players % 2 ≡ 0) × (bye ≡ usize_max))
      ⊎ ((length players % 2 ≡ 1) × (bye < length players))

  nobody_left :
      (a bye : ℕ)
      → length players ≤ usize_max
      → bye ≡ usize_max
      → occurs a (range_from 0 (length players)) ≡ occurs a (all_but sha256 players seed bye)
  nobody_left a bye small e =
      rw (occurs-all_but a bye, occurs-range_from a 0 (length players)) (ground arith)

  one_left :
      (a bye : ℕ)
      → bye < length players
      → occurs a (range_from 0 (length players)) ≡ occurs a (bye ∷ all_but sha256 players seed bye)
  unfolding occurs
  one_left a bye l =
      rw (occurs-all_but a bye, occurs-range_from a 0 (length players)) (ground arith)

  -- The bye that the fallback takes is the first of the byes, also where nobody has one.
  same_bye : (bye : ℕ) → IsBye bye → (if length players % 2 == 1 then bye else usize_max) ≡ bye
  same_bye bye (inl (even, e)) = ground arith
  same_bye bye (inr (odd, l)) = ground arith

  pub length-all_but :
      (bye : ℕ)
      → length players ≤ usize_max
      → IsBye bye
      → (length (all_but sha256 players seed bye) % 2 ≡ 0)
        × (length (all_but sha256 players seed bye) ≤ length players)
  length-all_but bye small (inl (even, e)) =
      let n = length-range_from 0 (length players) in
      let same =
        same_length (range_from 0 (length players)) (all_but sha256 players seed bye)
          (λ a. nobody_left a bye small e) in
      (omega (arith, n, same), omega (arith, n, same))
  length-all_but bye small (inr (odd, l)) =
      let n = length-range_from 0 (length players) in
      let same =
        same_length (range_from 0 (length players)) (bye ∷ all_but sha256 players seed bye)
          (λ a. one_left a bye l) in
      (omega (arith, n, same), omega (arith, n, same))

  -- The search that may repeat always finds a pairing.
  with_repeats-finds :
      (bye : ℕ)
      → length players ≤ usize_max
      → IsBye bye
      → (pairs : List (ℕ × ℕ)) × (search_pairing sha256 players seed
            (length players)
            false
            (all_but sha256 players seed bye)
          ≡ some pairs)
  with_repeats-finds bye small is_bye =
      let rest = all_but sha256 players seed bye in
      let (even, fits) = length-all_but bye small is_bye in
      search_pairing-finds sha256 players seed false (length players) rest (neighbours rest)
        (Once-all_but bye) fits
        (record {
          complete = neighbours-IsPairing rest even;
          allowed = neighbours-MayMeet (neighbours rest);
        })

  -- The byes that are considered.
  pub record IsByes (byes : List ℕ) : Type 0 where
    pub some_bye : 0 < length byes
    pub each : (bye : ℕ) → 0 < occurs bye byes → IsBye bye

  -- What the round ends with: the bye that was taken, and a pairing of the others.
  pub record IsRound (avoid : Bool) (byes : List ℕ) (result : PairingResult) : Type 0 where
    pub taken : ℕ
    pub listed : 0 < occurs taken byes
    pub bye_taken : result.bye ≡ real_bye sha256 players seed taken
    pub pairing : Pairs sha256 players seed avoid (all_but sha256 players seed taken) result.pairs

  abbrev pub finds : Bool → ℕ → Option (List (ℕ × ℕ))
  finds avoid bye =
      search_pairing sha256 players seed (length players) avoid (all_but sha256 players seed bye)

  pub first_fresh-IsRound :
      (byes : List ℕ) (result : PairingResult)
      → first_fresh sha256 players seed byes ≡ some result
      → IsRound true byes result
  unfolding first_fresh
  first_fresh-IsRound [] result h = absurd (none-some h)
  first_fresh-IsRound (bye ∷ byes) result h = elim (Option-cases (finds true bye)) [
    | inl n ↦
        let r = first_fresh-IsRound byes result (rw (n, first_fresh) at h) in
        record {
          taken = r.taken;
          listed = more_occurs r.taken bye byes r.listed;
          bye_taken = r.bye_taken;
          pairing = r.pairing;
        }
    | inr (pairs, f) ↦
        let h' : some (record { pairs = pairs; bye = real_bye sha256 players seed bye })
            ≡ some result =
          rw (f, first_fresh) at h in
        let e : record { pairs = pairs; bye = real_bye sha256 players seed bye } ≡ result = cc in
        subst (IsRound true (bye ∷ byes)) e (record {
          taken = bye;
          listed = occurs_head bye byes;
          bye_taken = refl;
          pairing =
              search_pairing-Pairs sha256 players seed (length players) true
                (all_but sha256 players seed bye) pairs (Once-all_but bye) f;
        })
  ]

  pub first_fresh-none :
      (byes : List ℕ) (bye : ℕ)
      → first_fresh sha256 players seed byes ≡ none
      → 0 < occurs bye byes
      → finds true bye ≡ none
  unfolding first_fresh
  first_fresh-none [] bye h l = absurd (occurs_nil bye l)
  first_fresh-none (b ∷ byes) bye h l = elim (Option-cases (finds true b)) [
    | inr (pairs, f) ↦ absurd (none-some (sym (rw (f, first_fresh) at h)))
    | inl n ↦ elim (Bool-cases (b == bye)) [
      | inl e ↦ subst (λ c. finds true c ≡ none) ((==_iff b bye).0 e) n
      | inr e ↦ first_fresh-none byes bye (rw (n, first_fresh) at h) (later_occurs bye b byes e l)
    ]
  ]

  pub with_repeats-IsRound :
      (byes : List ℕ)
      → length players ≤ usize_max
      → IsByes byes
      → (result : PairingResult) × (with_repeats sha256 players seed byes ≡ ok result)
        × IsRound false byes result
  unfolding with_repeats
  with_repeats-IsRound [] small b = absurd (omega (arith, b.some_bye))
  with_repeats-IsRound (bye ∷ byes) small b =
      let is_bye = b.each bye (occurs_head bye byes) in
      let (pairs, run) = with_repeats-finds bye small is_bye in
      (
        record { pairs = pairs; bye = real_bye sha256 players seed bye },
        rw (same_bye bye is_bye, run) refl,
        record {
          taken = bye;
          listed = occurs_head bye byes;
          bye_taken = refl;
          pairing =
              search_pairing-Pairs sha256 players seed (length players) false
                (all_but sha256 players seed bye) pairs (Once-all_but bye) run;
        },
      )
