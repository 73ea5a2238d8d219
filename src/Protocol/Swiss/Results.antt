-- ===== src/Protocol/Swiss/Results.antt =====
-- crates/protocol/src/lib.rs: what `pair_swiss` promises of a league round.
use tickersix.Base.{
  none-some, ℕ, ◌+◌, ◌%◌, ◌≤◌, ◌<◌, ◌≡◌, ◌∙◌, refl, sym, Bool, true, false, ◌==◌, ltb, List, [],
  ◌∷◌, ◌++◌, some, none, arith, if◌then◌else◌, length, All, occurs, inl, inr, Option-cases,
  occurs-append, ◌⊎◌,
}
use mathlib.Core.Path.{subst}
use tickersix.Outcome.{Outcome, ok}
use tickersix.Runtime.{Key, Bytes}
use tickersix.Protocol.{MathError, paired, left_over}
use tickersix.Protocol.Swiss.{
  PairingPlayer, PairingResult, usize_max, all_but, real_bye, first_fresh, with_repeats, pair_swiss,
  bye_candidates, had_no_bye, player,
}
use tickersix.Protocol.Swiss.Search.{MayMeet, Pairs}
use tickersix.Protocol.Swiss.Complete.{search_pairing-finds}
use tickersix.Protocol.Swiss.Fair.{
  IsBye, IsRound, Once-all_but, length-all_but, finds, occurs-all_but, first_fresh-IsRound,
  first_fresh-none, with_repeats-IsRound,
}
use tickersix.Protocol.Swiss.Rounds.{IsFair, bye_candidates-IsFair}

ok_same : {xs ys : List ℕ} → ◌≡◌ {A = Outcome MathError (List ℕ)} (ok xs) (ok ys) → xs ≡ ys
ok_same h = cc

-- Where there are players, the byes come first.
abbrev steps :
    (sha256 : Bytes → Key) (players : List PairingPlayer) (seed : Key)
    → List ℕ
    → Outcome MathError PairingResult
steps sha256 players seed byes = elim (first_fresh sha256 players seed byes) [
  | some result ↦ ok result
  | none ↦ with_repeats sha256 players seed byes
]

pair_swiss-steps :
    (sha256 : Bytes → Key) (players : List PairingPlayer) (seed : Key) (byes : List ℕ)
    → 0 < length players
    → bye_candidates sha256 players seed ≡ ok byes
    → pair_swiss sha256 players seed ≡ steps sha256 players seed byes
unfolding pair_swiss
pair_swiss-steps sha256 [] seed byes h e = absurd (omega arith)
pair_swiss-steps sha256 (p ∷ ps) seed byes h e = rw e refl

module _ (sha256 : Bytes → Key) (players : List PairingPlayer) (seed : Key) where
  -- How a round came about.
  record IsMade (result : PairingResult) : Type 0 where
    byes : List ℕ
    considered : bye_candidates sha256 players seed ≡ ok byes
    are_fair : IsFair sha256 players seed byes
    avoid : Bool
    round : IsRound sha256 players seed avoid byes result
    -- a repeat is allowed only where no bye leaves a pairing without one
    forced :
        avoid ≡ false → (bye : ℕ) → 0 < occurs bye byes → finds sha256 players seed true bye ≡ none

  pair_swiss-IsMade :
      0 < length players
      → length players ≤ usize_max
      → (result : PairingResult) × (pair_swiss sha256 players seed ≡ ok result) × IsMade result
  pair_swiss-IsMade some_player small =
      let (byes, run, fair) = bye_candidates-IsFair sha256 players seed some_player small in
      let start = pair_swiss-steps sha256 players seed byes some_player run in
      elim (Option-cases (first_fresh sha256 players seed byes)) [
        | inr (result, e) ↦ (
          result,
          start ∙ (rw (e, steps) refl),
          record {
            byes = byes;
            considered = run;
            are_fair = fair;
            avoid = true;
            round = first_fresh-IsRound sha256 players seed byes result e;
            forced = λ h. absurd (cc);
          },
        )
        | inl e ↦
            let (result, later, round) =
              with_repeats-IsRound sha256 players seed byes small fair.is_byes in
            (
              result,
              start ∙ (rw (e, steps) later),
              record {
                byes = byes;
                considered = run;
                are_fair = fair;
                avoid = false;
                round = round;
                forced = λ _ bye l. first_fresh-none sha256 players seed byes bye e l;
              },
            )
      ]

  taken-counts :
      (a bye n : ℕ)
      → n ≤ usize_max
      → ((n % 2 ≡ 0) × (bye ≡ usize_max)) ⊎ ((n % 2 ≡ 1) × (bye < n))
      → (if a == bye then 0 else (if ltb a n then 1 else 0))
          + occurs a (left_over (real_bye sha256 players seed bye))
        ≡ (if ltb a n then 1 else 0)
  unfolding occurs
  taken-counts a bye n small (inl (even, e)) = ground arith
  taken-counts a bye n small (inr (odd, l)) = ground arith

  real_bye-some :
      (bye b : ℕ)
      → IsBye sha256 players seed bye
      → real_bye sha256 players seed bye ≡ some b
      → (bye ≡ b) × (b < length players)
  real_bye-some bye b (inl (even, e)) h = absurd (ground arith)
  real_bye-some bye b (inr (odd, l)) h = (ground arith, ground arith)

  avoided :
      (avoid : Bool) (byes : List ℕ) (bye : ℕ) (result : PairingResult) {pairs : List (ℕ × ℕ)}
      → IsRound sha256 players seed avoid byes result
      → IsBye sha256 players seed bye
      → length players ≤ usize_max
      → Pairs sha256 players seed true (all_but sha256 players seed bye) pairs
      → (avoid ≡ false → finds sha256 players seed true bye ≡ none)
      → All (MayMeet sha256 players seed true) result.pairs
  avoided true byes bye result r b small p forced = r.pairing.allowed
  avoided false byes bye result {pairs} r b small p forced =
      let (_, fits) = length-all_but sha256 players seed bye small b in
      let (found, run) =
        search_pairing-finds sha256 players seed true (length players)
          (all_but sha256 players seed bye) pairs (Once-all_but sha256 players seed bye) fits p in
      absurd (none-some (sym (forced refl) ∙ run))

  round-covers :
      (avoid : Bool) (byes : List ℕ) (result : PairingResult)
      → length players ≤ usize_max
      → IsFair sha256 players seed byes
      → IsRound sha256 players seed avoid byes result
      → (a : ℕ)
      → occurs a (paired result.pairs ++ left_over result.bye)
        ≡ (if ltb a (length players) then 1 else 0)
  round-covers avoid byes result small fair r a =
      occurs-append a (paired result.pairs) (left_over result.bye)
      ∙ rw (r.bye_taken, r.pairing.complete a, occurs-all_but sha256 players seed a r.taken)
          (taken-counts a r.taken (length players) small (fair.is_byes.each r.taken r.listed))

  -- A League round of at least one player, and of at most `usize::MAX`, is always paired: the search
  -- ends with a pairing, in which every player is in exactly one pair or has the bye, and which names
  -- nobody else.
  pub pair_swiss-covers :
      0 < length players
      → length players ≤ usize_max
      → (result : PairingResult) × (pair_swiss sha256 players seed ≡ ok result)
        × ((a : ℕ)
            → occurs a (paired result.pairs ++ left_over result.bye)
              ≡ (if ltb a (length players) then 1 else 0))
  pair_swiss-covers some_player small =
      let (result, run, m) = pair_swiss-IsMade some_player small in
      (result, run, round-covers m.avoid m.byes result small m.are_fair m.round)

  IsMade-of :
      (result : PairingResult)
      → 0 < length players
      → length players ≤ usize_max
      → pair_swiss sha256 players seed ≡ ok result
      → IsMade result
  IsMade-of result some_player small h =
      let (result', run, m) = pair_swiss-IsMade some_player small in
      let e : result' ≡ result = cc in subst IsMade e m

  -- A round repeats a pair of opponents only where it must: if for some bye that is considered there
  -- is any pairing of the others without a repeat, no pair of the result has met before.
  pub pair_swiss-avoids :
      (result : PairingResult) (byes : List ℕ) (bye : ℕ) (pairs : List (ℕ × ℕ))
      → 0 < length players
      → length players ≤ usize_max
      → pair_swiss sha256 players seed ≡ ok result
      → bye_candidates sha256 players seed ≡ ok byes
      → 0 < occurs bye byes
      → Pairs sha256 players seed true (all_but sha256 players seed bye) pairs
      → All (MayMeet sha256 players seed true) result.pairs
  pair_swiss-avoids result byes bye pairs some_player small h c l p =
      let m = IsMade-of result some_player small h in
      let same : m.byes ≡ byes = ok_same (sym m.considered ∙ c) in
      let l' : 0 < occurs bye m.byes = subst (λ bs. 0 < occurs bye bs) (sym same) l in
      avoided m.avoid m.byes bye result m.round (m.are_fair.is_byes.each bye l') small p
        (λ e. m.forced e bye l')

  -- The bye of a round is fair: it goes to a player who had none before, where there is one, and then
  -- to one with the lowest points, where one of those had none.
  pub pair_swiss-bye :
      (result : PairingResult) (b i : ℕ)
      → length players ≤ usize_max
      → pair_swiss sha256 players seed ≡ ok result
      → result.bye ≡ some b
      → i < length players
      → had_no_bye sha256 players seed i ≡ true
      → (b < length players)
        × (had_no_bye sha256 players seed b ≡ true)
        × (((j : ℕ)
              → j < length players
              → (player sha256 players seed i).league_points
                ≤ (player sha256 players seed j).league_points)
            → (player sha256 players seed b).league_points
              ≡ (player sha256 players seed i).league_points)
  pair_swiss-bye result b i small h e l n =
      let m = IsMade-of result (omega arith) small h in
      let (same, within) =
        real_bye-some m.round.taken b (m.are_fair.is_byes.each m.round.taken m.round.listed)
          (sym m.round.bye_taken ∙ e) in
      let listed : 0 < occurs b m.byes = subst (λ c. 0 < occurs c m.byes) same m.round.listed in
      let (first, lowest) = m.are_fair.fair b i listed within l n in (within, first, lowest)
