-- ===== src/Protocol/Ranked/Greedy.antt =====
-- crates/protocol/src/lib.rs: the pairs that `pair_ranked` makes.
use tickersix.Base.{
  ℕ, zero, suc, ◌≤◌, ◌<◌, ◌≡◌, refl, Bool, true, false, not, ◌&&◌, ◌||◌, ◌==◌, ltb, List, [], ◌∷◌,
  ◌++◌, Option, some, none, arith, if◌then◌else◌, get_or, length, occurs, range_from,
  occurs-range_from, occurs-append, length-range_from, sym, ◌∙◌,
}
use mathlib.Core.Path.{subst}
use mathlib.Core.List.{append_assoc, append-nil}
use tickersix.Base.Int.{ltb_ℤ, eqb_ℤ}
use tickersix.Protocol.{paired, left_over}
use tickersix.Protocol.Ranked.{
  RankedPlayer, RankedPairingResult, seed_lt, is_rematch, rating_gap, candidate_lt, min_position_of,
  removed, wallet_pair, ranked_loop, pair_ranked,
}
use tickersix.Protocol.Ranked.Least.{
  IsLeast, IsStrict, min_position_of-IsLeast, min_position_of-lt, occurs-removed, length-removed,
}

-- `a` is a first element of the list by the order, and `ys` are the others.
pub record Draw (lt : ℕ → ℕ → Bool) (a : ℕ) (xs ys : List ℕ) : Type 0 where
  pub least : IsLeast lt a xs
  pub others : (b : ℕ) → occurs b xs ≡ (if a == b then suc (occurs b ys) else occurs b ys)

Draw-min :
    (lt : ℕ → ℕ → Bool) (xs : List ℕ)
    → IsStrict lt
    → 0 < length xs
    → Draw lt (get_or xs (min_position_of lt xs) 0) xs (removed (min_position_of lt xs) xs)
Draw-min lt [] strict h = absurd (omega arith)
Draw-min lt (x ∷ xs) strict h = record {
  least = min_position_of-IsLeast lt strict x xs;
  others =
      λ b. occurs-removed b (min_position_of lt (x ∷ xs)) (x ∷ xs) (min_position_of-lt lt x xs);
}

length-drawn :
    (lt : ℕ → ℕ → Bool) (xs : List ℕ)
    → 0 < length xs
    → length xs ≡ suc (length (removed (min_position_of lt xs) xs))
length-drawn lt [] h = absurd (omega arith)
length-drawn lt (x ∷ xs) h =
    length-removed (min_position_of lt (x ∷ xs)) (x ∷ xs) (min_position_of-lt lt x xs)

-- The order of the candidates' keys: a rematch, then the gap, then the order `s`.
abbrev key_lt : Bool → Bool → ℕ → ℕ → Bool → Bool
key_lt ra rb ga gb s =
    (not ra && rb) || (ra && rb || not (ra || rb)) && (ltb ga gb || (ga == gb && s))

key_trans :
    (ra rb rc : Bool) (ga gb gc : ℕ) (sab sbc sac : Bool)
    → (sab ≡ true → sbc ≡ true → sac ≡ true)
    → key_lt ra rb ga gb sab ≡ true
    → key_lt rb rc gb gc sbc ≡ true
    → key_lt ra rc ga gc sac ≡ true
key_trans true true true ga gb gc sab sbc sac s h k = ground arith
key_trans true true false ga gb gc sab sbc sac s h k = ground arith
key_trans true false rc ga gb gc sab sbc sac s h k = ground arith
key_trans false true true ga gb gc sab sbc sac s h k = ground arith
key_trans false true false ga gb gc sab sbc sac s h k = ground arith
key_trans false false true ga gb gc sab sbc sac s h k = ground arith
key_trans false false false ga gb gc sab sbc sac s h k = ground arith

module _ (players : List RankedPlayer) where
  -- The lowest rated of the remaining players is paired with its best candidate, and so on: the
  -- greedy policy, as a relation between the remaining players and the result.
  pub data IsGreedy : List ℕ → List (ℕ × ℕ) → Option ℕ → Type 0 where
    nobody : IsGreedy [] [] none
    alone : (a : ℕ) → IsGreedy (a ∷ []) [] (some a)
    pick :
        (first second : ℕ) {xs ys zs : List ℕ} {pairs : List (ℕ × ℕ)} {unmatched : Option ℕ}
        → Draw (seed_lt players) first xs ys
        → Draw (candidate_lt players first) second ys zs
        → IsGreedy zs pairs unmatched
        → IsGreedy xs (wallet_pair players first second ∷ pairs) unmatched

  seed_lt-IsStrict : IsStrict (seed_lt players)
  unfolding seed_lt ltb_ℤ eqb_ℤ
  seed_lt-IsStrict = record { irrefl = λ a. ground arith; trans = λ a b c h k. ground arith }

  candidate_lt-IsStrict : (first : ℕ) → IsStrict (candidate_lt players first)
  unfolding candidate_lt
  candidate_lt-IsStrict first = record {
    irrefl = λ a. ground (arith, seed_lt-IsStrict.irrefl a);
    trans = λ a b c h k.
        let f = first in
        key_trans (is_rematch players f a) (is_rematch players f b) (is_rematch players f c)
          (rating_gap players f a) (rating_gap players f b) (rating_gap players f c)
          (seed_lt players a b) (seed_lt players b c) (seed_lt players a c)
          (seed_lt-IsStrict.trans a b c) h k;
  }

  -- What a loop with enough rounds returns: the pairs so far, then the greedy pairs of the rest.
  record Greedily (pairs : List (ℕ × ℕ)) (remaining : List ℕ) (result : RankedPairingResult)
      : Type 0 where
    later : List (ℕ × ℕ)
    appended : result.pairs ≡ pairs ++ later
    greedy : IsGreedy remaining later result.unmatched

  ranked_loop-Greedily :
      (rounds : ℕ) (remaining : List ℕ) (pairs : List (ℕ × ℕ))
      → length remaining ≤ suc rounds
      → (result : RankedPairingResult) × (ranked_loop players rounds remaining pairs ≡ some result)
        × Greedily pairs remaining result
  unfolding ranked_loop
  ranked_loop-Greedily rounds [] pairs h =
      (_, refl, record { later = []; appended = sym (append-nil pairs); greedy = nobody })
  ranked_loop-Greedily rounds (a ∷ []) pairs h =
      (_, refl, record { later = []; appended = sym (append-nil pairs); greedy = alone a })
  ranked_loop-Greedily zero (a ∷ b ∷ rest) pairs h = absurd (omega arith)
  ranked_loop-Greedily (suc rounds) (a ∷ b ∷ rest) pairs h =
      let remaining : List ℕ = a ∷ b ∷ rest in
      let position = min_position_of (seed_lt players) remaining in
      let first = get_or remaining position 0 in
      let others = removed position remaining in
      let position' = min_position_of (candidate_lt players first) others in
      let second = get_or others position' 0 in
      let fewer = length-drawn (seed_lt players) remaining (omega arith) in
      let still : 0 < length others = omega (arith, fewer) in
      let fewest = length-drawn (candidate_lt players first) others still in
      let pair = wallet_pair players first second in
      let (result, run, g) =
        ranked_loop-Greedily rounds (removed position' others) (pairs ++ pair ∷ [])
          (omega (arith, fewer, fewest)) in
      (
        result,
        run,
        record {
          later = pair ∷ g.later;
          appended = g.appended ∙ append_assoc pairs (pair ∷ []) g.later;
          greedy =
              pick first second
                (Draw-min (seed_lt players) remaining seed_lt-IsStrict (omega arith))
                (Draw-min (candidate_lt players first) others (candidate_lt-IsStrict first) still)
                g.greedy;
        },
      )

  -- The matcher ends within its rounds, and its result is the greedy pairing of all players: at each
  -- step the lowest rated player left, by rating and then by wallet, is paired with the player left
  -- that comes first by rematch, gap, rating and wallet, until fewer than two are left.
  pub pair_ranked-IsGreedy :
      (result : RankedPairingResult) × (pair_ranked players ≡ some result)
      × IsGreedy (range_from 0 (length players)) result.pairs result.unmatched
  unfolding pair_ranked
  pair_ranked-IsGreedy =
      let (result, run, g) =
        ranked_loop-Greedily (length players) (range_from 0 (length players)) []
          (omega (arith, length-range_from 0 (length players))) in
      (
        result,
        run,
        subst (λ ps. IsGreedy (range_from 0 (length players)) ps result.unmatched) (sym g.appended)
            g.greedy,
      )

  occurs-wallet_pair :
      (first second a : ℕ) (pairs : List (ℕ × ℕ))
      → occurs a (paired (wallet_pair players first second ∷ pairs))
        ≡ occurs a (first ∷ second ∷ paired pairs)
  unfolding wallet_pair paired occurs
  occurs-wallet_pair first second a pairs = ground arith

  IsGreedy-covers :
      {xs : List ℕ} {pairs : List (ℕ × ℕ)} {unmatched : Option ℕ}
      → IsGreedy xs pairs unmatched
      → (a : ℕ) → occurs a (paired pairs ++ left_over unmatched) ≡ occurs a xs
  unfolding paired occurs
  IsGreedy-covers nobody a = refl
  IsGreedy-covers (alone b) a = refl
  IsGreedy-covers (pick first second {xs} {ys} {zs} {pairs} {unmatched} d e g) a = ground (
    arith,
    occurs-append a (paired (wallet_pair players first second ∷ pairs)) (left_over unmatched),
    occurs-append a (paired pairs) (left_over unmatched),
    occurs-wallet_pair first second a pairs,
    d.others a,
    e.others a,
    IsGreedy-covers g a,
  )

  -- The matcher ends within its rounds, and every player is in exactly one pair, or is the one that is
  -- left over; no pair names anybody else.
  pub pair_ranked-covers :
      (result : RankedPairingResult) × (pair_ranked players ≡ some result)
      × ((a : ℕ)
          → occurs a (paired result.pairs ++ left_over result.unmatched)
            ≡ (if ltb a (length players) then 1 else 0))
  pair_ranked-covers =
      let (result, run, g) = pair_ranked-IsGreedy in
      (
        result,
        run,
        λ a. IsGreedy-covers g a ∙ (rw (occurs-range_from a 0 (length players)) (ground arith)),
      )
