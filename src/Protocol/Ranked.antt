-- ===== src/Protocol/Ranked.antt =====
-- crates/protocol/src/lib.rs: `pair_ranked`, the greedy matcher of the ranked queue.
pub mod Least
pub mod Greedy
use tickersix.Base.{
  ℕ, zero, suc, ◌+◌, Bool, true, false, not, ◌&&◌, ◌||◌, ◌==◌, ltb, leb, List, [], ◌∷◌, ◌++◌,
  Option, some, none, if◌then◌else◌, contains, get_or, length, range_from,
}
use tickersix.Base.Int.{ℤ, pos, pos_part, neg_part, ◌-ℤ◌, eqb_ℤ, ltb_ℤ}
use tickersix.Runtime.{Key}

pub record RankedPlayer : Type 0 where
  pub wallet : Key
  pub rating : ℤ
  pub recent_opponents : List Key

pub record RankedPairingResult : Type 0 where
  pub pairs : List (ℕ × ℕ)
  pub unmatched : Option ℕ

-- `i64::unsigned_abs`.
unfoldable pub unsigned_abs : ℤ → ℕ
unsigned_abs a = pos_part a + neg_part a

module _ (players : List RankedPlayer) where
  -- `players[index]`; the indexes are those of the players.
  unfoldable pub ranked_player : ℕ → RankedPlayer
  ranked_player index =
      get_or players index (record { wallet = 0; rating = pos 0; recent_opponents = [] })

  -- The order of the keys `(rating, wallet)`.
  unfoldable pub seed_lt : ℕ → ℕ → Bool
  unfolding ranked_player ltb_ℤ eqb_ℤ
  seed_lt a b =
      let x = ranked_player a in
      let y = ranked_player b in
      ltb_ℤ x.rating y.rating || (eqb_ℤ x.rating y.rating && ltb x.wallet y.wallet)

  unfoldable pub is_rematch : ℕ → ℕ → Bool
  unfolding ranked_player contains
  is_rematch a b =
      let x = ranked_player a in
      let y = ranked_player b in
      contains x.recent_opponents y.wallet || contains y.recent_opponents x.wallet

  unfoldable pub rating_gap : ℕ → ℕ → ℕ
  unfolding ranked_player unsigned_abs ◌-ℤ◌
  rating_gap a b = unsigned_abs ((ranked_player a).rating -ℤ (ranked_player b).rating)

  -- The order of the keys `(rematch, gap, rating, wallet)` of the candidates for `first`.
  unfoldable pub candidate_lt : ℕ → ℕ → ℕ → Bool
  unfolding is_rematch rating_gap seed_lt
  candidate_lt first a b =
      (not (is_rematch first a) && is_rematch first b)
      || (is_rematch first a && is_rematch first b
          || not (is_rematch first a || is_rematch first b))
        && (ltb (rating_gap first a) (rating_gap first b)
            || (rating_gap first a == rating_gap first b && seed_lt a b))

-- `enumerate().min_by_key(...)`: the position of the first least element, from `position` on.
unfoldable pub min_position : (ℕ → ℕ → Bool) → ℕ → ℕ → ℕ → List ℕ → ℕ
min_position lt best best_position position [] = best_position
min_position lt best best_position position (x ∷ xs) =
    min_position lt (if lt x best then x else best) (if lt x best then position else best_position)
      (suc position) xs

unfoldable pub min_position_of : (ℕ → ℕ → Bool) → List ℕ → ℕ
unfolding min_position
min_position_of lt [] = 0
min_position_of lt (x ∷ xs) = min_position lt x 0 1 xs

-- `Vec::remove`: the element at a position, and the others.
unfoldable pub removed : ℕ → List ℕ → List ℕ
removed i [] = []
removed zero (x ∷ xs) = xs
removed (suc i) (x ∷ xs) = x ∷ removed i xs

module _ (players : List RankedPlayer) where
  unfoldable pub wallet_pair : ℕ → ℕ → ℕ × ℕ
  unfolding ranked_player
  wallet_pair first second =
      if leb (ranked_player players first).wallet (ranked_player players second).wallet
      then (first, second)
      else (second, first)

  -- The loop while two players remain. `none` is a loop that has run out of rounds.
  unfoldable pub ranked_loop : ℕ → List ℕ → List (ℕ × ℕ) → Option RankedPairingResult
  unfolding min_position_of seed_lt candidate_lt removed wallet_pair
  ranked_loop rounds [] pairs = some (record { pairs = pairs; unmatched = none })
  ranked_loop rounds (a ∷ []) pairs = some (record { pairs = pairs; unmatched = some a })
  ranked_loop zero (a ∷ b ∷ rest) pairs = none
  ranked_loop (suc rounds) (a ∷ b ∷ rest) pairs =
      let remaining = a ∷ b ∷ rest in
      let first_position = min_position_of (seed_lt players) remaining in
      let first = get_or remaining first_position 0 in
      let remaining' = removed first_position remaining in
      let candidate_position = min_position_of (candidate_lt players first) remaining' in
      let second = get_or remaining' candidate_position 0 in
      ranked_loop rounds (removed candidate_position remaining')
        (pairs ++ wallet_pair first second ∷ [])

  unfoldable pub pair_ranked : Option RankedPairingResult
  unfolding ranked_loop range_from
  pair_ranked = ranked_loop (length players) (range_from 0 (length players)) []
