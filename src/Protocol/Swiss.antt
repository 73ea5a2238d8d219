-- ===== src/Protocol/Swiss.antt =====
-- crates/protocol/src/lib.rs: `pair_swiss`, the pairing of a league round.
pub mod Counts
pub mod Search
pub mod Complete
pub mod Fair
pub mod Bye
pub mod Rounds
pub mod Results
use tickersix.Base.{
  ℕ, zero, suc, ◌+◌, ◌-◌, ◌%◌, Bool, true, false, not, ◌&&◌, ◌||◌, ◌==◌, ltb, leb, List, [], ◌∷◌,
  ◌++◌, Option, some, none, if◌then◌else◌, contains, get_or, length, map, filter, sort_by,
  range_from,
}
use tickersix.Base.Int.{ℤ, pos, ◌-ℤ◌}
use tickersix.Constants.{codes}
use tickersix.Outcome.{Outcome, ok, err, ok_or, ◌>>=◌}
use tickersix.Runtime.{Key, Bytes, key_bytes}
use tickersix.Protocol.{MathError, from_le_bytes}
use tickersix.Protocol.Ranked.{unsigned_abs}

pub record PairingPlayer : Type 0 where
  pub wallet : Key
  pub league_points : ℕ
  pub rating : ℤ
  pub bye_count : ℕ
  pub prior_opponents : List Key

pub record PairingResult : Type 0 where
  pub pairs : List (ℕ × ℕ)
  pub bye : Option ℕ

-- `usize::MAX`.
abbrev pub usize_max : ℕ
usize_max = 18446744073709551615

unfoldable pub has_met : PairingPlayer → PairingPlayer → Bool
unfolding contains
has_met player opponent =
    contains player.prior_opponents opponent.wallet
    || contains opponent.prior_opponents player.wallet

unfoldable pub pair_wallet_key : Key → Key → Bytes
unfolding key_bytes
pair_wallet_key left right =
    if leb left right then key_bytes left ++ key_bytes right else key_bytes right ++ key_bytes left

-- `&digest[..8]`.
unfoldable pub take : ℕ → Bytes → Bytes
take zero bs = []
take (suc n) [] = []
take (suc n) (b ∷ bs) = b ∷ take n bs

unfoldable pub abs_diff : ℕ → ℕ → ℕ
abs_diff a b = (a - b) + (b - a)

-- The order of pairs of indexes.
unfoldable pub pair_lt : ℕ × ℕ → ℕ × ℕ → Bool
pair_lt (a, b) (c, d) = ltb a c || (a == c && ltb b d)

abbrev pub ordered : ℕ → ℕ → ℕ × ℕ
ordered a b = if ltb a b then (a, b) else (b, a)

abbrev pub without : ℕ → ℕ → List ℕ → List ℕ
without a b = filter λ index. not (index == a) && not (index == b)

-- What an index beyond the players, which is never asked for, stands for.
abbrev pub no_player : PairingPlayer
no_player = record {
  wallet = 0;
  league_points = 0;
  rating = pos 0;
  bye_count = 0;
  prior_opponents = [];
}

abbrev pub first_non_empty : List ℕ → List ℕ → List ℕ
first_non_empty [] ys = ys
first_non_empty (x ∷ xs) ys = x ∷ xs

-- `iter().min()` of the league points.
unfoldable pub lowest_from : ℕ → List PairingPlayer → ℕ
lowest_from lowest [] = lowest
lowest_from lowest (p ∷ ps) =
    lowest_from (if ltb p.league_points lowest then p.league_points else lowest) ps

-- The hash is a parameter.
module _ (sha256 : Bytes → Key) where
  unfoldable pub tie_break_key : Key → Bytes → ℕ
  unfolding from_le_bytes key_bytes take
  tie_break_key seed value =
      from_le_bytes (
        take 8 (key_bytes (sha256 (codes "TICKERSIX_PAIRING_V1" ++ (0 ∷ key_bytes seed ++ value)))))

  module _ (players : List PairingPlayer) (seed : Key) where
    -- `players[index]`; the indexes are those of the players.
    unfoldable pub player : ℕ → PairingPlayer
    player index = get_or players index no_player

    unfoldable pub met : ℕ → ℕ → Bool
    unfolding has_met player
    met a b = has_met (player a) (player b)

    -- The order of the keys `(Reverse(league_points), tie_break_key)`.
    unfoldable pub leader_lt : ℕ → ℕ → Bool
    unfolding player tie_break_key key_bytes
    leader_lt a b =
        ltb (player b).league_points (player a).league_points
        || ((player a).league_points == (player b).league_points
            && ltb (tie_break_key seed (key_bytes (player a).wallet))
                (tie_break_key seed (key_bytes (player b).wallet)))

    unfoldable pub points_gap : ℕ → ℕ → ℕ
    unfolding player abs_diff
    points_gap a b = abs_diff (player a).league_points (player b).league_points

    unfoldable pub swiss_rating_gap : ℕ → ℕ → ℕ
    unfolding player unsigned_abs ◌-ℤ◌
    swiss_rating_gap a b = unsigned_abs ((player a).rating -ℤ (player b).rating)

    unfoldable pub pair_key : ℕ → ℕ → ℕ
    unfolding player tie_break_key pair_wallet_key
    pair_key a b = tie_break_key seed (pair_wallet_key (player a).wallet (player b).wallet)

    -- The order of the keys `(met, gap of points, gap of ratings, tie_break_key)`.
    unfoldable pub opponent_lt : Bool → ℕ → ℕ → ℕ → Bool
    unfolding met points_gap swiss_rating_gap pair_key
    opponent_lt avoid first a b =
        let p = avoid && met first a in
        let q = avoid && met first b in
        (not p && q)
        || (p && q || not (p || q))
          && (ltb (points_gap first a) (points_gap first b)
              || (points_gap first a == points_gap first b
                  && (ltb (swiss_rating_gap first a) (swiss_rating_gap first b)
                      || (swiss_rating_gap first a == swiss_rating_gap first b
                          && ltb (pair_key first a) (pair_key first b)))))

    -- `min_by_key`: the first of the least.
    unfoldable pub leader_from : ℕ → List ℕ → ℕ
    unfolding leader_lt
    leader_from best [] = best
    leader_from best (x ∷ xs) = leader_from (if leader_lt x best then x else best) xs

    -- The loop over the candidates; `search` is the recursive call.
    unfoldable pub try_candidates :
        (List ℕ → Option (List (ℕ × ℕ))) → Bool → ℕ → List ℕ → List ℕ → Option (List (ℕ × ℕ))
    unfolding met sort_by filter pair_lt
    try_candidates search avoid first remaining [] = none
    try_candidates search avoid first remaining (candidate ∷ candidates) =
        let later = try_candidates search avoid first remaining candidates in
        if avoid && met first candidate
        then later
        else elim (search (without first candidate remaining)) [
          | some pairs ↦ some (sort_by pair_lt (pairs ++ ordered first candidate ∷ []))
          | none ↦ later
        ]

    -- Each call has two players fewer than the one before; `depth` counts the calls.
    unfoldable pub search_pairing : ℕ → Bool → List ℕ → Option (List (ℕ × ℕ))
    unfolding try_candidates leader_from sort_by filter opponent_lt
    search_pairing depth avoid [] = some []
    search_pairing zero avoid (x ∷ xs) = none
    search_pairing (suc depth) avoid (x ∷ xs) =
        if length (x ∷ xs) % 2 == 1
        then none
        else (let first = leader_from x xs in
            try_candidates (search_pairing depth avoid) avoid first (x ∷ xs)
              (sort_by (opponent_lt avoid first) (filter (λ index. not (index == first)) (x ∷ xs))))

    unfoldable pub lowest_points : Outcome MathError ℕ
    unfolding lowest_from
    lowest_points = elim players [
      | [] ↦ err MathError.empty_observation_set
      | p ∷ ps ↦ ok (lowest_from p.league_points ps)
    ]

    -- The order of the keys `(league_points, tie_break_key)`.
    unfoldable pub bye_lt : ℕ → ℕ → Bool
    unfolding player tie_break_key key_bytes
    bye_lt a b =
        ltb (player a).league_points (player b).league_points
        || ((player a).league_points == (player b).league_points
            && ltb (tie_break_key seed (key_bytes (player a).wallet))
                (tie_break_key seed (key_bytes (player b).wallet)))

    unfoldable pub had_no_bye : ℕ → Bool
    unfolding player
    had_no_bye index = (player index).bye_count == 0

    -- The lowest group without a bye, else everybody without a bye, else everybody.
    unfoldable pub bye_group : ℕ → List ℕ → List ℕ
    unfolding had_no_bye filter player
    bye_group lowest candidates =
        first_non_empty
          (filter (λ i. (player i).league_points == lowest && had_no_bye i) candidates)
          (first_non_empty (filter had_no_bye candidates) candidates)

    unfoldable pub bye_candidates : Outcome MathError (List ℕ)
    unfolding lowest_points bye_group sort_by bye_lt range_from
    bye_candidates =
        if length players % 2 == 1
        then (lowest_points >>= λ lowest.
            ok (sort_by bye_lt (bye_group lowest (range_from 0 (length players)))))
        else ok (usize_max ∷ [])

    unfoldable pub all_but : ℕ → List ℕ
    unfolding filter range_from
    all_but bye = filter (λ index. not (index == bye)) (range_from 0 (length players))

    abbrev pub real_bye : ℕ → Option ℕ
    real_bye bye = if bye == usize_max then none else some bye

    -- The loop over the byes, which looks for a pairing without repeats.
    unfoldable pub first_fresh : List ℕ → Option PairingResult
    unfolding search_pairing all_but
    first_fresh [] = none
    first_fresh (bye ∷ byes) = elim (search_pairing (length players) true (all_but bye)) [
      | some pairs ↦ some (record { pairs = pairs; bye = real_bye bye })
      | none ↦ first_fresh byes
    ]

    abbrev pub first_or_max : List ℕ → ℕ
    first_or_max [] = usize_max
    first_or_max (x ∷ xs) = x

    -- Where every pairing repeats one, a pairing that may repeat.
    unfoldable pub with_repeats : List ℕ → Outcome MathError PairingResult
    unfolding search_pairing all_but
    with_repeats byes =
        let bye = if length players % 2 == 1 then first_or_max byes else usize_max in
        ok_or (search_pairing (length players) false (all_but bye)) MathError.no_compatible_quorum
        >>= λ pairs. ok (record { pairs = pairs; bye = real_bye bye })

    unfoldable pub pair_swiss : Outcome MathError PairingResult
    unfolding bye_candidates first_fresh with_repeats
    pair_swiss = elim players [
      | [] ↦ ok (record { pairs = []; bye = none })
      | p ∷ ps ↦ bye_candidates >>= λ byes. elim (first_fresh byes) [
        | some result ↦ ok result
        | none ↦ with_repeats byes
      ]
    ]
