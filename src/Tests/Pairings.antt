-- ===== src/Tests/Pairings.antt =====
-- Runs of the pairing of players of crates/protocol/src/lib.rs.
use tickersix.Base.{
  ℕ, ◌+◌, ◌<◌, ◌≤◌, ◌≡◌, refl, true, ltb, List, [], ◌∷◌, ◌++◌, some, arith, All, occurs,
  if◌then◌else◌, range_from,
}
use tickersix.Base.Int.{pos}
use tickersix.Outcome.{ok}
use tickersix.Runtime.{Key, Bytes}
use tickersix.Protocol.{paired, left_over}
use tickersix.Protocol.Ranked.{RankedPlayer, RankedPairingResult, pair_ranked}
use tickersix.Protocol.Ranked.Greedy.{IsGreedy, pair_ranked-IsGreedy, pair_ranked-covers}
use tickersix.Protocol.Swiss.{
  PairingPlayer, PairingResult, pair_swiss, bye_candidates, had_no_bye, player, all_but, met,
}
use tickersix.Protocol.Swiss.Search.{MayMeet, Pairs}
use tickersix.Protocol.Swiss.Results.{pair_swiss-covers, pair_swiss-avoids, pair_swiss-bye}

-- A stand-in for the hash: the sum of the bytes.
unfoldable sum_bytes : Bytes → Key
sum_bytes [] = 0
sum_bytes (b ∷ bs) = b + sum_bytes bs

abbrev ranked : Key → ℕ → List Key → RankedPlayer
ranked wallet rating recent = record {
  wallet = wallet;
  rating = pos rating;
  recent_opponents = recent;
}

abbrev queue : List RankedPlayer
queue = ranked 7 1500 (5 ∷ []) ∷ ranked 5 1490 [] ∷ ranked 3 1600 [] ∷ []

-- The two nearest have met lately, so the lowest is paired with the third.
queue-paired : pair_ranked queue ≡ some (record { pairs = (2, 1) ∷ []; unmatched = some 0 })
unfolding pair_ranked
queue-paired = refl

pair_ranked-IsGreedy_example :
    (result : RankedPairingResult) × (pair_ranked queue ≡ some result)
    × IsGreedy queue (range_from 0 3) result.pairs result.unmatched
pair_ranked-IsGreedy_example = pair_ranked-IsGreedy queue

pair_ranked-covers_example :
    (result : RankedPairingResult) × (pair_ranked queue ≡ some result)
    × ((a : ℕ)
        → occurs a (paired result.pairs ++ left_over result.unmatched) ≡ (if ltb a 3 then 1 else 0))
pair_ranked-covers_example = pair_ranked-covers queue

abbrev entrant : Key → ℕ → ℕ → List Key → PairingPlayer
entrant wallet points byes opponents = record {
  wallet = wallet;
  league_points = points;
  rating = pos 1500;
  bye_count = byes;
  prior_opponents = opponents;
}

-- The last two have the lowest points, and the very last had a bye.
abbrev table : List PairingPlayer
table =
    entrant 10 6 0 (11 ∷ [])
    ∷ entrant 11 6 0 (10 ∷ [])
    ∷ entrant 12 3 0 []
    ∷ entrant 13 0 0 []
    ∷ entrant 14 0 1 []
    ∷ []

abbrev fourth_rests : PairingResult
fourth_rests = record { pairs = (0, 2) ∷ (1, 4) ∷ []; bye = some 3 }

table-paired : pair_swiss sum_bytes table 9 ≡ ok fourth_rests
unfolding pair_swiss sum_bytes
table-paired = refl

pair_swiss-covers_example :
    (result : PairingResult) × (pair_swiss sum_bytes table 9 ≡ ok result)
    × ((a : ℕ)
        → occurs a (paired result.pairs ++ left_over result.bye) ≡ (if ltb a 5 then 1 else 0))
pair_swiss-covers_example = pair_swiss-covers sum_bytes table 9 (omega arith) (omega arith)

table-byes : bye_candidates sum_bytes table 9 ≡ ok (3 ∷ [])
unfolding bye_candidates
table-byes = refl

crossed : Pairs sum_bytes table 9 true (all_but sum_bytes table 9 3) ((0, 4) ∷ (1, 2) ∷ [])
unfolding occurs paired all_but range_from met sum_bytes
crossed = record { complete = λ a. ground arith; allowed = (refl, (refl, tt)) }

third-listed : 0 < occurs 3 (3 ∷ [])
unfolding occurs
third-listed = omega arith

pair_swiss-avoids_example : All (MayMeet sum_bytes table 9 true) fourth_rests.pairs
pair_swiss-avoids_example =
    pair_swiss-avoids sum_bytes table 9 fourth_rests (3 ∷ []) 3 ((0, 4) ∷ (1, 2) ∷ []) (omega arith)
      (omega arith) table-paired table-byes third-listed crossed

third-free : had_no_bye sum_bytes table 9 3 ≡ true
unfolding had_no_bye
third-free = refl

pair_swiss-bye_example :
    (3 < 5)
    × (had_no_bye sum_bytes table 9 3 ≡ true)
    × (((j : ℕ)
          → j < 5
          → (player sum_bytes table 9 3).league_points ≤ (player sum_bytes table 9 j).league_points)
        → (player sum_bytes table 9 3).league_points ≡ (player sum_bytes table 9 3).league_points)
pair_swiss-bye_example =
    pair_swiss-bye sum_bytes table 9 fourth_rests 3 3 (omega arith) table-paired refl (omega arith)
      third-free
