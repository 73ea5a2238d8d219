-- ===== src/Protocol/Swiss/Rounds.antt =====
-- crates/protocol/src/lib.rs: the round that `pair_swiss` makes.
use tickersix.Base.{
  ℕ, zero, suc, ◌%◌, ◌≤◌, ◌<◌, ◌≡◌, ◌∙◌, refl, sym, true, ◌==◌, List, [], ◌∷◌, arith, length,
  occurs, inl, inr, get_or, Bool-cases, range_from, occurs-range_from, occurs-sort_by,
  length-range_from, sort_by,
}
use tickersix.Outcome.{ok}
use tickersix.Runtime.{Key, Bytes}
use tickersix.Protocol.Swiss.{
  PairingPlayer, usize_max, bye_lt, bye_candidates, bye_group, lowest_points, lowest_from,
  had_no_bye, player, no_player,
}
use tickersix.Protocol.Swiss.Fair.{IsByes}
use tickersix.Protocol.Swiss.Bye.{
  lowest_from-le, lowest_from-member, length-sort_by, length-group, group-member, group-fair,
}

-- The lowest league points, which some player has.
record IsLowest (sha256 : Bytes → Key) (players : List PairingPlayer) (seed : Key) (lowest : ℕ)
    : Type 0 where
  below : (i : ℕ) → i < length players → lowest ≤ (player sha256 players seed i).league_points
  reached : (i : ℕ) × (i < length players) × ((player sha256 players seed i).league_points ≡ lowest)

lowest_below :
    (p : PairingPlayer) (ps : List PairingPlayer) (i : ℕ)
    → i < suc (length ps)
    → lowest_from p.league_points ps ≤ (get_or (p ∷ ps) i no_player).league_points
lowest_below p ps zero h = (lowest_from-le p.league_points 0 ps no_player).0
lowest_below p ps (suc i) h = (lowest_from-le p.league_points i ps no_player).1 (omega arith)

only_max : (b : ℕ) → 0 < occurs b (usize_max ∷ []) → b ≡ usize_max
unfolding occurs
only_max b h = ground arith

lowest_points-IsLowest :
    (sha256 : Bytes → Key) (players : List PairingPlayer) (seed : Key)
    → 0 < length players
    → (lowest : ℕ) × (lowest_points sha256 players seed ≡ ok lowest)
      × IsLowest sha256 players seed lowest
unfolding lowest_points player
lowest_points-IsLowest sha256 [] seed h = absurd (omega arith)
lowest_points-IsLowest sha256 (p ∷ ps) seed h = (
  lowest_from p.league_points ps,
  refl,
  record {
    below = λ i l. lowest_below p ps i l;
    reached = elim (lowest_from-member p.league_points ps no_player) [
      | inl e ↦ (0, omega arith, sym e)
      | inr (i, l, e) ↦ (suc i, omega (arith, l), e)
    ];
  },
)

in_range : (b n : ℕ) → 0 < occurs b (range_from 0 n) → b < n
in_range b n h = ground (arith, occurs-range_from b 0 n)

range_has : (b n : ℕ) → b < n → 0 < occurs b (range_from 0 n)
range_has b n h = ground (arith, occurs-range_from b 0 n)

lowest_same :
    (sha256 : Bytes → Key) (players : List PairingPlayer) (seed : Key) (lowest i : ℕ)
    → IsLowest sha256 players seed lowest
    → i < length players
    → ((j : ℕ)
        → j < length players
        → (player sha256 players seed i).league_points
          ≤ (player sha256 players seed j).league_points)
    → (player sha256 players seed i).league_points ≡ lowest
lowest_same sha256 players seed lowest i l k least =
    let (j, m, e) = l.reached in omega (arith, l.below i k, least j m, e)

module _ (sha256 : Bytes → Key) (players : List PairingPlayer) (seed : Key) where
  -- The byes that are considered, and that they are fair.
  pub record IsFair (byes : List ℕ) : Type 0 where
    pub is_byes : IsByes sha256 players seed byes
    pub fair :
        (b i : ℕ)
        → 0 < occurs b byes
        → b < length players
        → i < length players
        → had_no_bye sha256 players seed i ≡ true
        → (had_no_bye sha256 players seed b ≡ true)
          × (((j : ℕ)
                → j < length players
                → (player sha256 players seed i).league_points
                  ≤ (player sha256 players seed j).league_points)
              → (player sha256 players seed b).league_points
                ≡ (player sha256 players seed i).league_points)

  pub bye_candidates-IsFair :
      0 < length players
      → length players ≤ usize_max
      → (byes : List ℕ) × (bye_candidates sha256 players seed ≡ ok byes) × IsFair byes
  unfolding bye_candidates
  bye_candidates-IsFair some_player small = elim (Bool-cases (length players % 2 == 1)) [
    | inr even ↦ (
      usize_max ∷ [],
      rw even refl,
      record {
        is_byes = record { some_bye = omega arith; each = λ b l. inl (ground arith, only_max b l) };
        fair = λ b i l m _ _. absurd (ground (arith, only_max b l));
      },
    )
    | inl odd ↦
        let (lowest, run, is_lowest) = lowest_points-IsLowest sha256 players seed some_player in
        let everybody = range_from 0 (length players) in
        let group = bye_group sha256 players seed lowest everybody in
        let member : (b : ℕ)
            → 0 < occurs b (sort_by (bye_lt sha256 players seed) group)
            → 0 < occurs b group =
          λ b l. omega (arith, occurs-sort_by (bye_lt sha256 players seed) b group, l) in
        (
          sort_by (bye_lt sha256 players seed) group,
          rw (odd, run) refl,
          record {
            is_byes = record {
              some_bye = omega (
                arith,
                length-sort_by (bye_lt sha256 players seed) group,
                length-group sha256 players seed lowest everybody
                    (omega (arith, length-range_from 0 (length players))),
              );
              each = λ b l. inr (
                ground arith,
                in_range b (length players)
                    (group-member sha256 players seed lowest b everybody (member b l)),
              );
            };
            fair = λ b i l m k n.
                let (none_before, low) =
                  group-fair sha256 players seed lowest b i everybody (member b l)
                    (range_has i (length players) k) n in
                (
                  none_before,
                  λ least.
                      let same = lowest_same sha256 players seed lowest i is_lowest k least in
                      low same ∙ sym same,
                );
          },
        )
  ]
