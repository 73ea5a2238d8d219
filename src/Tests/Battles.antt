-- ===== src/Tests/Battles.antt =====
-- Runs of a commitment and of its reveal.
use tickersix.Base.{ℕ, ◌≡◌, refl, true, List, [], ◌∷◌, arith, All, contains, test_bit}
use tickersix.Base.Int.{pos, leb_ℤ}
use tickersix.Errors.{Result, ok, is_ok}
use tickersix.Runtime.{Key}
use tickersix.State.{Battle, commit_open, reveal_open, ranked, pending, not_voided}
use tickersix.Math.{canonical_lineup_commitment, sort_unstable, validate_lineup}
use tickersix.Math.Lineup.{IsDistinct, IsEligible}
use tickersix.Battle.Create.{new_side}
use tickersix.Battle.Lineup.{
  CommitLineup, RevealLineup, Side, side_of, side_for_player_mut, handle_commit_lineup,
  handle_reveal_lineup,
}
use tickersix.Battle.Invariant.{IsBattle}
use tickersix.Battle.Commitment.{reveal_lineup-opens, commit-reveal, revealing}
use tickersix.Tests.Sample.{rt, config, round_in, at, hash}

abbrev new_battle : Battle
new_battle = record {
  battle_id = 9;
  market_round = 40;
  mode = ranked;
  rated = true;
  league = 0;
  league_round_no = 0;
  rating_a_before = pos 1200;
  rating_b_before = pos 1300;
  rating_formula_version = 1;
  a = new_side 21;
  b = new_side 22;
  result = pending;
  void_reason = not_voided;
  created_at = pos 150;
  finalized_at = pos 0;
  bump = 255;
}

new-valid : IsBattle new_battle
unfolding new_side
new-valid = ground arith

abbrev ctx : CommitLineup
ctx = record {
  config = config;
  battle = record { key = 50; account = new_battle };
  market_round = round_in commit_open 1 0;
  player = 22;
}

abbrev lineup : List ℕ
lineup = 0 ∷ 1 ∷ 2 ∷ 3 ∷ 4 ∷ 5 ∷ []

abbrev shuffled : List ℕ
shuffled = 5 ∷ 3 ∷ 1 ∷ 0 ∷ 2 ∷ 4 ∷ []

unfoldable commitment : Key
unfolding canonical_lineup_commitment
commitment = canonical_lineup_commitment rt 50 22 1 lineup 2 777

abbrev value_or {ℓ} : {A : Type ℓ} → Result A → A → A
value_or (ok a) d = a
value_or _ d = d

abbrev committed_battle : Battle
committed_battle = value_or (handle_commit_lineup (at 250) ctx commitment) new_battle

commit-ok :
    handle_commit_lineup (at 250) ctx (canonical_lineup_commitment rt 50 22 1 lineup 2 777)
    ≡ ok committed_battle
unfolding handle_commit_lineup commitment leb_ℤ hash new_side
commit-ok = refl

shuffled-sorted : sort_unstable shuffled ≡ sort_unstable lineup
unfolding sort_unstable
shuffled-sorted = refl

shuffled-valid :
    validate_lineup shuffled 2 (round_in reveal_open 1 0).account.eligible_asset_bitmap ≡ ok tt
unfolding validate_lineup test_bit
shuffled-valid = refl

commit-reveal_example :
    is_ok (
      handle_reveal_lineup rt
        (at 350)
        (revealing ctx committed_battle (round_in reveal_open 1 0).account)
        shuffled
        2
        777)
    ≡ true
unfolding leb_ℤ
commit-reveal_example =
    commit-reveal rt (at 250) (at 350) ctx (round_in reveal_open 1 0).account lineup shuffled 2 777
      new-valid commit-ok shuffled-sorted refl refl refl shuffled-valid

abbrev reveal_ctx : RevealLineup
reveal_ctx = revealing ctx committed_battle (round_in reveal_open 1 0).account

abbrev revealed_battle : Battle
revealed_battle = value_or (handle_reveal_lineup rt (at 350) reveal_ctx shuffled 2 777) new_battle

reveal-ok : handle_reveal_lineup rt (at 350) reveal_ctx shuffled 2 777 ≡ ok revealed_battle
unfolding handle_reveal_lineup handle_commit_lineup leb_ℤ commitment hash new_side validate_lineup
    test_bit
reveal-ok = refl

reveal_lineup-opens_example :
    (which : Side) × (side_for_player_mut committed_battle 22 ≡ ok which)
    × ((side_of which committed_battle).commitment
        ≡ canonical_lineup_commitment rt 50 22 1 shuffled 2 777)
    × ((contains shuffled 2 ≡ true)
        × IsDistinct shuffled
        × All (IsEligible (round_in reveal_open 1 0).account.eligible_asset_bitmap) shuffled)
    × ((side_of which revealed_battle).asset_ids ≡ sort_unstable shuffled)
    × ((side_of which revealed_battle).captain_asset_id ≡ 2)
reveal_lineup-opens_example = reveal_lineup-opens rt (at 350) reveal_ctx shuffled 2 777 reveal-ok
