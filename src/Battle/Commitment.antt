-- ===== src/Battle/Commitment.antt =====
-- programs/tickersix/src/instructions/battle.rs: committing to a lineup and opening the commitment.
use tickersix.Base.{ℕ, ◌≡◌, refl, true, false, List, arith, All, contains, sym, ◌∙◌, inl, inr}
use tickersix.Base.Int.{leb_ℤ}
use tickersix.Errors.{ok, is_ok, Result-cases}
use tickersix.Runtime.{Key, Runtime, Clock}
use tickersix.State.{MarketRound, Battle, eq_round_state, reveal_open, is_pending}
use tickersix.Math.{validate_lineup, canonical_lineup_commitment, sort_unstable}
use tickersix.Math.Lineup.{IsDistinct, IsEligible, validate_lineup_iff}
use tickersix.Battle.Lineup.{
  CommitLineup, RevealLineup, Side, side_a, side_b, side_of, side_for_player_mut,
  handle_commit_lineup, handle_reveal_lineup,
}
use tickersix.Battle.Invariant.{IsBattle}

reveal_inversion :
    (rt : Runtime) (clock : Clock) (ctx : RevealLineup) (ids : List ℕ) (captain : ℕ) (salt : Key)
    {b : Battle}
    → handle_reveal_lineup rt clock ctx ids captain salt ≡ ok b
    → (validate_lineup ids captain ctx.market_round.account.eligible_asset_bitmap ≡ ok tt)
      × (which : Side) × (side_for_player_mut ctx.battle.account ctx.player ≡ ok which)
      × ((side_of which ctx.battle.account).commitment
          ≡ canonical_lineup_commitment rt ctx.battle.key ctx.player
              ctx.market_round.account.registry_version ids captain salt)
      × ((side_of which b).asset_ids ≡ sort_unstable ids)
      × ((side_of which b).captain_asset_id ≡ captain)
unfolding handle_reveal_lineup
reveal_inversion rt clock ctx ids captain salt h =
    elim (Result-cases (side_for_player_mut ctx.battle.account ctx.player)) [
      | inl (side_a, e) ↦ (ground arith, side_a, e, ground arith, ground arith, ground arith)
      | inl (side_b, e) ↦ (ground arith, side_b, e, ground arith, ground arith, ground arith)
      | inr e ↦ absurd (ground arith)
    ]

-- What a commit writes: the side of the player is committed to the key, and everything that a reveal
-- asks of the battle is as before.
commit_inversion :
    (clock : Clock) (ctx : CommitLineup) (commitment : Key) {b : Battle}
    → handle_commit_lineup clock ctx commitment ≡ ok b
    → IsBattle ctx.battle.account
    → (is_pending b.result ≡ true)
      × (which : Side) × (side_for_player_mut b ctx.player ≡ ok which)
      × ((side_of which b).commitment ≡ commitment)
      × ((side_of which b).committed ≡ true)
      × ((side_of which b).revealed ≡ false)
unfolding handle_commit_lineup
commit_inversion clock ctx commitment h v =
    elim (Result-cases (side_for_player_mut ctx.battle.account ctx.player)) [
      | inl (side_a, e) ↦
          (ground arith, side_a, ground arith, ground arith, ground arith, ground arith)
      | inl (side_b, e) ↦
          (ground arith, side_b, ground arith, ground arith, ground arith, ground arith)
      | inr e ↦ absurd (ground arith)
    ]

-- A reveal that meets its conditions succeeds.
reveal_succeeds :
    (rt : Runtime) (clock : Clock) (ctx : RevealLineup) (ids : List ℕ) (captain : ℕ) (salt : Key)
    (which : Side)
    → eq_round_state ctx.market_round.account.state reveal_open ≡ true
    → is_pending ctx.battle.account.result ≡ true
    → leb_ℤ ctx.market_round.account.commit_deadline clock.unix_timestamp ≡ true
    → leb_ℤ clock.unix_timestamp ctx.market_round.account.reveal_deadline ≡ true
    → validate_lineup ids captain ctx.market_round.account.eligible_asset_bitmap ≡ ok tt
    → side_for_player_mut ctx.battle.account ctx.player ≡ ok which
    → (side_of which ctx.battle.account).committed ≡ true
    → (side_of which ctx.battle.account).revealed ≡ false
    → (side_of which ctx.battle.account).commitment
      ≡ canonical_lineup_commitment rt ctx.battle.key ctx.player
          ctx.market_round.account.registry_version ids captain salt
    → is_ok (handle_reveal_lineup rt clock ctx ids captain salt) ≡ true
unfolding handle_reveal_lineup
reveal_succeeds rt clock ctx ids captain salt which a b c d e f g h i = ground arith

-- The commitment depends on the lineup as a set.
canonical-sorted :
    (rt : Runtime) (battle player : Key) (version : ℕ) (ids ids' : List ℕ) (captain : ℕ)
    (salt : Key)
    → sort_unstable ids' ≡ sort_unstable ids
    → canonical_lineup_commitment rt battle player version ids' captain salt
      ≡ canonical_lineup_commitment rt battle player version ids captain salt
unfolding canonical_lineup_commitment
canonical-sorted rt battle player version ids ids' captain salt e =
    rw (e, canonical_lineup_commitment) refl

-- When a reveal succeeds, the player is one of the two, the lineup opens the player's commitment and is
-- eligible (the captain is in it, the assets are different and admitted to the round), and what is
-- stored is the sorted lineup with its captain.
pub reveal_lineup-opens :
    (rt : Runtime) (clock : Clock) (ctx : RevealLineup) (ids : List ℕ) (captain : ℕ) (salt : Key)
    {b : Battle}
    → handle_reveal_lineup rt clock ctx ids captain salt ≡ ok b
    → (which : Side) × (side_for_player_mut ctx.battle.account ctx.player ≡ ok which)
      × ((side_of which ctx.battle.account).commitment
          ≡ canonical_lineup_commitment rt ctx.battle.key ctx.player
              ctx.market_round.account.registry_version ids captain salt)
      × ((contains ids captain ≡ true)
          × IsDistinct ids
          × All (IsEligible ctx.market_round.account.eligible_asset_bitmap) ids)
      × ((side_of which b).asset_ids ≡ sort_unstable ids)
      × ((side_of which b).captain_asset_id ≡ captain)
reveal_lineup-opens rt clock ctx ids captain salt h =
    let (valid, which, e, opened, stored, led) = reveal_inversion rt clock ctx ids captain salt h in
    (
      which,
      e,
      opened,
      (validate_lineup_iff ids captain ctx.market_round.account.eligible_asset_bitmap).0 valid,
      stored,
      led,
    )

-- The reveal of the round's accounts after a commit.
abbrev pub revealing : CommitLineup → Battle → MarketRound → RevealLineup
revealing ctx b round = record {
  battle = record { key = ctx.battle.key; account = b };
  market_round = record { key = ctx.market_round.key; account = round };
  player = ctx.player;
}

-- A player of a well-formed battle who commits to a lineup can reveal it: the reveal succeeds, in any
-- order of the assets, once the round is open for reveals, within its window, for a lineup that the
-- round admits, under the registry version of the commitment.
pub commit-reveal :
    (rt : Runtime) (now later : Clock) (ctx : CommitLineup) (round : MarketRound)
    (ids ids' : List ℕ) (captain : ℕ) (salt : Key) {b : Battle}
    → IsBattle ctx.battle.account
    → handle_commit_lineup now ctx (
        canonical_lineup_commitment rt ctx.battle.key ctx.player round.registry_version ids captain
          salt)
      ≡ ok b
    → sort_unstable ids' ≡ sort_unstable ids
    → eq_round_state round.state reveal_open ≡ true
    → leb_ℤ round.commit_deadline later.unix_timestamp ≡ true
    → leb_ℤ later.unix_timestamp round.reveal_deadline ≡ true
    → validate_lineup ids' captain round.eligible_asset_bitmap ≡ ok tt
    → is_ok (handle_reveal_lineup rt later (revealing ctx b round) ids' captain salt) ≡ true
commit-reveal rt now later ctx round ids ids' captain salt {b} v h s opens from until valid =
    let (pending', which, e, key, committed', hidden) = commit_inversion now ctx _ h v in
    reveal_succeeds rt later (revealing ctx b round) ids' captain salt which opens pending' from
      until valid e committed' hidden
      (key
        ∙ sym (
            canonical-sorted rt ctx.battle.key ctx.player round.registry_version ids ids' captain
              salt s))
