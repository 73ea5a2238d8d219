-- ===== src/Battle/Lineup.antt =====
-- programs/tickersix/src/instructions/battle.rs: committing and revealing a lineup.
use tickersix.Base.{ℕ, true, not, ◌&&◌, ◌==◌, List, [], ◌∷◌, if◌then◌else◌}
use tickersix.Base.Int.{leb_ℤ}
use tickersix.Errors.{Result, ok, err, custom, ErrorCode, require, ◌>>◌, ◌>>=◌}
use tickersix.Runtime.{Key, Runtime, Clock, Account, le_bytes, key_bytes, seeds_constraint}
use tickersix.Constants.{config_seed, market_round_seed, battle_seed}
use tickersix.State.{
  Config, MarketRound, Battle, BattleSide, eq_round_state, commit_open, reveal_open, is_pending,
  committed, revealed,
}
use tickersix.Math.{validate_lineup, canonical_lineup_commitment, sort_unstable}

-- The accounts that the instructions on one battle share: its seeds and round are checked.
unfoldable pub battle_constraints :
    Runtime → Account Battle → Account MarketRound → Result (Unit {0})
unfolding seeds_constraint le_bytes key_bytes
battle_constraints rt battle round = do
  seeds_constraint rt
      (battle_seed
        ∷ key_bytes battle.account.market_round
        ∷ le_bytes 8 battle.account.battle_id
        ∷ [])
      battle.account.bump battle.key
  require (battle.account.market_round == round.key) ErrorCode.wrong_market_round
  seeds_constraint rt (market_round_seed ∷ le_bytes 8 round.account.round_id ∷ [])
      round.account.bump round.key

-- Which side of the battle a key plays.
pub data Side : Type 0 where
  side_a side_b : Side

abbrev pub side_of : Side → Battle → BattleSide
side_of side_a battle = battle.a
side_of side_b battle = battle.b

abbrev pub set_side : Side → Battle → BattleSide → Battle
set_side side_a battle side = record battle { a = side }
set_side side_b battle side = record battle { b = side }

-- `side_for_player_mut`: the side to change.
unfoldable pub side_for_player_mut : Battle → Key → Result Side
side_for_player_mut battle player =
    if battle.a.player == player
    then ok side_a
    else if battle.b.player == player
    then ok side_b
    else err (custom ErrorCode.not_battle_participant)

pub record CommitLineup : Type 0 where
  pub config : Account Config
  pub battle : Account Battle
  pub market_round : Account MarketRound
  pub player : Key

unfoldable pub handle_commit_lineup : Clock → CommitLineup → Key → Result Battle
unfolding side_for_player_mut
handle_commit_lineup clock ctx commitment =
    let battle = ctx.battle.account in
    let round = ctx.market_round.account in
    do
      require (not ctx.config.account.paused) ErrorCode.protocol_paused
      require (eq_round_state round.state commit_open) ErrorCode.invalid_round_state
      require (is_pending battle.result) ErrorCode.battle_already_finalized
      require (leb_ℤ clock.unix_timestamp round.commit_deadline) ErrorCode.commit_window_closed
      require (not (commitment == 0)) ErrorCode.invalid_commitment_state
      which ← side_for_player_mut battle ctx.player
      require (not (side_of which battle).committed) ErrorCode.invalid_commitment_state
      ok (
          set_side which battle (record (side_of which battle) {
            commitment = commitment;
            committed = true;
            commit_slot = clock.slot;
            status = committed;
          }))

unfoldable pub commit_lineup : Runtime → Clock → CommitLineup → Key → Result Battle
unfolding battle_constraints handle_commit_lineup
commit_lineup rt clock ctx commitment = do
  seeds_constraint rt (config_seed ∷ []) ctx.config.account.bump ctx.config.key
  battle_constraints rt ctx.battle ctx.market_round
  handle_commit_lineup clock ctx commitment

pub record RevealLineup : Type 0 where
  pub battle : Account Battle
  pub market_round : Account MarketRound
  pub player : Key

unfoldable pub handle_reveal_lineup :
    Runtime → Clock → RevealLineup → List ℕ → ℕ → Key → Result Battle
unfolding side_for_player_mut
handle_reveal_lineup rt clock ctx asset_ids captain_asset_id salt =
    let battle = ctx.battle.account in
    let round = ctx.market_round.account in
    do
      require (eq_round_state round.state reveal_open) ErrorCode.invalid_round_state
      require (is_pending battle.result) ErrorCode.battle_already_finalized
      require
          (leb_ℤ round.commit_deadline clock.unix_timestamp
            && leb_ℤ clock.unix_timestamp round.reveal_deadline)
          ErrorCode.reveal_window_closed
      validate_lineup asset_ids captain_asset_id round.eligible_asset_bitmap
      let expected =
          canonical_lineup_commitment rt ctx.battle.key ctx.player round.registry_version asset_ids
            captain_asset_id salt
      which ← side_for_player_mut battle ctx.player
      require ((side_of which battle).committed && not (side_of which battle).revealed)
          ErrorCode.invalid_commitment_state
      require ((side_of which battle).commitment == expected) ErrorCode.commitment_mismatch
      ok (
          set_side which battle (record (side_of which battle) {
            asset_ids = sort_unstable asset_ids;
            captain_asset_id = captain_asset_id;
            revealed = true;
            reveal_slot = clock.slot;
            status = revealed;
          }))

unfoldable pub reveal_lineup : Runtime → Clock → RevealLineup → List ℕ → ℕ → Key → Result Battle
unfolding battle_constraints handle_reveal_lineup
reveal_lineup rt clock ctx asset_ids captain_asset_id salt = do
  battle_constraints rt ctx.battle ctx.market_round
  handle_reveal_lineup rt clock ctx asset_ids captain_asset_id salt
