-- ===== src/Battle/Settle.antt =====
-- programs/tickersix/src/instructions/battle.rs: `settle_side_score` and `finalize_battle`.
use tickersix.Base.{
  ℕ, suc, zero, Bool, true, false, not, ◌&&◌, ◌==◌, leb, List, [], ◌∷◌, Option, some, none,
  if◌then◌else◌, length, get_or, set, replicate,
}
use tickersix.Base.Int.{ℤ, pos, ltb_ℤ}
use tickersix.Errors.{Result, ok, err, custom, ErrorCode, require, ◌>>◌, ◌>>=◌}
use tickersix.Runtime.{
  Key, Runtime, Clock, Account, le_bytes, key_bytes, require_keys_eq, seeds_constraint,
}
use tickersix.Accounts.{AccountInfo}
use tickersix.Constants.{market_round_seed, battle_seed, lineup_size}
use tickersix.State.{
  MarketRound, Battle, BattleResult, is_pending, player_a, player_b, draw, score_finalized,
}
use tickersix.Math.{lineup_score_q9}
use tickersix.Round.Universe.{deserialize_asset, round_asset_address}
use tickersix.Battle.Create.{increment_u32}
use tickersix.Battle.Lineup.{Side, side_a, side_b, side_of, set_side}

-- The constraints of an instruction on a battle of the given round.
unfoldable pub battle_of_round_constraints :
    Runtime → Account Battle → Account MarketRound → Result (Unit {0})
unfolding seeds_constraint le_bytes key_bytes
battle_of_round_constraints rt battle round = do
  seeds_constraint rt (battle_seed ∷ key_bytes round.key ∷ le_bytes 8 battle.account.battle_id ∷ [])
      battle.account.bump battle.key
  require (battle.account.market_round == round.key) ErrorCode.wrong_market_round
  seeds_constraint rt (market_round_seed ∷ le_bytes 8 round.account.round_id ∷ [])
      round.account.bump round.key

-- `side_for_index` and `side_for_index_mut`.
unfoldable pub side_for_index : ℕ → Result Side
side_for_index zero = ok side_a
side_for_index (suc zero) = ok side_b
side_for_index (suc (suc n)) = err (custom ErrorCode.invalid_battle_state)

-- `iter().position(...)`.
unfoldable pub position : ℕ → List ℕ → Option ℕ
position a [] = none
position a (x ∷ xs) =
    if x == a then some 0 else elim (position a xs) [ none ↦ none | some i ↦ some (suc i) ]

abbrev position_or {ℓ} : {A : Type ℓ} → Option A → Result A
position_or (some i) = ok i
position_or none = err (custom ErrorCode.round_asset_unavailable)

-- The slots of the six returns that the loop has filled.
pub record Filled : Type 0 where
  pub returns : List ℤ
  pub found : List Bool

-- One remaining account of `settle_side_score`.
unfoldable pub fill_return : Runtime → Key → List ℕ → AccountInfo → Filled → Result Filled
unfolding round_asset_address position
fill_return rt round_key asset_ids info filled = do
  require_keys_eq info.owner rt.program_id ErrorCode.round_asset_unavailable
  asset ← deserialize_asset info ErrorCode.round_asset_unavailable
  require_keys_eq asset.market_round round_key ErrorCode.wrong_market_round
  require_keys_eq info.key (round_asset_address rt round_key asset.asset_id)
      ErrorCode.round_asset_unavailable
  require
      (asset.start_finalized
        && asset.end_finalized
        && asset.available
        && not asset.start_unavailable
        && not asset.end_unavailable)
      ErrorCode.round_asset_unavailable
  i ← position_or (position asset.asset_id asset_ids)
  require (not (get_or filled.found i true)) ErrorCode.round_asset_unavailable
  ok (record { returns = set filled.returns i asset.return_q9; found = set filled.found i true })

unfoldable pub fill_returns : Runtime → Key → List ℕ → List AccountInfo → Filled → Result Filled
unfolding fill_return
fill_returns rt round_key asset_ids [] filled = ok filled
fill_returns rt round_key asset_ids (info ∷ infos) filled =
    fill_return rt round_key asset_ids info filled >>= fill_returns rt round_key asset_ids infos

unfoldable pub all_present : List Bool → Bool
all_present [] = true
all_present (b ∷ bs) = b && all_present bs

unfoldable pub handle_settle_side_score :
    Runtime → Account Battle → Account MarketRound → List AccountInfo → ℕ → Result Battle
unfolding side_for_index
handle_settle_side_score rt battle_account round infos side_index =
    let battle = battle_account.account in
    do
      require (leb side_index 1) ErrorCode.invalid_battle_state
      which ← side_for_index side_index
      let side = side_of which battle
      require (is_pending battle.result) ErrorCode.battle_already_finalized
      require side.revealed ErrorCode.invalid_battle_state
      require (not side.score_finalized) ErrorCode.invalid_battle_state
      require (length infos == lineup_size) ErrorCode.round_asset_unavailable
      filled ←
          fill_returns rt round.key side.asset_ids infos
            (record { returns = replicate 6 (pos 0); found = replicate 6 false })
      require (all_present filled.found) ErrorCode.round_asset_unavailable
      score ← lineup_score_q9 filled.returns side.asset_ids side.captain_asset_id
      ok (
          set_side which battle (record (side_of which battle) {
            score_q9 = score;
            score_finalized = true;
            status = score_finalized;
          }))

unfoldable pub settle_side_score :
    Runtime → Account Battle → Account MarketRound → List AccountInfo → ℕ → Result Battle
unfolding battle_of_round_constraints handle_settle_side_score
settle_side_score rt battle round infos side_index = do
  battle_of_round_constraints rt battle round
  handle_settle_side_score rt battle round infos side_index

-- The result of two scores.
unfoldable pub compare_scores : ℤ → ℤ → BattleResult
unfolding ltb_ℤ
compare_scores a b = if ltb_ℤ b a then player_a else if ltb_ℤ a b then player_b else draw

-- The closing instructions change the battle and count it in the round.
unfoldable pub handle_finalize_battle : Clock → Battle → MarketRound → Result (Battle × MarketRound)
unfolding increment_u32
handle_finalize_battle clock battle round = do
  require (is_pending battle.result) ErrorCode.battle_already_finalized
  require (battle.a.score_finalized && battle.b.score_finalized) ErrorCode.invalid_battle_state
  count ← increment_u32 round.resolved_battle_count
  ok (
    record battle {
      result = compare_scores battle.a.score_q9 battle.b.score_q9;
      finalized_at = clock.unix_timestamp;
    },
    record round { resolved_battle_count = count },
  )

unfoldable pub finalize_battle :
    Runtime → Clock → Account Battle → Account MarketRound → Result (Battle × MarketRound)
unfolding battle_of_round_constraints handle_finalize_battle
finalize_battle rt clock battle round = do
  battle_of_round_constraints rt battle round
  handle_finalize_battle clock battle.account round.account
