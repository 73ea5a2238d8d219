-- ===== src/Battle/Close.antt =====
-- programs/tickersix/src/instructions/battle.rs: the other ways to close a battle. Each counts it in
-- the round as resolved.
use tickersix.Base.{
  ℕ, Bool, true, false, not, ◌&&◌, ◌||◌, ◌==◌, List, [], ◌∷◌, ◌++◌, if◌then◌else◌, contains,
}
use tickersix.Base.Int.{ltb_ℤ}
use tickersix.Errors.{Result, ok, ErrorCode, require, ◌>>◌, ◌>>=◌}
use tickersix.Runtime.{
  Key, Runtime, Clock, Account, le_bytes, key_bytes, require_keys_eq, seeds_constraint,
}
use tickersix.Accounts.{AccountInfo}
use tickersix.Constants.{config_seed, market_round_seed, battle_seed}
use tickersix.State.{
  Config, MarketRound, Battle, BattleResult, is_pending, forfeit_a, forfeit_b, both_forfeit,
  forfeited, voided_result, system_incident, price_unavailable,
}
use tickersix.Round.Universe.{deserialize_asset, round_asset_address}
use tickersix.Battle.Create.{increment_u32}
use tickersix.Battle.Settle.{battle_of_round_constraints}

-- The constraints of the instructions of the coordinator, in the order of their accounts.
unfoldable pub coordinator_constraints :
    Runtime → Account Config → Account Battle → Account MarketRound → Result (Unit {0})
unfolding seeds_constraint le_bytes key_bytes
coordinator_constraints rt config battle round = do
  seeds_constraint rt (config_seed ∷ []) config.account.bump config.key
  seeds_constraint rt (market_round_seed ∷ le_bytes 8 round.account.round_id ∷ [])
      round.account.bump round.key
  seeds_constraint rt (battle_seed ∷ key_bytes round.key ∷ le_bytes 8 battle.account.battle_id ∷ [])
      battle.account.bump battle.key
  require (battle.account.market_round == round.key) ErrorCode.wrong_market_round

unfoldable pub handle_cancel_uncommitted_battle :
    Clock → Config → Key → Battle → MarketRound → Result (Battle × MarketRound)
unfolding increment_u32
handle_cancel_uncommitted_battle clock config coordinator battle round = do
  require_keys_eq config.coordinator_authority coordinator ErrorCode.unauthorized_coordinator
  require (is_pending battle.result) ErrorCode.battle_already_finalized
  require (not battle.a.committed && not battle.b.committed) ErrorCode.invalid_battle_state
  count ← increment_u32 round.resolved_battle_count
  ok (
    record battle {
      result = voided_result;
      void_reason = system_incident;
      finalized_at = clock.unix_timestamp;
    },
    record round { resolved_battle_count = count },
  )

unfoldable pub cancel_uncommitted_battle :
    Runtime
    → Clock
    → Account Config
    → Key
    → Account Battle
    → Account MarketRound
    → Result (Battle × MarketRound)
unfolding coordinator_constraints handle_cancel_uncommitted_battle
cancel_uncommitted_battle rt clock config coordinator battle round = do
  coordinator_constraints rt config battle round
  handle_cancel_uncommitted_battle clock config.account coordinator battle.account round.account

-- The `match (a_failed, b_failed)`; the test before it refuses two revealed sides.
abbrev pub forfeit_result : Bool → Bool → BattleResult
forfeit_result true false = forfeit_a
forfeit_result false true = forfeit_b
forfeit_result _ _ = both_forfeit

unfoldable pub handle_finalize_forfeit :
    Clock → Account Battle → Account MarketRound → Result (Battle × MarketRound)
unfolding increment_u32
handle_finalize_forfeit clock battle_account round_account =
    let battle = battle_account.account in
    let round = round_account.account in
    let a_failed = not battle.a.revealed in
    let b_failed = not battle.b.revealed in
    do
      require_keys_eq battle.market_round round_account.key ErrorCode.wrong_market_round
      require (ltb_ℤ round.reveal_deadline clock.unix_timestamp) ErrorCode.reveal_window_closed
      require (is_pending battle.result) ErrorCode.battle_already_finalized
      require (a_failed || b_failed) ErrorCode.invalid_battle_state
      count ← increment_u32 round.resolved_battle_count
      ok (
        record battle {
          a = if a_failed then record (battle.a) { status = forfeited } else battle.a;
          b = if b_failed then record (battle.b) { status = forfeited } else battle.b;
          result = forfeit_result a_failed b_failed;
          finalized_at = clock.unix_timestamp;
        },
        record round { resolved_battle_count = count },
      )

unfoldable pub finalize_forfeit :
    Runtime → Clock → Account Battle → Account MarketRound → Result (Battle × MarketRound)
unfolding battle_of_round_constraints handle_finalize_forfeit
finalize_forfeit rt clock battle round = do
  battle_of_round_constraints rt battle round
  handle_finalize_forfeit clock battle round

-- The assets of the sides that were revealed.
unfoldable pub selected_asset_ids : Battle → List ℕ
selected_asset_ids battle =
    (if battle.a.revealed then battle.a.asset_ids else [])
    ++ (if battle.b.revealed then battle.b.asset_ids else [])

-- The loop of `void_battle_if_price_unavailable`.
unfoldable pub some_unavailable : Runtime → Key → List ℕ → List AccountInfo → Bool → Result Bool
unfolding contains round_asset_address
some_unavailable rt round_key ids [] unavailable = ok unavailable
some_unavailable rt round_key ids (info ∷ infos) unavailable = do
  require_keys_eq info.owner rt.program_id ErrorCode.round_asset_unavailable
  asset ← deserialize_asset info ErrorCode.round_asset_unavailable
  require_keys_eq asset.market_round round_key ErrorCode.wrong_market_round
  require_keys_eq info.key (round_asset_address rt round_key asset.asset_id)
      ErrorCode.round_asset_unavailable
  some_unavailable rt round_key ids infos (
      unavailable
      || (contains ids asset.asset_id && (asset.start_unavailable || asset.end_unavailable)))

unfoldable pub handle_void_battle_if_price_unavailable :
    Runtime
    → Clock
    → Battle
    → Account MarketRound
    → List AccountInfo
    → Result (Battle × MarketRound)
unfolding increment_u32
handle_void_battle_if_price_unavailable rt clock battle round infos = do
  require (is_pending battle.result) ErrorCode.battle_already_finalized
  require (battle.a.revealed || battle.b.revealed) ErrorCode.invalid_battle_state
  unavailable ← some_unavailable rt round.key (selected_asset_ids battle) infos false
  require unavailable ErrorCode.round_asset_unavailable
  count ← increment_u32 round.account.resolved_battle_count
  ok (
    record battle {
      result = voided_result;
      void_reason = price_unavailable;
      finalized_at = clock.unix_timestamp;
    },
    record (round.account) { resolved_battle_count = count },
  )

unfoldable pub void_battle_if_price_unavailable :
    Runtime
    → Clock
    → Account Battle
    → Account MarketRound
    → List AccountInfo
    → Result (Battle × MarketRound)
unfolding battle_of_round_constraints handle_void_battle_if_price_unavailable
void_battle_if_price_unavailable rt clock battle round infos = do
  battle_of_round_constraints rt battle round
  handle_void_battle_if_price_unavailable rt clock battle.account round infos

unfoldable pub handle_void_battle_for_system_incident :
    Clock → Config → Key → Battle → MarketRound → Result (Battle × MarketRound)
unfolding increment_u32
handle_void_battle_for_system_incident clock config coordinator battle round = do
  require_keys_eq config.coordinator_authority coordinator ErrorCode.unauthorized_coordinator
  require config.paused ErrorCode.invalid_battle_state
  require (is_pending battle.result) ErrorCode.battle_already_finalized
  count ← increment_u32 round.resolved_battle_count
  ok (
    record battle {
      result = voided_result;
      void_reason = system_incident;
      finalized_at = clock.unix_timestamp;
    },
    record round { resolved_battle_count = count },
  )

unfoldable pub void_battle_for_system_incident :
    Runtime
    → Clock
    → Account Config
    → Key
    → Account Battle
    → Account MarketRound
    → Result (Battle × MarketRound)
unfolding coordinator_constraints handle_void_battle_for_system_incident
void_battle_for_system_incident rt clock config coordinator battle round = do
  coordinator_constraints rt config battle round
  handle_void_battle_for_system_incident clock config.account coordinator battle.account
      round.account
