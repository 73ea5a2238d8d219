-- ===== src/Round/Lifecycle.antt =====
-- programs/tickersix/src/instructions/round.rs: freezing a round, its clock-driven transitions, and
-- its completion.
use tickersix.Base.{Bool, false, not, ◌&&◌, ◌||◌, ◌==◌, leb, List, [], ◌∷◌, if◌then◌else◌}
use tickersix.Base.Int.{ℤ, leb_ℤ}
use tickersix.Errors.{Result, ok, err, custom, ErrorCode, require, ◌>>◌, ◌>>=◌}
use tickersix.Runtime.{Key, Runtime, Clock, Account, le_bytes, seeds_constraint}
use tickersix.Accounts.{AccountInfo}
use tickersix.Constants.{
  config_seed, market_round_seed, settlement_policy_seed, jupiter_source_config_seed,
  quality_policy_seed, attestor_set_seed, lineup_size,
}
use tickersix.State.{
  Config, MarketRound, MarketRoundState, SettlementPolicy, JupiterSourceConfig, MarketQualityPolicy,
  AttestorSet, eq_round_state, eq_domain, preparing, scheduled, commit_open, reveal_open, live,
  ended, settling, finalized, voided,
}
use tickersix.Round.Binding.{
  require_coordinator, validate_jupiter_source_binding, validate_jupiter_policy_binding,
}
use tickersix.Round.Universe.{validate_round_assets, deserialize_asset}

-- `FreezeMarketRound` and `FinalizeMarketRound` name the same policy accounts; the second has no
-- `config`, `attestor_set` and `coordinator`.
pub record FreezeMarketRound : Type 0 where
  pub config : Account Config
  pub market_round : Account MarketRound
  pub price_policy : Account SettlementPolicy
  pub jupiter_source_config : Account JupiterSourceConfig
  pub market_quality_policy : Account MarketQualityPolicy
  pub attestor_set : Account AttestorSet
  pub coordinator : Key
  pub remaining_accounts : List AccountInfo

pub record FinalizeMarketRound : Type 0 where
  pub market_round : Account MarketRound
  pub price_policy : Account SettlementPolicy
  pub jupiter_source_config : Account JupiterSourceConfig
  pub market_quality_policy : Account MarketQualityPolicy
  pub remaining_accounts : List AccountInfo

-- The seeds that both instructions check: the round's, and those of the policies that it froze.
unfoldable pub frozen_policy_constraints :
    Runtime
    → Account MarketRound
    → Account SettlementPolicy
    → Account JupiterSourceConfig
    → Account MarketQualityPolicy
    → Result (Unit {0})
unfolding seeds_constraint le_bytes
frozen_policy_constraints rt round policy source quality =
    let r = round.account in
    do
      seeds_constraint rt (market_round_seed ∷ le_bytes 8 r.round_id ∷ []) r.bump round.key
      seeds_constraint rt (settlement_policy_seed ∷ le_bytes 2 r.settlement_policy_version ∷ [])
          policy.account.bump policy.key
      seeds_constraint rt
          (jupiter_source_config_seed ∷ le_bytes 2 r.jupiter_source_config_version ∷ [])
          source.account.bump source.key
      seeds_constraint rt (quality_policy_seed ∷ le_bytes 2 r.market_quality_policy_version ∷ [])
          quality.account.bump quality.key

unfoldable pub freeze_constraints : Runtime → FreezeMarketRound → Result (Unit {0})
unfolding frozen_policy_constraints
freeze_constraints rt ctx = do
  seeds_constraint rt (config_seed ∷ []) ctx.config.account.bump ctx.config.key
  frozen_policy_constraints rt ctx.market_round ctx.price_policy ctx.jupiter_source_config
      ctx.market_quality_policy
  seeds_constraint rt
      (attestor_set_seed ∷ le_bytes 2 ctx.market_round.account.attestor_set_version ∷ [])
      ctx.attestor_set.account.bump ctx.attestor_set.key

unfoldable pub handle_freeze_market_round : Runtime → FreezeMarketRound → Result MarketRound
unfolding require_coordinator validate_jupiter_source_binding validate_round_assets
handle_freeze_market_round rt ctx =
    let round = ctx.market_round.account in
    let policy = ctx.price_policy.account in
    let quality = ctx.market_quality_policy.account in
    let set = ctx.attestor_set.account in
    do
      require_coordinator ctx.config.account ctx.coordinator
      require (not ctx.config.account.paused) ErrorCode.protocol_paused
      require (eq_round_state round.state preparing) ErrorCode.invalid_round_state
      require (round.price_policy_version == policy.version) ErrorCode.price_policy_mismatch
      validate_jupiter_source_binding round policy ctx.jupiter_source_config.account set
          ctx.jupiter_source_config.key
      require (round.market_quality_policy_version == quality.version)
          ErrorCode.quality_policy_mismatch
      require (eq_domain round.competition_domain quality.competition_domain)
          ErrorCode.quality_policy_mismatch
      require (round.attestor_set_version == set.version) ErrorCode.attestor_set_mismatch
      require (leb quality.min_eligible_assets round.round_asset_count)
          ErrorCode.insufficient_eligible_assets
      require (leb lineup_size round.round_asset_count) ErrorCode.insufficient_eligible_assets
      validate_round_assets rt ctx.market_round.key round policy quality ctx.remaining_accounts
          round.round_asset_count
      ok (record round { state = scheduled })

unfoldable pub freeze_market_round : Runtime → FreezeMarketRound → Result MarketRound
unfolding freeze_constraints handle_freeze_market_round
freeze_market_round rt ctx = do freeze_constraints rt ctx; handle_freeze_market_round rt ctx

-- The state after `state`, for a round with these times, at time `now`.
unfoldable pub next_state : MarketRoundState → MarketRound → ℤ → Result MarketRoundState
next_state scheduled round now = do
  require (leb_ℤ round.queue_close_at now) ErrorCode.invalid_round_state
  ok commit_open
next_state commit_open round now = do
  require (leb_ℤ round.commit_deadline now) ErrorCode.invalid_round_state
  ok reveal_open
next_state reveal_open round now = do
  require (leb_ℤ round.start_target_at now) ErrorCode.invalid_round_state
  ok live
next_state live round now = do
  require (leb_ℤ round.end_target_at now) ErrorCode.invalid_round_state
  ok ended
next_state ended round now = ok settling
next_state _ round now = err (custom ErrorCode.invalid_round_state)

unfoldable pub next_market_round_state : MarketRound → ℤ → Result MarketRoundState
unfolding next_state
next_market_round_state round now = next_state round.state round now

-- `AdvanceMarketRound` holds the round and any signer.
unfoldable pub advance_market_round : Runtime → Clock → Account MarketRound → Result MarketRound
unfolding next_market_round_state seeds_constraint le_bytes
advance_market_round rt clock round = do
  seeds_constraint rt (market_round_seed ∷ le_bytes 8 round.account.round_id ∷ [])
      round.account.bump round.key
  next ← next_market_round_state round.account clock.unix_timestamp
  ok (record (round.account) { state = next })

-- The loop of `finalize_market_round`: is some phase of some asset unavailable?
unfoldable pub round_is_voided : List AccountInfo → Bool → Result Bool
round_is_voided [] voided_so_far = ok voided_so_far
round_is_voided (info ∷ infos) voided_so_far = do
  asset ← deserialize_asset info ErrorCode.round_asset_unavailable
  require
      ((asset.start_finalized || asset.start_unavailable)
        && (asset.end_finalized || asset.end_unavailable))
      ErrorCode.round_asset_unavailable
  round_is_voided infos (voided_so_far || (asset.start_unavailable || asset.end_unavailable))

unfoldable pub handle_finalize_market_round : Runtime → FinalizeMarketRound → Result MarketRound
unfolding validate_jupiter_policy_binding validate_round_assets round_is_voided
handle_finalize_market_round rt ctx =
    let round = ctx.market_round.account in
    let policy = ctx.price_policy.account in
    do
      require (eq_round_state round.state settling) ErrorCode.invalid_round_state
      require (round.rated_battle_count == round.resolved_battle_count)
          ErrorCode.invalid_battle_state
      validate_jupiter_policy_binding round policy ctx.jupiter_source_config.account
          ctx.jupiter_source_config.key
      validate_round_assets rt ctx.market_round.key round policy ctx.market_quality_policy.account
          ctx.remaining_accounts round.round_asset_count
      is_voided ← round_is_voided ctx.remaining_accounts false
      ok (record round { state = if is_voided then voided else finalized })

unfoldable pub finalize_market_round : Runtime → FinalizeMarketRound → Result MarketRound
unfolding frozen_policy_constraints handle_finalize_market_round
finalize_market_round rt ctx = do
  frozen_policy_constraints rt ctx.market_round ctx.price_policy ctx.jupiter_source_config
      ctx.market_quality_policy
  handle_finalize_market_round rt ctx
