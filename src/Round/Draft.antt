-- ===== src/Round/Draft.antt =====
-- programs/tickersix/src/instructions/round.rs: `create_market_round_draft`.
use tickersix.Base.{ℕ, Bool, not, ◌&&◌, ◌==◌, ltb, [], ◌∷◌}
use tickersix.Base.Int.{ℤ, ltb_ℤ, leb_ℤ}
use tickersix.Errors.{Result, ok, ErrorCode, require, ◌>>◌}
use tickersix.Runtime.{
  Key, Runtime, Account, NewAccount, le_bytes, seeds_constraint, init_constraint,
}
use tickersix.Constants.{
  config_seed, market_round_seed, settlement_policy_seed, jupiter_source_config_seed,
  quality_policy_seed, attestor_set_seed, empty_bitmap,
}
use tickersix.State.{
  Config, MarketRound, SettlementPolicy, JupiterSourceConfig, MarketQualityPolicy, AttestorSet,
  eq_source, jupiter_token_spot_v1, preparing,
}
use tickersix.Round.Binding.{require_coordinator, validate_eligibility_snapshot_hash}

pub record CreateMarketRoundDraft : Type 0 where
  pub config : Account Config
  pub coordinator : Key
  pub market_round : NewAccount
  pub price_policy : Account SettlementPolicy
  pub jupiter_source_config : Account JupiterSourceConfig
  pub market_quality_policy : Account MarketQualityPolicy
  pub attestor_set : Account AttestorSet

-- The arguments of the instruction.
pub record DraftArgs : Type 0 where
  pub round_id : ℕ  -- u64
  pub registry_version : ℕ  -- u32
  pub eligibility_snapshot_hash : Key
  pub eligibility_frozen_at : ℤ
  pub queue_close_at : ℤ
  pub commit_deadline : ℤ
  pub reveal_deadline : ℤ
  pub start_target_at : ℤ
  pub end_target_at : ℤ
  pub is_replay : Bool

-- The `#[account(...)]` constraints of `CreateMarketRoundDraft`.
unfoldable pub draft_constraints : Runtime → CreateMarketRoundDraft → ℕ → Result (Unit {0})
unfolding seeds_constraint init_constraint le_bytes
draft_constraints rt ctx round_id =
    let config = ctx.config.account in
    do
      seeds_constraint rt (config_seed ∷ []) config.bump ctx.config.key
      init_constraint rt (market_round_seed ∷ le_bytes 8 round_id ∷ []) ctx.market_round
      seeds_constraint rt
          (settlement_policy_seed ∷ le_bytes 2 config.current_settlement_policy_version ∷ [])
          ctx.price_policy.account.bump ctx.price_policy.key
      seeds_constraint rt
          (jupiter_source_config_seed
            ∷ le_bytes 2 config.current_jupiter_source_config_version
            ∷ [])
          ctx.jupiter_source_config.account.bump ctx.jupiter_source_config.key
      seeds_constraint rt
          (quality_policy_seed ∷ le_bytes 2 config.current_market_quality_policy_version ∷ [])
          ctx.market_quality_policy.account.bump ctx.market_quality_policy.key
      seeds_constraint rt (attestor_set_seed ∷ le_bytes 2 config.current_attestor_set_version ∷ [])
          ctx.attestor_set.account.bump ctx.attestor_set.key

-- The new round and the changed configuration.
unfoldable pub handle_create_market_round_draft :
    Runtime → CreateMarketRoundDraft → DraftArgs → Result (Config × MarketRound)
unfolding require_coordinator validate_eligibility_snapshot_hash
handle_create_market_round_draft rt ctx args =
    let config = ctx.config.account in
    let policy = ctx.price_policy.account in
    let source = ctx.jupiter_source_config.account in
    let quality = ctx.market_quality_policy.account in
    let set = ctx.attestor_set.account in
    do
      require_coordinator config ctx.coordinator
      require (not config.paused) ErrorCode.protocol_paused
      validate_eligibility_snapshot_hash args.eligibility_snapshot_hash
      require
          (ltb_ℤ args.eligibility_frozen_at args.queue_close_at
            && ltb_ℤ args.queue_close_at args.commit_deadline
            && ltb_ℤ args.commit_deadline args.reveal_deadline
            && ltb_ℤ args.reveal_deadline args.start_target_at
            && ltb_ℤ args.start_target_at args.end_target_at)
          ErrorCode.invalid_round_timing
      require (ltb config.last_market_round_id args.round_id) ErrorCode.invalid_round_sequence
      require (leb_ℤ config.last_market_round_end_at args.start_target_at)
          ErrorCode.invalid_round_sequence
      require
          (ltb 0 args.registry_version && args.registry_version == config.current_registry_version)
          ErrorCode.invalid_registry_version
      require config.registry_frozen ErrorCode.registry_not_frozen
      require
          (policy.version == config.current_settlement_policy_version
            && quality.version == config.current_market_quality_policy_version
            && set.version == config.current_attestor_set_version
            && source.version == config.current_jupiter_source_config_version)
          ErrorCode.invalid_policy_version
      require
          (eq_source policy.source_kind jupiter_token_spot_v1
            && policy.source_config == ctx.jupiter_source_config.key
            && source.attestor_set_version == set.version)
          ErrorCode.source_config_mismatch
      ok (
        record config {
          last_market_round_id = args.round_id;
          last_market_round_end_at = args.end_target_at;
        },
        record {
          round_id = args.round_id;
          registry_version = args.registry_version;
          competition_domain = quality.competition_domain;
          settlement_policy_version = policy.version;
          settlement_source_kind = policy.source_kind;
          settlement_source_config = policy.source_config;
          jupiter_source_config_version = source.version;
          pyth_source_config_version = 0;
          price_policy_version = policy.version;
          market_quality_policy_version = quality.version;
          attestor_set_version = set.version;
          market_quality_policy_hash = quality.canonical_policy_hash;
          eligibility_snapshot_hash = args.eligibility_snapshot_hash;
          eligibility_frozen_at = args.eligibility_frozen_at;
          queue_close_at = args.queue_close_at;
          commit_deadline = args.commit_deadline;
          reveal_deadline = args.reveal_deadline;
          start_target_at = args.start_target_at;
          end_target_at = args.end_target_at;
          observation_window_secs = policy.observation_window_secs;
          attestation_grace_secs = source.attestation_grace_secs;
          max_attestor_spread_bps = source.max_attestor_spread_bps;
          eligible_asset_bitmap = empty_bitmap;
          round_asset_count = 0;
          rated_battle_count = 0;
          resolved_battle_count = 0;
          state = preparing;
          is_replay = args.is_replay;
          bump = rt.find_bump (market_round_seed ∷ le_bytes 8 args.round_id ∷ []);
        },
      )

-- The whole instruction: Anchor's constraints, then the handler.
unfoldable pub create_market_round_draft :
    Runtime → CreateMarketRoundDraft → DraftArgs → Result (Config × MarketRound)
unfolding draft_constraints handle_create_market_round_draft
create_market_round_draft rt ctx args = do
  draft_constraints rt ctx args.round_id
  handle_create_market_round_draft rt ctx args
