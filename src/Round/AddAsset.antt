-- ===== src/Round/AddAsset.antt =====
-- programs/tickersix/src/instructions/round.rs: `add_round_asset`.
use tickersix.Base.{ℕ, ◌+◌, Bool, not, ◌&&◌, ◌==◌, ltb, List, [], ◌∷◌}
use tickersix.Base.Int.{pos}
use tickersix.Errors.{Result, ok, ErrorCode, require, ◌>>◌, ◌>>=◌}
use tickersix.Runtime.{
  Key, Runtime, Account, NewAccount, le_bytes, key_bytes, require_keys_eq, seeds_constraint,
  init_constraint,
}
use tickersix.Accounts.{AccountInfo}
use tickersix.Constants.{
  config_seed, market_round_seed, settlement_policy_seed, jupiter_source_config_seed,
  quality_policy_seed, asset_seed, round_asset_seed, max_eligible_assets, has_asset, add_asset,
}
use tickersix.State.{
  Config, MarketRound, SettlementPolicy, JupiterSourceConfig, MarketQualityPolicy, RoundAsset,
  AssetRegistryEntry, SettlementSourceKind, eq_source, eq_round_state, preparing, is_active,
  is_unsupported, no_evidence,
}
use tickersix.Round.Universe.{validate_round_assets, deserialize_asset}

pub record AddRoundAsset : Type 0 where
  pub config : Account Config
  pub market_round : Account MarketRound
  pub coordinator : Key
  pub round_asset : NewAccount
  pub registry_entry : Account AssetRegistryEntry
  pub price_policy : Account SettlementPolicy
  pub jupiter_source_config : Account JupiterSourceConfig
  pub market_quality_policy : Account MarketQualityPolicy
  pub remaining_accounts : List AccountInfo

-- The arguments of the instruction.
pub record AssetArgs : Type 0 where
  pub asset_id : ℕ  -- u16
  pub scoring_mint : Key
  pub issuer_kind : ℕ  -- u8
  pub price_source_kind : SettlementSourceKind
  pub price_policy_version : ℕ  -- u16
  pub market_quality_policy_version : ℕ  -- u16

-- The `#[account(...)]` constraints of `AddRoundAsset`.
unfoldable pub add_asset_constraints : Runtime → AddRoundAsset → ℕ → Result (Unit {0})
unfolding seeds_constraint init_constraint le_bytes key_bytes
add_asset_constraints rt ctx asset_id =
    let round = ctx.market_round.account in
    let entry = ctx.registry_entry.account in
    do
      seeds_constraint rt (config_seed ∷ []) ctx.config.account.bump ctx.config.key
      seeds_constraint rt (market_round_seed ∷ le_bytes 8 round.round_id ∷ []) round.bump
          ctx.market_round.key
      init_constraint rt
          (round_asset_seed ∷ key_bytes ctx.market_round.key ∷ le_bytes 2 asset_id ∷ [])
          ctx.round_asset
      seeds_constraint rt
          (asset_seed ∷ le_bytes 4 round.registry_version ∷ le_bytes 2 asset_id ∷ []) entry.bump
          ctx.registry_entry.key
      require (entry.registry_version == round.registry_version) ErrorCode.invalid_registry_version
      require (entry.asset_id == asset_id) ErrorCode.invalid_asset_id
      seeds_constraint rt (settlement_policy_seed ∷ le_bytes 2 round.settlement_policy_version ∷ [])
          ctx.price_policy.account.bump ctx.price_policy.key
      seeds_constraint rt
          (jupiter_source_config_seed ∷ le_bytes 2 round.jupiter_source_config_version ∷ [])
          ctx.jupiter_source_config.account.bump ctx.jupiter_source_config.key
      seeds_constraint rt
          (quality_policy_seed ∷ le_bytes 2 round.market_quality_policy_version ∷ [])
          ctx.market_quality_policy.account.bump ctx.market_quality_policy.key

-- The loop over the existing assets that looks for the new mint.
unfoldable pub require_new_mint : Key → List AccountInfo → Result (Unit {0})
require_new_mint mint [] = ok tt
require_new_mint mint (info ∷ infos) = do
  existing ← deserialize_asset info ErrorCode.duplicate_round_asset
  require (not (existing.scoring_mint == mint)) ErrorCode.duplicate_round_asset
  require_new_mint mint infos

-- The round asset as the handler writes it.
unfoldable pub new_round_asset : Runtime → AddRoundAsset → AssetArgs → RoundAsset
unfolding le_bytes key_bytes
new_round_asset rt ctx args =
    let descriptor = ctx.registry_entry.account.descriptor in
    record {
      market_round = ctx.market_round.key;
      asset_id = args.asset_id;
      scoring_mint = args.scoring_mint;
      token_program = descriptor.token_program;
      representation_id = descriptor.representation_id;
      provider_kind = descriptor.provider_kind;
      pyth_feed_id = descriptor.pyth_feed_id;
      issuer_kind = args.issuer_kind;
      settlement_source_kind = args.price_source_kind;
      price_source_kind = args.price_source_kind;
      settlement_policy_version = args.price_policy_version;
      price_policy_version = args.price_policy_version;
      market_quality_policy_version = args.market_quality_policy_version;
      start_price_q9 = pos 0;
      start_finalized = Bool.false;
      start_unavailable = Bool.false;
      start_evidence_kind = no_evidence;
      start_evidence_commitment = 0;
      end_price_q9 = pos 0;
      end_finalized = Bool.false;
      end_unavailable = Bool.false;
      end_evidence_kind = no_evidence;
      end_evidence_commitment = 0;
      return_q9 = pos 0;
      available = Bool.false;
      bump =
          rt.find_bump
            (round_asset_seed ∷ key_bytes ctx.market_round.key ∷ le_bytes 2 args.asset_id ∷ []);
    }

-- The changed round and the new asset.
unfoldable pub handle_add_round_asset :
    Runtime → AddRoundAsset → AssetArgs → Result (MarketRound × RoundAsset)
unfolding validate_round_assets require_new_mint new_round_asset has_asset add_asset
handle_add_round_asset rt ctx args =
    let config = ctx.config.account in
    let round = ctx.market_round.account in
    let entry = ctx.registry_entry.account in
    let policy = ctx.price_policy.account in
    let source_key = ctx.jupiter_source_config.key in
    do
      require_keys_eq config.coordinator_authority ctx.coordinator
          ErrorCode.unauthorized_coordinator
      require (not config.paused) ErrorCode.protocol_paused
      require (eq_round_state round.state preparing) ErrorCode.invalid_round_state
      require (ltb args.asset_id max_eligible_assets) ErrorCode.invalid_asset_id
      require entry.active ErrorCode.registry_entry_mismatch
      require (args.scoring_mint == entry.scoring_mint && args.issuer_kind == entry.issuer_kind)
          ErrorCode.registry_entry_mismatch
      require
          (args.price_policy_version == round.price_policy_version
            && args.market_quality_policy_version == round.market_quality_policy_version)
          ErrorCode.invalid_policy_version
      require (eq_source args.price_source_kind policy.source_kind) ErrorCode.price_policy_mismatch
      require
          (eq_source round.settlement_source_kind args.price_source_kind
            && round.settlement_policy_version == policy.version
            && round.settlement_source_config == source_key
            && policy.source_config == source_key)
          ErrorCode.source_config_mismatch
      require
          (entry.descriptor.enabled
            && is_active entry.descriptor.lifecycle_state
            && not (is_unsupported entry.descriptor.comparability_kind)
            && entry.descriptor.registry_version == round.registry_version
            && entry.descriptor.asset_id == args.asset_id)
          ErrorCode.registry_entry_mismatch
      require (ltb round.round_asset_count max_eligible_assets)
          ErrorCode.insufficient_eligible_assets
      validate_round_assets rt ctx.market_round.key round policy ctx.market_quality_policy.account
          ctx.remaining_accounts round.round_asset_count
      require_new_mint args.scoring_mint ctx.remaining_accounts
      require (not (has_asset round.eligible_asset_bitmap args.asset_id))
          ErrorCode.duplicate_round_asset
      ok (
        record round {
          eligible_asset_bitmap = add_asset round.eligible_asset_bitmap args.asset_id;
          round_asset_count = round.round_asset_count + 1;
        },
        new_round_asset rt ctx args,
      )

-- The whole instruction.
unfoldable pub add_round_asset :
    Runtime → AddRoundAsset → AssetArgs → Result (MarketRound × RoundAsset)
unfolding add_asset_constraints handle_add_round_asset
add_round_asset rt ctx args = do
  add_asset_constraints rt ctx args.asset_id
  handle_add_round_asset rt ctx args
