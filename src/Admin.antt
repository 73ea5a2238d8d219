-- ===== src/Admin.antt =====
-- programs/tickersix/src/instructions/admin.rs: the configuration, and the policies and sets that the
-- administrator creates under increasing versions.
pub mod Registry
pub mod Versions
use tickersix.Base.{ℕ, Bool, true, false, not, ◌&&◌, ◌==◌, ltb, leb, List, [], ◌∷◌}
use tickersix.Base.Int.{pos}
use tickersix.Errors.{Result, ok, ErrorCode, require, ◌>>◌, ◌>>=◌}
use tickersix.Runtime.{Key, Runtime, default_key, le_bytes, require_keys_eq}
use tickersix.Constants.{
  config_seed, settlement_policy_seed, jupiter_source_config_seed, quality_policy_seed,
  attestor_set_seed, protocol_version, attestor_quorum, max_assets_per_registry,
}
use tickersix.State.{
  Config, SettlementPolicy, SettlementSourceKind, JupiterSourceConfig, MarketQualityPolicy,
  AttestorSet, CompetitionDomain, eq_source, jupiter_token_spot_v1,
}

unfoldable pub require_admin : Config → Key → Result (Unit {0})
require_admin config signer =
    require_keys_eq config.admin_authority signer ErrorCode.unauthorized_admin

unfoldable pub handle_initialize_config : Runtime → Key → Config
handle_initialize_config rt payer = record {
  admin_authority = payer;
  coordinator_authority = payer;
  paused = false;
  current_registry_version = 0;
  registry_frozen = false;
  last_market_round_id = 0;
  last_market_round_end_at = pos 0;
  protocol_version = protocol_version;
  current_settlement_policy_version = 0;
  current_price_policy_version = 0;
  current_market_quality_policy_version = 0;
  current_attestor_set_version = 0;
  current_jupiter_source_config_version = 0;
  current_pyth_source_config_version = 0;
  bump = rt.find_bump (config_seed ∷ []);
}

unfoldable pub handle_rotate_admin : Config → Key → Key → Result Config
unfolding require_admin
handle_rotate_admin config admin new_admin = do
  require_admin config admin
  require (not (new_admin == default_key)) ErrorCode.unauthorized_admin
  ok (record config { admin_authority = new_admin })

unfoldable pub handle_rotate_coordinator : Config → Key → Key → Result Config
unfolding require_admin
handle_rotate_coordinator config admin new_coordinator = do
  require_admin config admin
  require (not (new_coordinator == default_key)) ErrorCode.unauthorized_coordinator
  ok (record config { coordinator_authority = new_coordinator })

unfoldable pub handle_set_pause : Config → Key → Bool → Result Config
unfolding require_admin
handle_set_pause config admin paused = do
  require_admin config admin
  ok (record config { paused = paused })

-- The arguments of `create_price_policy`.
pub record PolicyArgs : Type 0 where
  pub version : ℕ  -- u16
  pub source_kind : SettlementSourceKind
  pub observation_window_secs : ℕ  -- u16
  pub attestation_grace_secs : ℕ  -- u16
  pub sample_interval_secs : ℕ  -- u16
  pub max_attestor_spread_bps : ℕ  -- u16
  pub min_accepted_observations : ℕ  -- u16
  pub min_unique_source_blocks : ℕ  -- u16
  pub max_source_block_lag : ℕ  -- u64
  pub canonical_policy_hash : Key
  pub source_config : Key

unfoldable pub handle_create_price_policy :
    Runtime → Config → Key → PolicyArgs → Result (Config × SettlementPolicy)
unfolding require_admin le_bytes
handle_create_price_policy rt config payer args = do
  require_admin config payer
  require (ltb config.current_settlement_policy_version args.version)
      ErrorCode.invalid_policy_version
  require (eq_source args.source_kind jupiter_token_spot_v1) ErrorCode.unsupported_settlement_source
  require_keys_eq args.source_config
      (rt.find_program_address (jupiter_source_config_seed ∷ le_bytes 2 args.version ∷ []))
      ErrorCode.source_config_mismatch
  require
      (ltb 0 args.observation_window_secs
        && ltb 0 args.attestation_grace_secs
        && ltb 0 args.sample_interval_secs
        && leb args.sample_interval_secs args.observation_window_secs
        && ltb 0 args.max_attestor_spread_bps
        && leb args.max_attestor_spread_bps 10000
        && ltb 0 args.min_accepted_observations
        && ltb 0 args.min_unique_source_blocks
        && leb args.min_unique_source_blocks args.min_accepted_observations
        && ltb 0 args.max_source_block_lag)
      ErrorCode.uncalibrated_policy
  require (not (args.canonical_policy_hash == 0)) ErrorCode.uncalibrated_policy
  ok (
    record config {
      current_settlement_policy_version = args.version;
      current_price_policy_version = args.version;
    },
    record {
      version = args.version;
      source_kind = args.source_kind;
      source_config = args.source_config;
      observation_window_secs = args.observation_window_secs;
      canonical_policy_hash = args.canonical_policy_hash;
      bump = rt.find_bump (settlement_policy_seed ∷ le_bytes 2 args.version ∷ []);
    },
  )

-- The arguments of `create_jupiter_source_config`.
pub record SourceArgs : Type 0 where
  pub version : ℕ  -- u16
  pub attestation_grace_secs : ℕ  -- u16
  pub sample_interval_secs : ℕ  -- u16
  pub max_attestor_spread_bps : ℕ  -- u16
  pub min_accepted_observations : ℕ  -- u16
  pub min_unique_source_blocks : ℕ  -- u16
  pub max_source_block_lag : ℕ  -- u64

unfoldable pub handle_create_jupiter_source_config :
    Runtime → Config → Key → AttestorSet → SourceArgs → Result (Config × JupiterSourceConfig)
unfolding require_admin le_bytes
handle_create_jupiter_source_config rt config payer attestor_set args = do
  require_admin config payer
  require (ltb config.current_jupiter_source_config_version args.version)
      ErrorCode.invalid_policy_version
  require
      (ltb 0 args.attestation_grace_secs
        && ltb 0 args.sample_interval_secs
        && ltb 0 args.max_attestor_spread_bps
        && leb args.max_attestor_spread_bps 10000
        && ltb 0 args.min_accepted_observations
        && ltb 0 args.min_unique_source_blocks
        && leb args.min_unique_source_blocks args.min_accepted_observations
        && ltb 0 args.max_source_block_lag)
      ErrorCode.uncalibrated_policy
  ok (
    record config { current_jupiter_source_config_version = args.version },
    record {
      version = args.version;
      attestor_set_version = attestor_set.version;
      attestation_grace_secs = args.attestation_grace_secs;
      sample_interval_secs = args.sample_interval_secs;
      max_attestor_spread_bps = args.max_attestor_spread_bps;
      min_accepted_observations = args.min_accepted_observations;
      min_unique_source_blocks = args.min_unique_source_blocks;
      max_source_block_lag = args.max_source_block_lag;
      bump = rt.find_bump (jupiter_source_config_seed ∷ le_bytes 2 args.version ∷ []);
    },
  )

unfoldable pub handle_create_market_quality_policy :
    Runtime → Config → Key → ℕ → Key → ℕ → CompetitionDomain → Result (Config × MarketQualityPolicy)
unfolding require_admin le_bytes
handle_create_market_quality_policy rt config payer version hash min_eligible_assets domain = do
  require_admin config payer
  require (ltb config.current_market_quality_policy_version version)
      ErrorCode.invalid_policy_version
  require (not (hash == 0)) ErrorCode.uncalibrated_policy
  require (leb 6 min_eligible_assets && leb min_eligible_assets max_assets_per_registry)
      ErrorCode.insufficient_eligible_assets
  ok (
    record config { current_market_quality_policy_version = version },
    record {
      version = version;
      competition_domain = domain;
      canonical_policy_hash = hash;
      min_eligible_assets = min_eligible_assets;
      bump = rt.find_bump (quality_policy_seed ∷ le_bytes 2 version ∷ []);
    },
  )

-- The three attestors of the array.
unfoldable pub handle_create_attestor_set :
    Runtime → Config → Key → ℕ → Key → Key → Key → Result (Config × AttestorSet)
unfolding require_admin le_bytes
handle_create_attestor_set rt config payer version x y z = do
  require_admin config payer
  require (ltb config.current_attestor_set_version version) ErrorCode.invalid_policy_version
  require
      (not (x == default_key)
        && not (y == default_key)
        && not (z == default_key)
        && not (x == y)
        && not (x == z)
        && not (y == z))
      ErrorCode.invalid_attestor_set
  ok (
    record config { current_attestor_set_version = version },
    record {
      version = version;
      attestors = x ∷ y ∷ z ∷ [];
      quorum = attestor_quorum;
      bump = rt.find_bump (attestor_set_seed ∷ le_bytes 2 version ∷ []);
    },
  )
