-- ===== src/State/Policy.antt =====
-- programs/tickersix/src/state.rs: the global configuration, the versioned policies and the asset
-- registry. An unsigned machine integer is a number below its width's bound; an `i64` is a ℤ.
use tickersix.Base.{ℕ, Bool, List}
use tickersix.Base.Int.{ℤ}
use tickersix.Runtime.{Key}
use tickersix.State.Kinds.{
  CompetitionDomain, ComparabilityKind, InstrumentStructureKind, LifecycleState, ProviderKind,
  SettlementSourceKind,
}

pub record RepresentationDescriptor : Type 0 where
  pub registry_version : ℕ  -- u32
  pub asset_id : ℕ  -- u16
  pub representation_id : ℕ  -- u32
  pub provider_kind : ProviderKind
  pub structure_kind : InstrumentStructureKind
  pub scoring_mint : Key
  pub token_program : Key
  pub decimals : ℕ  -- u8
  pub lifecycle_state : LifecycleState
  pub multiplier_policy_version : ℕ  -- u16
  pub comparability_kind : ComparabilityKind
  pub terms_hash : Key
  pub provider_metadata_hash : Key
  pub pyth_feed_id : ℕ  -- u32
  pub enabled : Bool

pub record Config : Type 0 where
  pub admin_authority : Key
  pub coordinator_authority : Key
  pub paused : Bool
  pub current_registry_version : ℕ  -- u32
  pub registry_frozen : Bool
  pub last_market_round_id : ℕ  -- u64
  pub last_market_round_end_at : ℤ
  pub protocol_version : ℕ  -- u16
  pub current_settlement_policy_version : ℕ  -- u16
  pub current_price_policy_version : ℕ  -- u16
  pub current_market_quality_policy_version : ℕ  -- u16
  pub current_attestor_set_version : ℕ  -- u16
  pub current_jupiter_source_config_version : ℕ  -- u16
  pub current_pyth_source_config_version : ℕ  -- u16
  pub bump : ℕ  -- u8

pub record SettlementPolicy : Type 0 where
  pub version : ℕ  -- u16
  pub source_kind : SettlementSourceKind
  pub source_config : Key
  pub observation_window_secs : ℕ  -- u16
  pub canonical_policy_hash : Key
  pub bump : ℕ  -- u8

pub record JupiterSourceConfig : Type 0 where
  pub version : ℕ  -- u16
  pub attestor_set_version : ℕ  -- u16
  pub attestation_grace_secs : ℕ  -- u16
  pub sample_interval_secs : ℕ  -- u16
  pub max_attestor_spread_bps : ℕ  -- u16
  pub min_accepted_observations : ℕ  -- u16
  pub min_unique_source_blocks : ℕ  -- u16
  pub max_source_block_lag : ℕ  -- u64
  pub bump : ℕ  -- u8

pub record PythProSourceConfig : Type 0 where
  pub version : ℕ  -- u16
  pub verifier_program : Key
  pub max_payload_timestamp_delta_us : ℕ  -- u64
  pub max_feed_age_us : ℕ  -- u64
  pub max_confidence_bps : ℕ  -- u16
  pub channel_kind : ℕ  -- u8
  pub canonical_feed_set_hash : Key
  pub bump : ℕ  -- u8

pub record MarketQualityPolicy : Type 0 where
  pub version : ℕ  -- u16
  pub competition_domain : CompetitionDomain
  pub canonical_policy_hash : Key
  pub min_eligible_assets : ℕ  -- u16
  pub bump : ℕ  -- u8

pub record AttestorSet : Type 0 where
  pub version : ℕ  -- u16
  pub attestors : List Key
  pub quorum : ℕ  -- u8
  pub bump : ℕ  -- u8

pub record AssetRegistryEntry : Type 0 where
  pub registry_version : ℕ  -- u32
  pub asset_id : ℕ  -- u16
  pub symbol : List ℕ
  pub scoring_mint : Key
  pub issuer_kind : ℕ  -- u8
  pub descriptor : RepresentationDescriptor
  pub active : Bool
  pub bump : ℕ  -- u8
