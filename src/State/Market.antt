-- ===== src/State/Market.antt =====
-- programs/tickersix/src/state.rs: a market round, its assets, and the price reports on them.
use tickersix.Base.{ℕ, Bool}
use tickersix.Base.Int.{ℤ}
use tickersix.Runtime.{Key}
use tickersix.State.Kinds.{
  CompetitionDomain, EvidenceKind, MarketRoundState, PricePhase, ProviderKind, SettlementSourceKind,
}

-- `[u64; 4]`: the words of a set of asset identifiers below 256.
pub record Bitmap : Type 0 where
  pub word_0 : ℕ
  pub word_1 : ℕ
  pub word_2 : ℕ
  pub word_3 : ℕ

pub record MarketRound : Type 0 where
  pub round_id : ℕ  -- u64
  pub registry_version : ℕ  -- u32
  pub competition_domain : CompetitionDomain
  pub settlement_policy_version : ℕ  -- u16
  pub settlement_source_kind : SettlementSourceKind
  pub settlement_source_config : Key
  pub jupiter_source_config_version : ℕ  -- u16
  pub pyth_source_config_version : ℕ  -- u16
  pub price_policy_version : ℕ  -- u16
  pub market_quality_policy_version : ℕ  -- u16
  pub attestor_set_version : ℕ  -- u16
  pub market_quality_policy_hash : Key
  pub eligibility_snapshot_hash : Key
  pub eligibility_frozen_at : ℤ
  pub queue_close_at : ℤ
  pub commit_deadline : ℤ
  pub reveal_deadline : ℤ
  pub start_target_at : ℤ
  pub end_target_at : ℤ
  pub observation_window_secs : ℕ  -- u16
  pub attestation_grace_secs : ℕ  -- u16
  pub max_attestor_spread_bps : ℕ  -- u16
  pub eligible_asset_bitmap : Bitmap
  pub round_asset_count : ℕ  -- u16
  pub rated_battle_count : ℕ  -- u32
  pub resolved_battle_count : ℕ  -- u32
  pub state : MarketRoundState
  pub is_replay : Bool
  pub bump : ℕ  -- u8

pub record RoundAsset : Type 0 where
  pub market_round : Key
  pub asset_id : ℕ  -- u16
  pub scoring_mint : Key
  pub token_program : Key
  pub representation_id : ℕ  -- u32
  pub provider_kind : ProviderKind
  pub pyth_feed_id : ℕ  -- u32
  pub issuer_kind : ℕ  -- u8
  pub settlement_source_kind : SettlementSourceKind
  pub price_source_kind : SettlementSourceKind
  pub settlement_policy_version : ℕ  -- u16
  pub price_policy_version : ℕ  -- u16
  pub market_quality_policy_version : ℕ  -- u16
  pub start_price_q9 : ℤ
  pub start_finalized : Bool
  pub start_unavailable : Bool
  pub start_evidence_kind : EvidenceKind
  pub start_evidence_commitment : Key
  pub end_price_q9 : ℤ
  pub end_finalized : Bool
  pub end_unavailable : Bool
  pub end_evidence_kind : EvidenceKind
  pub end_evidence_commitment : Key
  pub return_q9 : ℤ
  pub available : Bool
  pub bump : ℕ  -- u8

pub record PriceAttestation : Type 0 where
  pub round_asset : Key
  pub phase : PricePhase
  pub attestor : Key
  pub median_price_q9 : ℤ
  pub accepted_observation_count : ℕ  -- u16
  pub unique_source_block_count : ℕ  -- u16
  pub first_source_block_id : ℕ  -- u64
  pub last_source_block_id : ℕ  -- u64
  pub evidence_root : Key
  pub report_created_at : ℤ
  pub bump : ℕ  -- u8

pub record PythPriceEvidence : Type 0 where
  pub round_asset : Key
  pub phase : PricePhase
  pub feed_id : ℕ  -- u32
  pub payload_timestamp_us : ℕ  -- u64
  pub feed_update_timestamp_us : ℕ  -- u64
  pub price_mantissa : ℤ
  pub confidence_mantissa : ℕ  -- u64
  pub exponent : ℤ
  pub normalized_price_q9 : ℤ
  pub payload_hash : Key
  pub bump : ℕ  -- u8
