-- ===== src/Tests/Sample.antt =====
-- A runtime whose addresses and hashes are small sums, and sample accounts of the program.
use tickersix.Base.{ℕ, ◌+◌, ◌*◌, ◌%◌, true, false, List, [], ◌∷◌, map}
use tickersix.Base.Int.{pos}
use tickersix.Runtime.{Key, Bytes, Runtime, Clock, Account, le_bytes, key_bytes}
use tickersix.Accounts.{AccountInfo, round_asset_data}
use tickersix.State.{
  Config, MarketRound, MarketRoundState, RoundAsset, SettlementPolicy, JupiterSourceConfig,
  MarketQualityPolicy, AttestorSet, public_equity, jupiter_token_spot_v1, x_stocks, no_evidence,
}
use tickersix.Constants.{
  config_seed, settlement_policy_seed, jupiter_source_config_seed, quality_policy_seed,
  attestor_set_seed, market_round_seed, round_asset_seed, battle_seed, rated_slot_seed,
}

mix_bytes : ℕ → Bytes → ℕ
mix_bytes acc [] = acc
mix_bytes acc (b ∷ bs) = mix_bytes ((acc * 31 + b + 1) % 1_000_003) bs

mix : ℕ → List Bytes → ℕ
mix acc [] = acc
mix acc (bs ∷ rest) = mix (mix_bytes acc bs) rest

unfoldable pub address : List Bytes → ℕ
unfolding mix mix_bytes
address seeds = mix 7 seeds

unfoldable pub hash : Bytes → ℕ
unfolding mix_bytes
hash bs = mix_bytes 5 bs + 1

abbrev pub rt : Runtime
rt = record {
  program_id = 99;
  find_program_address = address;
  find_bump = λ seeds. 255;
  create_program_address = λ seeds bump. address seeds;
  sha256 = hash;
}

-- The addresses.
unfoldable pub config_key : Key
unfolding address
config_key = address (config_seed ∷ [])

unfoldable pub round_key : Key
unfolding address le_bytes
round_key = address (market_round_seed ∷ le_bytes 8 1 ∷ [])

unfoldable pub policy_key : Key
unfolding address le_bytes
policy_key = address (settlement_policy_seed ∷ le_bytes 2 1 ∷ [])

unfoldable pub source_key : Key
unfolding address le_bytes
source_key = address (jupiter_source_config_seed ∷ le_bytes 2 1 ∷ [])

unfoldable pub quality_key : Key
unfolding address le_bytes
quality_key = address (quality_policy_seed ∷ le_bytes 2 1 ∷ [])

unfoldable pub set_key : Key
unfolding address le_bytes
set_key = address (attestor_set_seed ∷ le_bytes 2 1 ∷ [])

unfoldable pub battle_key : ℕ → Key
unfolding address le_bytes key_bytes round_key
battle_key i = address (battle_seed ∷ key_bytes round_key ∷ le_bytes 8 i ∷ [])

unfoldable pub slot_key : Key → Key
unfolding address key_bytes round_key
slot_key player = address (rated_slot_seed ∷ key_bytes round_key ∷ key_bytes player ∷ [])

unfoldable pub asset_key : ℕ → Key
unfolding address le_bytes key_bytes round_key
asset_key i = address (round_asset_seed ∷ key_bytes round_key ∷ le_bytes 2 i ∷ [])

abbrev pub config : Account Config
config = record {
  key = config_key;
  account = record {
    admin_authority = 1;
    coordinator_authority = 2;
    paused = false;
    current_registry_version = 1;
    registry_frozen = true;
    last_market_round_id = 0;
    last_market_round_end_at = pos 0;
    protocol_version = 2;
    current_settlement_policy_version = 1;
    current_price_policy_version = 1;
    current_market_quality_policy_version = 1;
    current_attestor_set_version = 1;
    current_jupiter_source_config_version = 1;
    current_pyth_source_config_version = 0;
    bump = 255;
  };
}

abbrev pub policy : Account SettlementPolicy
policy = record {
  key = policy_key;
  account = record {
    version = 1;
    source_kind = jupiter_token_spot_v1;
    source_config = source_key;
    observation_window_secs = 60;
    canonical_policy_hash = 5;
    bump = 255;
  };
}

abbrev pub source : Account JupiterSourceConfig
source = record {
  key = source_key;
  account = record {
    version = 1;
    attestor_set_version = 1;
    attestation_grace_secs = 30;
    sample_interval_secs = 2;
    max_attestor_spread_bps = 100;
    min_accepted_observations = 3;
    min_unique_source_blocks = 2;
    max_source_block_lag = 10;
    bump = 255;
  };
}

abbrev pub quality : Account MarketQualityPolicy
quality = record {
  key = quality_key;
  account = record {
    version = 1;
    competition_domain = public_equity;
    canonical_policy_hash = 6;
    min_eligible_assets = 6;
    bump = 255;
  };
}

abbrev pub attestors : Account AttestorSet
attestors = record {
  key = set_key;
  account = record { version = 1; attestors = 11 ∷ 12 ∷ 13 ∷ []; quorum = 2; bump = 255 };
}

-- The round, in a state and with its counts.
abbrev pub round_in : MarketRoundState → ℕ → ℕ → Account MarketRound
round_in state rated resolved = record {
  key = round_key;
  account = record {
    round_id = 1;
    registry_version = 1;
    competition_domain = public_equity;
    settlement_policy_version = 1;
    settlement_source_kind = jupiter_token_spot_v1;
    settlement_source_config = source_key;
    jupiter_source_config_version = 1;
    pyth_source_config_version = 0;
    price_policy_version = 1;
    market_quality_policy_version = 1;
    attestor_set_version = 1;
    market_quality_policy_hash = 6;
    eligibility_snapshot_hash = 8;
    eligibility_frozen_at = pos 100;
    queue_close_at = pos 200;
    commit_deadline = pos 300;
    reveal_deadline = pos 400;
    start_target_at = pos 500;
    end_target_at = pos 600;
    observation_window_secs = 60;
    attestation_grace_secs = 30;
    max_attestor_spread_bps = 100;
    eligible_asset_bitmap = record { word_0 = 63; word_1 = 0; word_2 = 0; word_3 = 0 };
    round_asset_count = 6;
    rated_battle_count = rated;
    resolved_battle_count = resolved;
    state = state;
    is_replay = false;
    bump = 255;
  };
}

-- An asset of the round whose phases are open.
abbrev pub open_asset : ℕ → RoundAsset
open_asset i = record {
  market_round = round_key;
  asset_id = i;
  scoring_mint = 1000 + i;
  token_program = 3;
  representation_id = 2000 + i;
  provider_kind = x_stocks;
  pyth_feed_id = 0;
  issuer_kind = 1;
  settlement_source_kind = jupiter_token_spot_v1;
  price_source_kind = jupiter_token_spot_v1;
  settlement_policy_version = 1;
  price_policy_version = 1;
  market_quality_policy_version = 1;
  start_price_q9 = pos 0;
  start_finalized = false;
  start_unavailable = false;
  start_evidence_kind = no_evidence;
  start_evidence_commitment = 0;
  end_price_q9 = pos 0;
  end_finalized = false;
  end_unavailable = false;
  end_evidence_kind = no_evidence;
  end_evidence_commitment = 0;
  return_q9 = pos 0;
  available = false;
  bump = 255;
}

-- An asset with both prices: 100 at the start, 110 at the end.
abbrev pub priced_asset : ℕ → RoundAsset
priced_asset i = record (open_asset i) {
  start_price_q9 = pos 100_000_000_000;
  start_finalized = true;
  end_price_q9 = pos 110_000_000_000;
  end_finalized = true;
  return_q9 = pos 100_000_000;
  available = true;
}

abbrev pub asset_info : RoundAsset → AccountInfo
asset_info a = record { key = asset_key a.asset_id; owner = 99; data_of = round_asset_data a }

abbrev pub priced_infos : List AccountInfo
priced_infos = map (λ i. asset_info (priced_asset i)) (0 ∷ 1 ∷ 2 ∷ 3 ∷ 4 ∷ 5 ∷ [])

abbrev pub at : ℕ → Clock
at t = record { unix_timestamp = pos t; slot = t }
