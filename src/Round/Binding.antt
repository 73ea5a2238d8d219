-- ===== src/Round/Binding.antt =====
-- programs/tickersix/src/instructions/round.rs: the checks that its handlers share.
use tickersix.Base.{not, ◌&&◌, ◌==◌}
use tickersix.Errors.{Result, ErrorCode, require, ◌>>◌}
use tickersix.Runtime.{Key, default_key, require_keys_eq}
use tickersix.State.{
  Config, MarketRound, SettlementPolicy, JupiterSourceConfig, AttestorSet, eq_source,
  jupiter_token_spot_v1,
}

unfoldable pub require_coordinator : Config → Key → Result (Unit {0})
require_coordinator config signer =
    require_keys_eq config.coordinator_authority signer ErrorCode.unauthorized_coordinator

unfoldable pub validate_eligibility_snapshot_hash : Key → Result (Unit {0})
validate_eligibility_snapshot_hash hash =
    require (not (hash == default_key)) ErrorCode.invalid_eligibility_snapshot

unfoldable pub validate_jupiter_policy_binding :
    MarketRound → SettlementPolicy → JupiterSourceConfig → Key → Result (Unit {0})
validate_jupiter_policy_binding round policy jupiter_config jupiter_config_key = do
  require
      (eq_source round.settlement_source_kind jupiter_token_spot_v1
        && eq_source policy.source_kind jupiter_token_spot_v1)
      ErrorCode.unsupported_settlement_source
  require
      (round.settlement_policy_version == policy.version
        && round.price_policy_version == policy.version
        && round.settlement_source_config == jupiter_config_key
        && policy.source_config == jupiter_config_key
        && round.jupiter_source_config_version == jupiter_config.version)
      ErrorCode.source_config_mismatch

unfoldable pub validate_jupiter_source_binding :
    MarketRound → SettlementPolicy → JupiterSourceConfig → AttestorSet → Key → Result (Unit {0})
unfolding validate_jupiter_policy_binding
validate_jupiter_source_binding round policy jupiter_config attestor_set jupiter_config_key = do
  validate_jupiter_policy_binding round policy jupiter_config jupiter_config_key
  require
      (jupiter_config.attestor_set_version == attestor_set.version
        && round.attestor_set_version == attestor_set.version)
      ErrorCode.source_config_mismatch
