-- ===== src/Price/Submit.antt =====
-- programs/tickersix/src/instructions/price.rs: `submit_price_attestation`, the message that an
-- attestor signs, and the search for the native Ed25519 instruction that verified it.
mod Signature
unfoldable pub use Signature.*
use tickersix.Base.{ℕ, ◌-◌, Bool, true, false, not, ◌&&◌, ◌==◌, leb, List, [], ◌∷◌, contains}
use tickersix.Base.Int.{ℤ, pos, ltb_ℤ, leb_ℤ}
use tickersix.Errors.{Result, ok, ErrorCode, require, ◌>>◌, ◌>>=◌}
use tickersix.Runtime.{
  Key, Runtime, Clock, Account, NewAccount, le_bytes, key_bytes, seeds_constraint, init_constraint,
}
use tickersix.Constants.{
  market_round_seed, round_asset_seed, settlement_policy_seed, jupiter_source_config_seed,
  quality_policy_seed, attestor_set_seed, price_attestation_seed, attestor_quorum,
}
use tickersix.State.{
  MarketRound, RoundAsset, SettlementPolicy, JupiterSourceConfig, MarketQualityPolicy, AttestorSet,
  PriceAttestation, PricePhase, phase_code, eq_source,
}
use tickersix.Round.Binding.{validate_jupiter_source_binding}
use tickersix.Price.Phase.{phase_window, checked_add_i64}

pub record SubmitPriceAttestation : Type 0 where
  pub round_asset : Account RoundAsset
  pub market_round : Account MarketRound
  pub price_policy : Account SettlementPolicy
  pub jupiter_source_config : Account JupiterSourceConfig
  pub market_quality_policy : Account MarketQualityPolicy
  pub attestor_set : Account AttestorSet
  pub attestor : Key
  pub price_attestation : NewAccount
  -- the instructions of the transaction that precede this one
  pub instructions_sysvar : List Instruction

unfoldable pub submit_constraints :
    Runtime → SubmitPriceAttestation → PricePhase → Result (Unit {0})
unfolding seeds_constraint init_constraint le_bytes key_bytes
submit_constraints rt ctx phase =
    let round = ctx.market_round in
    let asset = ctx.round_asset in
    do
      seeds_constraint rt
          (round_asset_seed ∷ key_bytes round.key ∷ le_bytes 2 asset.account.asset_id ∷ [])
          asset.account.bump asset.key
      require (asset.account.market_round == round.key) ErrorCode.wrong_market_round
      seeds_constraint rt (market_round_seed ∷ le_bytes 8 round.account.round_id ∷ [])
          round.account.bump round.key
      seeds_constraint rt
          (settlement_policy_seed ∷ le_bytes 2 round.account.settlement_policy_version ∷ [])
          ctx.price_policy.account.bump ctx.price_policy.key
      seeds_constraint rt
          (jupiter_source_config_seed ∷ le_bytes 2 round.account.jupiter_source_config_version ∷ [])
          ctx.jupiter_source_config.account.bump ctx.jupiter_source_config.key
      seeds_constraint rt
          (quality_policy_seed ∷ le_bytes 2 round.account.market_quality_policy_version ∷ [])
          ctx.market_quality_policy.account.bump ctx.market_quality_policy.key
      seeds_constraint rt (attestor_set_seed ∷ le_bytes 2 round.account.attestor_set_version ∷ [])
          ctx.attestor_set.account.bump ctx.attestor_set.key
      init_constraint rt
          (price_attestation_seed
            ∷ key_bytes asset.key
            ∷ (phase_code phase ∷ [])
            ∷ key_bytes ctx.attestor
            ∷ [])
          ctx.price_attestation

-- What the handler requires of a report, once the window of the phase is known.
unfoldable pub check_report :
    Clock → SubmitPriceAttestation → Report → ℤ × ℤ → ℤ → Result (Unit {0})
unfolding contains
check_report clock ctx report window submission_deadline =
    let round = ctx.market_round.account in
    let asset = ctx.round_asset.account in
    let policy = ctx.price_policy.account in
    let source = ctx.jupiter_source_config.account in
    let quality = ctx.market_quality_policy.account in
    let set = ctx.attestor_set.account in
    do
      require
          (leb_ℤ window.1 clock.unix_timestamp && leb_ℤ clock.unix_timestamp submission_deadline)
          ErrorCode.attestation_window_closed
      require (leb_ℤ window.0 report.report_created_at && leb_ℤ report.report_created_at window.1)
          ErrorCode.attestation_window_closed
      require (ltb_ℤ (pos 0) report.median_price_q9) ErrorCode.invalid_attestation_evidence
      require
          (leb source.min_accepted_observations report.accepted_observation_count
            && leb source.min_unique_source_blocks report.unique_source_block_count
            && leb report.unique_source_block_count report.accepted_observation_count
            && leb report.first_source_block_id report.last_source_block_id)
          ErrorCode.invalid_attestation_evidence
      require
          (leb report.last_source_block_id clock.slot
            && leb (clock.slot - report.last_source_block_id) source.max_source_block_lag)
          ErrorCode.invalid_attestation_evidence
      require
          (round.price_policy_version == policy.version
            && asset.price_policy_version == policy.version
            && eq_source asset.price_source_kind policy.source_kind)
          ErrorCode.price_policy_mismatch
      require
          (round.market_quality_policy_version == quality.version
            && asset.market_quality_policy_version == quality.version
            && round.market_quality_policy_hash == quality.canonical_policy_hash)
          ErrorCode.quality_policy_mismatch
      require (round.attestor_set_version == set.version) ErrorCode.attestor_set_mismatch
      require (set.quorum == attestor_quorum) ErrorCode.attestor_set_mismatch
      require (contains set.attestors ctx.attestor) ErrorCode.unregistered_attestor

unfoldable pub handle_submit_price_attestation :
    Runtime → Clock → SubmitPriceAttestation → PricePhase → Report → Result PriceAttestation
unfolding phase_window checked_add_i64 check_report
handle_submit_price_attestation rt clock ctx phase report =
    let round = ctx.market_round.account in
    let source = ctx.jupiter_source_config.account in
    do
      validate_jupiter_source_binding round ctx.price_policy.account source ctx.attestor_set.account
          ctx.jupiter_source_config.key
      window ← phase_window round phase
      submission_deadline ← checked_add_i64 window.1 source.attestation_grace_secs
      check_report clock ctx report window submission_deadline
      verify_ed25519_instruction ctx.instructions_sysvar ctx.attestor (
          canonical_attestation_message rt ctx.market_round.key ctx.round_asset.key
            ctx.round_asset.account round.attestor_set_version phase report window.0 window.1)
      ok (record {
        round_asset = ctx.round_asset.key;
        phase = phase;
        attestor = ctx.attestor;
        median_price_q9 = report.median_price_q9;
        accepted_observation_count = report.accepted_observation_count;
        unique_source_block_count = report.unique_source_block_count;
        first_source_block_id = report.first_source_block_id;
        last_source_block_id = report.last_source_block_id;
        evidence_root = report.evidence_root;
        report_created_at = report.report_created_at;
        bump = rt.find_bump (
            price_attestation_seed
            ∷ key_bytes ctx.round_asset.key
            ∷ (phase_code phase ∷ [])
            ∷ key_bytes ctx.attestor
            ∷ []);
      })

unfoldable pub submit_price_attestation :
    Runtime → Clock → SubmitPriceAttestation → PricePhase → Report → Result PriceAttestation
unfolding submit_constraints handle_submit_price_attestation
submit_price_attestation rt clock ctx phase report = do
  submit_constraints rt ctx phase
  handle_submit_price_attestation rt clock ctx phase report
