-- ===== src/Price/Phase.antt =====
-- programs/tickersix/src/instructions/price.rs: finalising a price phase of an asset, and marking it
-- unavailable.
use tickersix.Base.{ℕ, Bool, true, false, not, ◌&&◌, ◌==◌, List, [], ◌∷◌, if◌then◌else◌, length}
use tickersix.Base.Int.{ℤ, pos, ltb_ℤ, ◌+ℤ◌}
use tickersix.Errors.{Result, ok, ErrorCode, require, is_ok, ◌>>◌, ◌>>=◌}
use tickersix.Runtime.{Key, Runtime, Clock, Account, le_bytes, key_bytes, seeds_constraint}
use tickersix.Accounts.{AccountInfo}
use tickersix.Constants.{
  market_round_seed, round_asset_seed, settlement_policy_seed, jupiter_source_config_seed,
  quality_policy_seed, attestor_set_seed, attestor_quorum, attestor_count,
}
use tickersix.State.{
  MarketRound, RoundAsset, SettlementPolicy, JupiterSourceConfig, MarketQualityPolicy, AttestorSet,
  PricePhase, start, end, eq_source, jupiter_attestation_v1,
}
use tickersix.Math.{return_q9, try_i64}
use tickersix.Round.Binding.{validate_jupiter_source_binding}
use tickersix.Price.Quorum.{choose_compatible_quorum}
use tickersix.Price.Reports.{
  read_attestation_summaries, require_all_report_accounts_present, selected_evidence_commitment,
}

-- `MarkPricePhaseUnavailable`; `FinalizePricePhase` also has the quality policy, which its
-- instruction takes as an argument of its own.
pub record PricePhaseAccounts : Type 0 where
  pub round_asset : Account RoundAsset
  pub market_round : Account MarketRound
  pub price_policy : Account SettlementPolicy
  pub jupiter_source_config : Account JupiterSourceConfig
  pub attestor_set : Account AttestorSet
  pub remaining_accounts : List AccountInfo

abbrev pub phase_target : MarketRound → PricePhase → ℤ
phase_target round start = round.start_target_at
phase_target round end = round.end_target_at

-- `checked_add` of an `i64` and a number of seconds.
unfoldable pub checked_add_i64 : ℤ → ℕ → Result ℤ
unfolding ◌+ℤ◌ try_i64
checked_add_i64 a secs = try_i64 (a +ℤ pos secs)

unfoldable pub phase_window : MarketRound → PricePhase → Result (ℤ × ℤ)
unfolding checked_add_i64
phase_window round phase = do
  window_end ← checked_add_i64 (phase_target round phase) round.observation_window_secs
  ok (phase_target round phase, window_end)

abbrev pub phase_is_finalized : RoundAsset → PricePhase → Bool
phase_is_finalized asset start = asset.start_finalized
phase_is_finalized asset end = asset.end_finalized

abbrev pub phase_is_unavailable : RoundAsset → PricePhase → Bool
phase_is_unavailable asset start = asset.start_unavailable
phase_is_unavailable asset end = asset.end_unavailable

-- The constraints that both instructions share.
unfoldable pub phase_constraints : Runtime → PricePhaseAccounts → Result (Unit {0})
unfolding seeds_constraint le_bytes key_bytes
phase_constraints rt ctx =
    let round = ctx.market_round in
    let asset = ctx.round_asset in
    do
      seeds_constraint rt
          (round_asset_seed ∷ key_bytes round.key ∷ le_bytes 2 asset.account.asset_id ∷ [])
          asset.account.bump asset.key
      require (asset.account.market_round == round.key) ErrorCode.wrong_market_round
      seeds_constraint rt (market_round_seed ∷ le_bytes 8 round.account.round_id ∷ [])
          round.account.bump round.key
      seeds_constraint rt
          (settlement_policy_seed ∷ le_bytes 2 round.account.settlement_policy_version ∷ [])
          ctx.price_policy.account.bump ctx.price_policy.key
      seeds_constraint rt
          (jupiter_source_config_seed ∷ le_bytes 2 round.account.jupiter_source_config_version ∷ [])
          ctx.jupiter_source_config.account.bump ctx.jupiter_source_config.key
      seeds_constraint rt (attestor_set_seed ∷ le_bytes 2 round.account.attestor_set_version ∷ [])
          ctx.attestor_set.account.bump ctx.attestor_set.key

unfoldable pub quality_constraint :
    Runtime → PricePhaseAccounts → Account MarketQualityPolicy → Result (Unit {0})
unfolding seeds_constraint le_bytes
quality_constraint rt ctx quality =
    seeds_constraint rt
      (quality_policy_seed ∷ le_bytes 2 ctx.market_round.account.market_quality_policy_version ∷ [])
      quality.account.bump quality.key

-- The last block: an asset with both prices is available.
abbrev pub refresh_available : RoundAsset → RoundAsset
refresh_available asset =
    if asset.start_finalized && asset.end_finalized
    then record asset { available = true }
    else asset

-- The `match phase` that writes the price of the quorum.
unfoldable pub write_price : RoundAsset → PricePhase → ℤ → Key → Result RoundAsset
write_price asset start price commitment = ok (
    refresh_available (record asset {
      start_price_q9 = price;
      start_finalized = true;
      start_unavailable = false;
      start_evidence_kind = jupiter_attestation_v1;
      start_evidence_commitment = commitment;
    }))
write_price asset end price commitment = do
  r ← return_q9 asset.start_price_q9 price
  ok (
      refresh_available (record asset {
        end_price_q9 = price;
        end_finalized = true;
        end_unavailable = false;
        end_evidence_kind = jupiter_attestation_v1;
        end_evidence_commitment = commitment;
        return_q9 = r;
      }))

-- `if phase == PricePhase::End { require!(start_finalized) }`.
abbrev pub start_resolved : RoundAsset → PricePhase → Bool
start_resolved asset start = true
start_resolved asset end = asset.start_finalized

unfoldable pub handle_finalize_price_phase :
    Runtime
    → Clock
    → PricePhaseAccounts
    → Account MarketQualityPolicy
    → PricePhase
    → Result RoundAsset
unfolding phase_window checked_add_i64
handle_finalize_price_phase rt clock ctx market_quality_policy phase =
    let round = ctx.market_round.account in
    let asset = ctx.round_asset.account in
    let policy = ctx.price_policy.account in
    let source = ctx.jupiter_source_config.account in
    let quality = market_quality_policy.account in
    let set = ctx.attestor_set.account in
    do
      validate_jupiter_source_binding round policy source set ctx.jupiter_source_config.key
      window ← phase_window round phase
      deadline ← checked_add_i64 window.1 source.attestation_grace_secs
      require (ltb_ℤ deadline clock.unix_timestamp) ErrorCode.attestation_window_closed
      require
          (asset.price_policy_version == policy.version
            && round.price_policy_version == policy.version
            && eq_source asset.price_source_kind policy.source_kind)
          ErrorCode.price_policy_mismatch
      require
          (round.market_quality_policy_version == quality.version
            && asset.market_quality_policy_version == quality.version
            && round.market_quality_policy_hash == quality.canonical_policy_hash)
          ErrorCode.quality_policy_mismatch
      require (round.attestor_set_version == set.version && set.quorum == attestor_quorum)
          ErrorCode.attestor_set_mismatch
      require (not (phase_is_finalized asset phase) && not (phase_is_unavailable asset phase))
          ErrorCode.price_phase_resolved
      require (start_resolved asset phase) ErrorCode.invalid_battle_state
      reports ←
          read_attestation_summaries rt ctx.round_asset.key phase set source ctx.remaining_accounts
      quorum ← choose_compatible_quorum reports round.max_attestor_spread_bps
      write_price asset phase quorum.finalized_price_q9
          (selected_evidence_commitment rt ctx.round_asset.key phase quorum.selected)

unfoldable pub finalize_price_phase :
    Runtime
    → Clock
    → PricePhaseAccounts
    → Account MarketQualityPolicy
    → PricePhase
    → Result RoundAsset
unfolding phase_constraints quality_constraint handle_finalize_price_phase
finalize_price_phase rt clock ctx quality phase = do
  phase_constraints rt ctx
  quality_constraint rt ctx quality
  handle_finalize_price_phase rt clock ctx quality phase

abbrev pub write_unavailable : RoundAsset → PricePhase → RoundAsset
write_unavailable asset start = record asset { start_unavailable = true; available = false }
write_unavailable asset end = record asset { end_unavailable = true; available = false }

unfoldable pub handle_mark_price_phase_unavailable :
    Runtime → Clock → PricePhaseAccounts → PricePhase → Result RoundAsset
unfolding checked_add_i64
handle_mark_price_phase_unavailable rt clock ctx phase =
    let round = ctx.market_round.account in
    let asset = ctx.round_asset.account in
    let policy = ctx.price_policy.account in
    let source = ctx.jupiter_source_config.account in
    let set = ctx.attestor_set.account in
    do
      validate_jupiter_source_binding round policy source set ctx.jupiter_source_config.key
      window_end ← checked_add_i64 (phase_target round phase) round.observation_window_secs
      deadline ← checked_add_i64 window_end round.attestation_grace_secs
      require (ltb_ℤ deadline clock.unix_timestamp) ErrorCode.attestation_window_closed
      require (not (phase_is_finalized asset phase) && not (phase_is_unavailable asset phase))
          ErrorCode.price_phase_resolved
      require
          (asset.price_policy_version == policy.version
            && round.price_policy_version == policy.version
            && eq_source asset.price_source_kind policy.source_kind)
          ErrorCode.price_policy_mismatch
      require (round.attestor_set_version == set.version && set.quorum == attestor_quorum)
          ErrorCode.attestor_set_mismatch
      require (length ctx.remaining_accounts == attestor_count) ErrorCode.invalid_attestation
      require_all_report_accounts_present rt ctx.remaining_accounts ctx.round_asset.key phase
          set.attestors
      reports ←
          read_attestation_summaries rt ctx.round_asset.key phase set source ctx.remaining_accounts
      require (not (is_ok (choose_compatible_quorum reports round.max_attestor_spread_bps)))
          ErrorCode.no_compatible_quorum
      ok (write_unavailable asset phase)

unfoldable pub mark_price_phase_unavailable :
    Runtime → Clock → PricePhaseAccounts → PricePhase → Result RoundAsset
unfolding phase_constraints handle_mark_price_phase_unavailable
mark_price_phase_unavailable rt clock ctx phase = do
  phase_constraints rt ctx
  handle_mark_price_phase_unavailable rt clock ctx phase
