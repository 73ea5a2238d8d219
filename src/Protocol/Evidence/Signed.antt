-- ===== src/Protocol/Evidence/Signed.antt =====
-- crates/protocol/src/lib.rs and programs/tickersix/src/instructions/price.rs: the message that an
-- attestor signs is the one that the program verifies.
use tickersix.Base.{ℕ, ◌≡◌, refl, true, contains, arith, by_test, Some}
use mathlib.Core.Path.{subst}
use tickersix.Base.Int.{ℤ}
use tickersix.Errors.{ok, >>=-eq-ok, >>-eq-ok, require-eq-ok}
use tickersix.Runtime.{Key, Runtime, Clock, Bytes}
use tickersix.State.{RoundAsset, PriceAttestation, PricePhase, phase_code}
use tickersix.Round.Binding.{validate_jupiter_source_binding}
use tickersix.Price.Phase.{phase_window, checked_add_i64}
use tickersix.Price.Submit.{
  SubmitPriceAttestation, Report, handle_submit_price_attestation, some_instruction,
  verify_ed25519_instruction, check_report, canonical_attestation_message,
}
use tickersix.Price.Signed.{IsSigned, some_instruction-IsSigned}
use tickersix.Protocol.Evidence.{attestation_message}

-- The message of the services for a report of an asset.
abbrev pub message_of : Runtime → Key → Key → RoundAsset → ℕ → PricePhase → Report → ℤ → ℤ → Bytes
message_of rt round_key asset_key asset set_version phase report window_start window_end =
    attestation_message rt.program_id round_key asset_key asset.asset_id (phase_code phase)
      asset.scoring_mint asset.price_policy_version asset.market_quality_policy_version set_version
      report.median_price_q9 report.accepted_observation_count report.unique_source_block_count
      report.first_source_block_id report.last_source_block_id report.evidence_root window_start
      window_end report.report_created_at

message-agree :
    (rt : Runtime) (round_key asset_key : Key) (asset : RoundAsset) (set_version : ℕ)
    (phase : PricePhase) (report : Report) (s e : ℤ)
    → canonical_attestation_message rt round_key asset_key asset set_version phase report s e
      ≡ message_of rt round_key asset_key asset set_version phase report s e
unfolding canonical_attestation_message attestation_message
message-agree rt round_key asset_key asset set_version phase report s e = refl

check_report-registered :
    (clock : Clock) (ctx : SubmitPriceAttestation) (report : Report) (window : ℤ × ℤ) (deadline : ℤ)
    → check_report clock ctx report window deadline ≡ ok tt
    → contains ctx.attestor_set.account.attestors ctx.attestor ≡ true
unfolding check_report
check_report-registered clock ctx report window deadline h = by_test _ λ e. ground arith

-- A report that the program accepts is of a registered attestor, about the window of the phase, and
-- stored as that attestor's with the reported price. Some earlier instruction of the transaction is of
-- the Ed25519 program and has, among the entries that it counts, one inside the payload whose signature,
-- key and message are all in that instruction: the 64 bytes of the signature within the payload, the key
-- being the attestor's and the message exactly the one that the services build for the report.
pub submit_price_attestation-IsSigned :
    (rt : Runtime) (clock : Clock) (ctx : SubmitPriceAttestation) (phase : PricePhase)
    (report : Report) {written : PriceAttestation}
    → handle_submit_price_attestation rt clock ctx phase report ≡ ok written
    → (window : ℤ × ℤ) × (phase_window ctx.market_round.account phase ≡ ok window)
      × (contains ctx.attestor_set.account.attestors ctx.attestor ≡ true)
      × Some
          (IsSigned ctx.attestor (
            message_of rt ctx.market_round.key ctx.round_asset.key ctx.round_asset.account
              ctx.market_round.account.attestor_set_version phase report window.0 window.1))
          ctx.instructions_sysvar
      × (written.attestor ≡ ctx.attestor)
      × (written.median_price_q9 ≡ report.median_price_q9)
unfolding handle_submit_price_attestation verify_ed25519_instruction
submit_price_attestation-IsSigned rt clock ctx phase report {written} h =
    let round = ctx.market_round.account in
    let source = ctx.jupiter_source_config.account in
    let (_, _, h1) =
      >>=-eq-ok
        (validate_jupiter_source_binding round ctx.price_policy.account source
          ctx.attestor_set.account ctx.jupiter_source_config.key)
        _ h in
    let (window, w, h2) = >>=-eq-ok (phase_window round phase) _ h1 in
    let (deadline, _, h3) =
      >>=-eq-ok (checked_add_i64 window.1 source.attestation_grace_secs) _ h2 in
    let (checked, h4) = >>-eq-ok (check_report clock ctx report window deadline) _ h3 in
    let message =
      canonical_attestation_message rt ctx.market_round.key ctx.round_asset.key
        ctx.round_asset.account round.attestor_set_version phase report window.0 window.1 in
    let (verified, h5) =
      >>-eq-ok (verify_ed25519_instruction ctx.instructions_sysvar ctx.attestor message) _ h4 in
    (
      window,
      w,
      check_report-registered clock ctx report window deadline checked,
      subst (λ m. Some (IsSigned ctx.attestor m) ctx.instructions_sysvar)
          (message-agree rt ctx.market_round.key ctx.round_asset.key ctx.round_asset.account
            round.attestor_set_version phase report window.0 window.1)
          (some_instruction-IsSigned ctx.instructions_sysvar ctx.attestor message (
            require-eq-ok (some_instruction ctx.instructions_sysvar ctx.attestor message) _
              verified)),
      ground arith,
      ground arith,
    )
