-- ===== src/Tests/Prices.antt =====
-- Runs of the quorum of reports and of the price phases of an asset.
use tickersix.Round.Binding.{validate_jupiter_source_binding}
use tickersix.Base.{ℕ, ◌+◌, ◌≡◌, refl, true, false, List, [], ◌∷◌, All, arith}
use tickersix.Base.Int.{pos, ltb_ℤ}
use tickersix.Errors.{Result, ok, is_ok}
use tickersix.Runtime.{Key}
use tickersix.Accounts.{AccountInfo, attestation_data, empty}
use tickersix.State.{RoundAsset, PricePhase, start, end, settling}
use tickersix.Price.Quorum.{
  AttestationSummary, QuorumResult, choose_compatible_quorum, combinations, subset_price,
  sort_by_attestor,
}
use tickersix.Price.Quorum.Best.{IsBest, choose_compatible_quorum-IsBest}
use tickersix.Price.Quorum.Bounds.{IsQuorum, choose_compatible_quorum-IsQuorum}
use tickersix.Price.Reports.{
  report_address, read_attestation_summaries, require_all_report_accounts_present,
}
use tickersix.Price.Phase.{
  PricePhaseAccounts, handle_finalize_price_phase, handle_mark_price_phase_unavailable,
  phase_is_finalized, phase_is_unavailable, write_price,
}
use tickersix.Price.Resolved.{
  IsAsset, is_resolved, finalize_price_phase-IsAsset, mark_price_phase-IsAsset,
  mark_price_phase-stuck,
}
use tickersix.Price.Supplied.{IsSupplied, AreDistinct}
use tickersix.Price.Finalized.{price_of, finalize_price_phase-IsQuorum}
use tickersix.Tests.Sample.{
  rt, policy, source, quality, attestors, round_in, source_key, asset_key, open_asset, at,
}

abbrev pub summary : Key → ℕ → AttestationSummary
summary who price = record { attestor = who; price_q9 = pos price; evidence_root = 500 + who }

-- The third report is too far from the others.
abbrev pub summaries : List AttestationSummary
summaries =
    summary 11 100_000_000_000 ∷ summary 12 100_100_000_000 ∷ summary 13 150_000_000_000 ∷ []

abbrev chosen : QuorumResult
chosen = record {
  selected = summary 11 100_000_000_000 ∷ summary 12 100_100_000_000 ∷ [];
  finalized_price_q9 = pos 100_050_000_000;
  spread_bps = 9;
}

chosen-ok : choose_compatible_quorum summaries 100 ≡ ok chosen
unfolding choose_compatible_quorum subset_price sort_by_attestor
chosen-ok = refl

choose_compatible_quorum-IsBest_example : IsBest 100 summaries (combinations summaries) chosen
choose_compatible_quorum-IsBest_example = choose_compatible_quorum-IsBest 100 summaries chosen-ok

choose_compatible_quorum-IsQuorum_example : IsQuorum 100 chosen
choose_compatible_quorum-IsQuorum_example =
    choose_compatible_quorum-IsQuorum summaries 100 chosen-ok

-- The account of a report.
unfoldable report_info : PricePhase → Key → ℕ → AccountInfo
unfolding report_address asset_key
report_info phase who price = record {
  key = report_address rt (asset_key 0) phase who;
  owner = 99;
  data_of = attestation_data (record {
    round_asset = asset_key 0;
    phase = phase;
    attestor = who;
    median_price_q9 = pos price;
    accepted_observation_count = 5;
    unique_source_block_count = 4;
    first_source_block_id = 10;
    last_source_block_id = 20;
    evidence_root = 500 + who;
    report_created_at = pos 520;
    bump = 255;
  });
}

unfoldable missing_info : PricePhase → Key → AccountInfo
unfolding report_address asset_key
missing_info phase who = record {
  key = report_address rt (asset_key 0) phase who;
  owner = 0;
  data_of = empty;
}

unfoldable reports_of : PricePhase → List AccountInfo
unfolding report_info
reports_of phase =
    report_info phase 11 100_000_000_000
    ∷ report_info phase 12 100_100_000_000
    ∷ report_info phase 13 150_000_000_000
    ∷ []

abbrev phase_ctx : RoundAsset → List AccountInfo → PricePhaseAccounts
phase_ctx asset infos = record {
  round_asset = record { key = asset_key 0; account = asset };
  market_round = round_in settling 0 0;
  price_policy = policy;
  jupiter_source_config = source;
  attestor_set = attestors;
  remaining_accounts = infos;
}

abbrev pub value_or {ℓ} : {A : Type ℓ} → Result A → A → A
value_or (ok a) d = a
value_or _ d = d

abbrev priced : RoundAsset
priced =
    value_or
      (handle_finalize_price_phase rt (at 700) (phase_ctx (open_asset 0) (reports_of start)) quality
        start)
      (open_asset 0)

priced-ok :
    handle_finalize_price_phase rt
      (at 700)
      (phase_ctx (open_asset 0) (reports_of start))
      quality
      start
    ≡ ok priced
unfolding handle_finalize_price_phase reports_of validate_jupiter_source_binding source_key ltb_ℤ
    read_attestation_summaries choose_compatible_quorum subset_price write_price
priced-ok = refl

open-valid : IsAsset (open_asset 0)
open-valid = ground arith

finalize_price_phase-IsAsset_example :
    IsAsset priced
    × (is_resolved (open_asset 0) start ≡ false)
    × (phase_is_finalized priced start ≡ true)
finalize_price_phase-IsAsset_example =
    finalize_price_phase-IsAsset rt (at 700) (phase_ctx (open_asset 0) (reports_of start)) quality
      start priced-ok open-valid

finalize_price_phase-IsQuorum_example :
    (quorum : QuorumResult) × All
      (IsSupplied rt (asset_key 0) start attestors.account (reports_of start))
      quorum.selected
    × AreDistinct quorum.selected
    × IsQuorum 100 quorum
    × (price_of priced start ≡ quorum.finalized_price_q9)
    × (reports : List AttestationSummary) × (read_attestation_summaries rt
          (asset_key 0)
          start
          attestors.account
          source.account
          (reports_of start)
        ≡ ok reports)
    × IsBest 100 reports (combinations reports) quorum
finalize_price_phase-IsQuorum_example =
    finalize_price_phase-IsQuorum rt (at 700) (phase_ctx (open_asset 0) (reports_of start)) quality
      start priced-ok

unfoldable none_reported : List AccountInfo
unfolding missing_info
none_reported = missing_info start 11 ∷ missing_info start 12 ∷ missing_info start 13 ∷ []

abbrev unpriced : RoundAsset
unpriced = record (open_asset 0) { start_unavailable = true }

unpriced-ok :
    handle_mark_price_phase_unavailable rt (at 700) (phase_ctx (open_asset 0) none_reported) start
    ≡ ok unpriced
unfolding handle_mark_price_phase_unavailable none_reported validate_jupiter_source_binding
    source_key ltb_ℤ require_all_report_accounts_present read_attestation_summaries
    choose_compatible_quorum
unpriced-ok = refl

mark_price_phase-IsAsset_example :
    IsAsset unpriced
    × (is_resolved (open_asset 0) start ≡ false)
    × (phase_is_unavailable unpriced start ≡ true)
    × (unpriced.available ≡ false)
mark_price_phase-IsAsset_example =
    mark_price_phase-IsAsset rt (at 700) (phase_ctx (open_asset 0) none_reported) start unpriced-ok
      open-valid

mark_price_phase-stuck_example :
    is_ok
      (handle_finalize_price_phase rt (at 800) (phase_ctx unpriced (reports_of end)) quality end)
    ≡ false
mark_price_phase-stuck_example =
    mark_price_phase-stuck rt (at 700) (at 800) (phase_ctx (open_asset 0) none_reported)
      (phase_ctx unpriced (reports_of end)) quality end open-valid unpriced-ok
