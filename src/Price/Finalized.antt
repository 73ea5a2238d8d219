-- ===== src/Price/Finalized.antt =====
-- programs/tickersix/src/instructions/price.rs: the price that a finalised phase has.
use tickersix.Base.{◌≡◌, List, All, arith}
use tickersix.Base.Int.{ℤ}
use tickersix.Errors.{ok}
use tickersix.Runtime.{Key, Runtime, Clock, Account}
use tickersix.State.{RoundAsset, MarketQualityPolicy, PricePhase, start, end}
use tickersix.Price.Phase.{PricePhaseAccounts, handle_finalize_price_phase, write_price}
use tickersix.Price.Quorum.{AttestationSummary, QuorumResult, combinations}
use tickersix.Price.Quorum.Best.{IsBest, choose_compatible_quorum-IsBest}
use tickersix.Price.Quorum.Bounds.{IsQuorum, choose_compatible_quorum-IsQuorum}
use tickersix.Price.Quorum.Members.{choose_compatible_quorum-All}
use tickersix.Price.Reports.{read_attestation_summaries, selected_evidence_commitment}
use tickersix.Price.Supplied.{IsSupplied, AreDistinct, read_attestation_summaries-IsSupplied}
use tickersix.Price.Resolved.{finalize_inversion}

-- The price of a phase.
unfoldable pub price_of : RoundAsset → PricePhase → ℤ
price_of asset start = asset.start_price_q9
price_of asset end = asset.end_price_q9

write_price-price :
    (asset : RoundAsset) (phase : PricePhase) (price : ℤ) (commitment : Key) {after : RoundAsset}
    → write_price asset phase price commitment ≡ ok after
    → price_of after phase ≡ price
unfolding write_price price_of
write_price-price asset start price commitment h = ground arith
write_price-price asset end price commitment h = ground arith

-- When finalising a price phase succeeds, the stored price is that of a quorum of the supplied reports.
-- Each report of the quorum is held by one of the supplied accounts, which the program owns, at the
-- address of the report of a registered attestor on this phase of the asset, and no two are of the same
-- attestor. They are two at least, with positive prices and a spread within the round's limit, and the
-- stored price lies within any bounds of their prices. No candidate of the reports that were read is
-- better than the quorum.
pub finalize_price_phase-IsQuorum :
    (rt : Runtime) (clock : Clock) (ctx : PricePhaseAccounts)
    (quality : Account MarketQualityPolicy) (phase : PricePhase) {after : RoundAsset}
    → handle_finalize_price_phase rt clock ctx quality phase ≡ ok after
    → (quorum : QuorumResult) × All
        (IsSupplied rt ctx.round_asset.key phase ctx.attestor_set.account ctx.remaining_accounts)
        quorum.selected
      × AreDistinct quorum.selected
      × IsQuorum ctx.market_round.account.max_attestor_spread_bps quorum
      × (price_of after phase ≡ quorum.finalized_price_q9)
      × (reports : List AttestationSummary) × (read_attestation_summaries rt ctx.round_asset.key
            phase ctx.attestor_set.account ctx.jupiter_source_config.account ctx.remaining_accounts
          ≡ ok reports)
      × IsBest ctx.market_round.account.max_attestor_spread_bps reports
          (combinations reports)
          quorum
finalize_price_phase-IsQuorum rt clock ctx quality phase h =
    let (_, _, reports, quorum, e, f, w) = finalize_inversion rt clock ctx quality phase h in
    let spread = ctx.market_round.account.max_attestor_spread_bps in
    let set = ctx.attestor_set.account in
    let (supplied, distinct) =
      read_attestation_summaries-IsSupplied rt ctx.round_asset.key phase set
        ctx.jupiter_source_config.account ctx.remaining_accounts e in
    let (members, fewer) =
      choose_compatible_quorum-All
        (IsSupplied rt ctx.round_asset.key phase set ctx.remaining_accounts) reports spread f
        supplied in
    (
      quorum,
      members,
      λ key. omega (arith, fewer key, distinct key),
      choose_compatible_quorum-IsQuorum reports spread f,
      write_price-price ctx.round_asset.account phase quorum.finalized_price_q9
          (selected_evidence_commitment rt ctx.round_asset.key phase quorum.selected) w,
      reports,
      e,
      choose_compatible_quorum-IsBest spread reports f,
    )
