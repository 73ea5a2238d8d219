-- ===== src/Price/Resolved.antt =====
-- programs/tickersix/src/instructions/price.rs and round.rs: the two price phases of an asset, from
-- its creation to their resolution.
use tickersix.Base.{◌≡◌, inl, inr, Bool, true, false, ◌&&◌, ◌||◌, List, arith}
use tickersix.Base.Int.{ℤ}
use tickersix.Errors.{ok, is_ok, Result-cases}
use tickersix.Runtime.{Key, Runtime, Clock, Account}
use tickersix.State.{RoundAsset, PricePhase, start, end, MarketRound, MarketQualityPolicy}
use tickersix.Math.{return_q9}
use tickersix.Round.AddAsset.{AddRoundAsset, AssetArgs, handle_add_round_asset, new_round_asset}
use tickersix.Price.Phase.{
  PricePhaseAccounts, handle_finalize_price_phase, handle_mark_price_phase_unavailable,
  phase_is_finalized, phase_is_unavailable, write_price, write_unavailable,
}
use tickersix.Price.Quorum.{AttestationSummary, QuorumResult, choose_compatible_quorum}
use tickersix.Price.Reports.{read_attestation_summaries, selected_evidence_commitment}

-- No phase has both outcomes, the end is priced after the start, an asset is available when both
-- phases are priced, and its return is that of its prices.
pub record IsAsset (asset : RoundAsset) : Type 0 where
  pub start_exclusive : asset.start_finalized ≡ true → asset.start_unavailable ≡ false
  pub end_exclusive : asset.end_finalized ≡ true → asset.end_unavailable ≡ false
  pub end_after_start : asset.end_finalized ≡ true → asset.start_finalized ≡ true
  pub available_both : asset.available ≡ (asset.start_finalized && asset.end_finalized)
  pub return_of_prices :
      asset.end_finalized ≡ true
      → return_q9 asset.start_price_q9 asset.end_price_q9 ≡ ok asset.return_q9

unfoldable pub is_resolved : RoundAsset → PricePhase → Bool
is_resolved asset phase = phase_is_finalized asset phase || phase_is_unavailable asset phase

pub write_price-IsAsset :
    (asset : RoundAsset) (phase : PricePhase) (price : ℤ) (commitment : Key) {after : RoundAsset}
    → IsAsset asset
    → is_resolved asset phase ≡ false
    → (phase ≡ end → asset.start_finalized ≡ true)
    → write_price asset phase price commitment ≡ ok after
    → IsAsset after
unfolding is_resolved write_price
write_price-IsAsset asset start price commitment v r s h = ground arith
write_price-IsAsset asset end price commitment v r s h = ground arith

-- A finalisation writes the price of the quorum of the reports that it read.
pub finalize_inversion :
    (rt : Runtime) (clock : Clock) (ctx : PricePhaseAccounts)
    (quality : Account MarketQualityPolicy) (phase : PricePhase) {after : RoundAsset}
    → handle_finalize_price_phase rt clock ctx quality phase ≡ ok after
    → (is_resolved ctx.round_asset.account phase ≡ false)
      × (phase ≡ end → ctx.round_asset.account.start_finalized ≡ true)
      × (reports : List AttestationSummary) × (quorum : QuorumResult) × (read_attestation_summaries
            rt ctx.round_asset.key phase ctx.attestor_set.account ctx.jupiter_source_config.account
            ctx.remaining_accounts
          ≡ ok reports)
      × (choose_compatible_quorum reports ctx.market_round.account.max_attestor_spread_bps
          ≡ ok quorum)
      × (write_price ctx.round_asset.account phase quorum.finalized_price_q9
            (selected_evidence_commitment rt ctx.round_asset.key phase quorum.selected)
          ≡ ok after)
unfolding is_resolved handle_finalize_price_phase
finalize_inversion rt clock ctx quality phase h =
    elim (Result-cases (
      read_attestation_summaries rt ctx.round_asset.key phase ctx.attestor_set.account
        ctx.jupiter_source_config.account ctx.remaining_accounts)) [
          | inl (reports, e) ↦
              elim (Result-cases (
                choose_compatible_quorum reports
                  ctx.market_round.account.max_attestor_spread_bps)) [
                    | inl (quorum, f) ↦
                        (ground arith, ground arith, reports, quorum, e, f, ground arith)
                    | inr f ↦ absurd (ground arith)
                  ]
          | inr e ↦ absurd (ground arith)
        ]

pub mark_inversion :
    (rt : Runtime) (clock : Clock) (ctx : PricePhaseAccounts) (phase : PricePhase)
    {after : RoundAsset}
    → handle_mark_price_phase_unavailable rt clock ctx phase ≡ ok after
    → (is_resolved ctx.round_asset.account phase ≡ false)
      × (after ≡ write_unavailable ctx.round_asset.account phase)
unfolding is_resolved handle_mark_price_phase_unavailable
mark_inversion rt clock ctx start h = ground arith
mark_inversion rt clock ctx end h = ground arith

write_price-finalized :
    (asset : RoundAsset) (phase : PricePhase) (price : ℤ) (commitment : Key) {after : RoundAsset}
    → write_price asset phase price commitment ≡ ok after
    → phase_is_finalized after phase ≡ true
unfolding write_price
write_price-finalized asset start price commitment h = ground arith
write_price-finalized asset end price commitment h = ground arith

write_unavailable-IsAsset :
    (asset : RoundAsset) (phase : PricePhase) {after : RoundAsset}
    → after ≡ write_unavailable asset phase
    → IsAsset asset
    → is_resolved asset phase ≡ false
    → IsAsset after
      × (is_resolved asset phase ≡ false)
      × (phase_is_unavailable after phase ≡ true)
      × (after.available ≡ false)
unfolding is_resolved
write_unavailable-IsAsset asset start h v r = ground arith
write_unavailable-IsAsset asset end h v r = ground arith

-- An asset whose start is unavailable cannot have a phase finalised.
finalize-stuck :
    (rt : Runtime) (clock : Clock) (ctx : PricePhaseAccounts)
    (quality : Account MarketQualityPolicy) (phase : PricePhase)
    → IsAsset ctx.round_asset.account
    → ctx.round_asset.account.start_unavailable ≡ true
    → is_ok (handle_finalize_price_phase rt clock ctx quality phase) ≡ false
unfolding handle_finalize_price_phase
finalize-stuck rt clock ctx quality start v u = ground arith
finalize-stuck rt clock ctx quality end v u = ground arith

-- An asset that is added to a round satisfies the invariant of its phases: both are open.
pub add_round_asset-IsAsset :
    (rt : Runtime) (ctx : AddRoundAsset) (args : AssetArgs) {round : MarketRound}
    {asset : RoundAsset}
    → handle_add_round_asset rt ctx args ≡ ok (round, asset)
    → IsAsset asset × (is_resolved asset start ≡ false) × (is_resolved asset end ≡ false)
unfolding handle_add_round_asset is_resolved new_round_asset
add_round_asset-IsAsset rt ctx args h = ground arith

-- When finalising a price phase succeeds, the asset keeps its invariant (no phase is both priced and
-- unavailable, the end is priced only after the start, available exactly when both are priced, and the
-- stored return is the return of the stored prices), the phase was open, and it is now priced.
pub finalize_price_phase-IsAsset :
    (rt : Runtime) (clock : Clock) (ctx : PricePhaseAccounts)
    (quality : Account MarketQualityPolicy) (phase : PricePhase) {after : RoundAsset}
    → handle_finalize_price_phase rt clock ctx quality phase ≡ ok after
    → IsAsset ctx.round_asset.account
    → IsAsset after
      × (is_resolved ctx.round_asset.account phase ≡ false)
      × (phase_is_finalized after phase ≡ true)
finalize_price_phase-IsAsset rt clock ctx quality phase h v =
    let (r, s, _, quorum, _, _, w) = finalize_inversion rt clock ctx quality phase h in
    let commitment = selected_evidence_commitment rt ctx.round_asset.key phase quorum.selected in
    (
      write_price-IsAsset ctx.round_asset.account phase quorum.finalized_price_q9 commitment v r s
          w,
      r,
      write_price-finalized ctx.round_asset.account phase quorum.finalized_price_q9 commitment w,
    )

-- When marking a price phase unavailable succeeds, the asset keeps the invariant of its phases, the
-- phase was open, it is now unavailable, and the asset cannot be scored.
pub mark_price_phase-IsAsset :
    (rt : Runtime) (clock : Clock) (ctx : PricePhaseAccounts) (phase : PricePhase)
    {after : RoundAsset}
    → handle_mark_price_phase_unavailable rt clock ctx phase ≡ ok after
    → IsAsset ctx.round_asset.account
    → IsAsset after
      × (is_resolved ctx.round_asset.account phase ≡ false)
      × (phase_is_unavailable after phase ≡ true)
      × (after.available ≡ false)
mark_price_phase-IsAsset rt clock ctx phase h v =
    let (r, w) = mark_inversion rt clock ctx phase h in
    write_unavailable-IsAsset ctx.round_asset.account phase w v r

-- Once the start of an asset that satisfies the invariant has been marked unavailable, finalising its
-- start or its end fails: at any time, for any accounts with the asset as it was left.
pub mark_price_phase-stuck :
    (rt : Runtime) (clock later : Clock) (ctx ctx' : PricePhaseAccounts)
    (quality : Account MarketQualityPolicy) (phase : PricePhase)
    → IsAsset ctx.round_asset.account
    → handle_mark_price_phase_unavailable rt clock ctx start ≡ ok ctx'.round_asset.account
    → is_ok (handle_finalize_price_phase rt later ctx' quality phase) ≡ false
mark_price_phase-stuck rt clock later ctx ctx' quality phase v h =
    let (marked, _, unavailable, _) = mark_price_phase-IsAsset rt clock ctx start h v in
    finalize-stuck rt later ctx' quality phase marked unavailable
