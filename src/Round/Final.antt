-- ===== src/Round/Final.antt =====
-- programs/tickersix/src/instructions/round.rs: what a finalised round was.
use tickersix.Base.{
  ◌≡◌, sym, Bool, true, false, ◌||◌, List, [], ◌∷◌, some, All, if◌then◌else◌, arith, inl, inr,
  by_test, ◌==◌,
}
use tickersix.Errors.{ok, Result-cases}
use tickersix.Runtime.{Runtime}
use tickersix.Accounts.{AccountInfo, as_round_asset}
use tickersix.State.{MarketRound, RoundAsset, finalized, voided, settling, eq_round_state}
use tickersix.Round.Universe.{validate_round_assets}
use tickersix.Round.Assets.{IsUniverse, AreMembers, validate_round_assets-IsUniverse}
use tickersix.Round.Lifecycle.{round_is_voided, FinalizeMarketRound, handle_finalize_market_round}

-- Each phase of the asset is priced or unavailable.
abbrev pub IsSettled : RoundAsset → Type 0
IsSettled a =
    ((a.start_finalized || a.start_unavailable) ≡ true)
    × ((a.end_finalized || a.end_unavailable) ≡ true)

unfoldable pub any_unavailable : List RoundAsset → Bool
any_unavailable [] = false
any_unavailable (a ∷ as') = (a.start_unavailable || a.end_unavailable) || any_unavailable as'

-- The accounts hold these assets.
abbrev Hold : List AccountInfo → List RoundAsset → Type 0
Hold [] [] = Unit
Hold (i ∷ is) (a ∷ as') = (as_round_asset i.data_of ≡ some a) × Hold is as'
Hold _ _ = ⊥

voided_step :
    (i : AccountInfo) (is : List AccountInfo) (a : RoundAsset) (so_far : Bool) {result : Bool}
    → as_round_asset i.data_of ≡ some a
    → round_is_voided (i ∷ is) so_far ≡ ok result
    → IsSettled a
      × (round_is_voided is (so_far || (a.start_unavailable || a.end_unavailable)) ≡ ok result)
unfolding round_is_voided
voided_step i is a so_far e h = ground (arith, e)

voided_scan :
    (infos : List AccountInfo) (assets : List RoundAsset) (so_far : Bool) {result : Bool}
    → Hold infos assets
    → round_is_voided infos so_far ≡ ok result
    → All IsSettled assets × (result ≡ (so_far || any_unavailable assets))
unfolding round_is_voided any_unavailable
voided_scan [] [] so_far m h = (tt, ground arith)
voided_scan [] (a ∷ as') so_far m h = absurd m
voided_scan (i ∷ is) [] so_far m h = absurd m
voided_scan (i ∷ is) (a ∷ as') so_far m h =
    let e : as_round_asset i.data_of ≡ some a = m.0 in
    let (settled, rest) = voided_step i is a so_far e h in
    let (all, r) =
      voided_scan is as' (so_far || (a.start_unavailable || a.end_unavailable)) m.1 rest in
    ((settled, all), ground (arith, r))

Hold-members :
    (rt : Runtime) (ctx : FinalizeMarketRound) (infos : List AccountInfo) (assets : List RoundAsset)
    → AreMembers rt ctx.market_round.key ctx.market_round.account ctx.price_policy.account
        ctx.market_quality_policy.account infos assets
    → Hold infos assets
Hold-members rt ctx [] [] m = tt
Hold-members rt ctx [] (a ∷ as') m = m
Hold-members rt ctx (i ∷ is) [] m = m
Hold-members rt ctx (i ∷ is) (a ∷ as') m = (m.0.is_asset, Hold-members rt ctx is as' m.1)

finalize_inversion :
    (rt : Runtime) (ctx : FinalizeMarketRound) {round : MarketRound}
    → handle_finalize_market_round rt ctx ≡ ok round
    → (eq_round_state ctx.market_round.account.state settling ≡ true)
      × ((ctx.market_round.account.rated_battle_count
            == ctx.market_round.account.resolved_battle_count)
          ≡ true)
      × (validate_round_assets rt ctx.market_round.key ctx.market_round.account
            ctx.price_policy.account ctx.market_quality_policy.account ctx.remaining_accounts
            ctx.market_round.account.round_asset_count
          ≡ ok tt)
      × (is_voided : Bool) × (round_is_voided ctx.remaining_accounts false ≡ ok is_voided)
      × (round.state ≡ (if is_voided then voided else finalized))
unfolding handle_finalize_market_round
finalize_inversion rt ctx h = elim (Result-cases (round_is_voided ctx.remaining_accounts false)) [
  | inl (is_voided, e) ↦ (
    by_test _ λ k. ground arith,
    by_test _ λ k. ground arith,
    ground arith,
    is_voided,
    e,
    ground arith,
  )
  | inr e ↦ absurd (ground arith)
]

-- When a round is finalised, it was settling, every rated battle counted in it was counted as
-- resolved, the supplied assets were its whole universe, both phases of each were priced or
-- unavailable, and it is now voided if some phase was unavailable and finalised otherwise.
pub finalize_market_round-outcome :
    (rt : Runtime) (ctx : FinalizeMarketRound) {round : MarketRound}
    → handle_finalize_market_round rt ctx ≡ ok round
    → (eq_round_state ctx.market_round.account.state settling ≡ true)
      × (ctx.market_round.account.rated_battle_count
          ≡ ctx.market_round.account.resolved_battle_count)
      × (assets : List RoundAsset) × IsUniverse rt ctx.market_round.key ctx.market_round.account
          ctx.price_policy.account ctx.market_quality_policy.account ctx.remaining_accounts
          ctx.market_round.account.round_asset_count assets
      × All IsSettled assets
      × (round.state ≡ (if any_unavailable assets then voided else finalized))
finalize_market_round-outcome rt ctx {round} h =
    let (settling', counts, valid, is_voided, e, state) = finalize_inversion rt ctx h in
    let (assets, u) =
      validate_round_assets-IsUniverse rt ctx.market_round.key ctx.market_round.account
        ctx.price_policy.account ctx.market_quality_policy.account ctx.remaining_accounts
        ctx.market_round.account.round_asset_count valid in
    let (settled, v) =
      voided_scan ctx.remaining_accounts assets false
        (Hold-members rt ctx ctx.remaining_accounts assets u.all_members) e in
    (settling', ground arith, assets, u, settled, rw (sym v) state)
