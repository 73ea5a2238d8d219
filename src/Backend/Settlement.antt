-- ===== src/Backend/Settlement.antt =====
-- backend/src/settlement.rs: the planner of the steps that settle a round.
mod Snapshot
unfoldable pub use Snapshot.*
pub mod Valid
pub mod Checked
pub mod Plans
pub mod Called
pub mod Progress
use tickersix.Base.{
  ℕ, Bool, true, false, not, ◌&&◌, ◌||◌, ◌==◌, ltb, leb, List, [], ◌∷◌, ◌++◌, if◌then◌else◌,
  contains, length, sort_by,
}
use tickersix.Base.Int.{ℤ, ltb_ℤ}
use tickersix.Math.{sort_unstable}
use tickersix.Outcome.{Outcome, ok, err, require, ◌>>◌, ◌>>=◌}

-- The action of `plan_phase`, by the source and whether there is a quorum.
abbrev pub phase_action : SourceKind → Bool → ℕ → Phase → List SettlementAction
phase_action SourceKind.jupiter_token_spot_v1 true asset_id phase =
    SettlementAction.finalize_jupiter_phase asset_id phase ∷ []
phase_action SourceKind.jupiter_token_spot_v1 false asset_id phase =
    SettlementAction.mark_jupiter_phase_unavailable asset_id phase ∷ []
phase_action SourceKind.pyth_pro_verified_v1 true asset_id phase =
    SettlementAction.finalize_pyth_phase asset_id phase ∷ []
phase_action SourceKind.pyth_pro_verified_v1 false asset_id phase =
    SettlementAction.mark_pyth_phase_unavailable asset_id phase ∷ []
phase_action SourceKind.pyth_247_index_v1 _ _ _ = []
phase_action SourceKind.verified_issuer_oracle_v1 _ _ _ = []

-- What `plan_phase` pushes.
unfoldable pub plan_phase :
    ℕ → Phase → PhaseStatus → ℤ → Bool → ℤ → SourceKind → List SettlementAction
unfolding ltb_ℤ
plan_phase asset_id phase status deadline has_compatible_quorum now source_kind =
    if not (is_pending status) || not (ltb_ℤ deadline now)
    then []
    else phase_action source_kind has_compatible_quorum asset_id phase

module _ (snapshot : SettlementSnapshot) where
  unfoldable pub plan_asset : AssetSettlementState → List SettlementAction
  unfolding plan_phase
  plan_asset asset =
      plan_phase asset.asset_id Phase.start asset.start asset.start_deadline
        asset.start_has_compatible_quorum snapshot.now_unix_secs snapshot.source_kind
      ++ plan_phase asset.asset_id Phase.end asset.end asset.end_deadline
          asset.end_has_compatible_quorum snapshot.now_unix_secs snapshot.source_kind

  unfoldable pub plan_assets : List AssetSettlementState → List SettlementAction
  unfolding plan_asset
  plan_assets [] = []
  plan_assets (asset ∷ assets) = plan_asset asset ++ plan_assets assets

unfoldable pub is_available : List AssetSettlementState → ℕ → Bool
is_available [] asset_id = false
is_available (asset ∷ assets) asset_id =
    (asset.asset_id == asset_id && is_finalized asset.start && is_finalized asset.end)
    || is_available assets asset_id

unfoldable pub all_assets_available : List ℕ → List AssetSettlementState → Bool
unfolding is_available
all_assets_available [] assets = true
all_assets_available (asset_id ∷ asset_ids) assets =
    is_available assets asset_id && all_assets_available asset_ids assets

abbrev pub when : Bool → SettlementAction → List SettlementAction
when true action = action ∷ []
when false action = []

unfoldable pub plan_battle :
    ℤ → List AssetSettlementState → BattleSettlementState → List SettlementAction
unfolding all_assets_available ltb_ℤ
plan_battle now assets battle =
    if not battle.result_pending
    then []
    else if battle.selected_asset_unavailable && (battle.side_a_revealed || battle.side_b_revealed)
    then SettlementAction.void_battle_price_unavailable battle.battle_id ∷ []
    else (if not battle.side_a_revealed || not battle.side_b_revealed
        then when (ltb_ℤ battle.reveal_deadline now)
            (SettlementAction.forfeit_battle battle.battle_id)
        else (if battle.side_a_score_finalized && battle.side_b_score_finalized
            then SettlementAction.finalize_battle battle.battle_id ∷ []
            else (if all_assets_available battle.selected_asset_ids assets
                then when (not battle.side_a_score_finalized)
                    (SettlementAction.settle_side_score battle.battle_id 0)
                  ++ when (not battle.side_b_score_finalized)
                      (SettlementAction.settle_side_score battle.battle_id 1)
                else [])))

unfoldable pub plan_battles :
    ℤ → List AssetSettlementState → List BattleSettlementState → List SettlementAction
unfolding plan_battle
plan_battles now assets [] = []
plan_battles now assets (battle ∷ battles) =
    plan_battle now assets battle ++ plan_battles now assets battles

unfoldable pub all_assets_resolved : List AssetSettlementState → Bool
all_assets_resolved [] = true
all_assets_resolved (asset ∷ assets) =
    not (is_pending asset.start) && not (is_pending asset.end) && all_assets_resolved assets

abbrev pub is_nothing : List SettlementAction → Bool
is_nothing [] = true
is_nothing (action ∷ actions) = false

abbrev pub finalize_round : SourceKind → List SettlementAction
finalize_round SourceKind.jupiter_token_spot_v1 = SettlementAction.finalize_market_round ∷ []
finalize_round SourceKind.pyth_pro_verified_v1 = SettlementAction.finalize_pyth_market_round ∷ []
finalize_round SourceKind.pyth_247_index_v1 = []
finalize_round SourceKind.verified_issuer_oracle_v1 = []

unfoldable pub asset_lt : AssetSettlementState → AssetSettlementState → Bool
asset_lt a b = ltb a.asset_id b.asset_id

unfoldable pub battle_lt : BattleSettlementState → BattleSettlementState → Bool
battle_lt a b = ltb a.battle_id b.battle_id

-- The actions of a round that is being settled.
unfoldable pub plan_settling : SettlementSnapshot → List SettlementAction
unfolding sort_by asset_lt battle_lt plan_assets plan_battles all_assets_resolved
plan_settling snapshot =
    let assets = sort_by asset_lt snapshot.assets in
    let battles = sort_by battle_lt snapshot.battles in
    let actions =
      plan_assets snapshot assets ++ plan_battles snapshot.now_unix_secs assets battles in
    if all_assets_resolved assets
      && snapshot.resolved_battle_count == snapshot.rated_battle_count
      && is_nothing actions
    then actions ++ finalize_round snapshot.source_kind
    else actions

abbrev pub plan_state : RoundState → SettlementSnapshot → List SettlementAction
plan_state RoundState.ended snapshot = SettlementAction.advance_round_to_settling ∷ []
plan_state RoundState.settling snapshot = plan_settling snapshot
plan_state RoundState.finalized snapshot = []
plan_state RoundState.voided snapshot = []

unfoldable pub plan_settlement :
    SettlementSnapshot → Outcome SettlementError (List SettlementAction)
unfolding validate_snapshot plan_settling
plan_settlement snapshot = do
  validate_snapshot snapshot
  ok (plan_state snapshot.round_state snapshot)
