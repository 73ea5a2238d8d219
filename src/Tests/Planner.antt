-- ===== src/Tests/Planner.antt =====
-- Runs of the planner of backend/src/settlement.rs.
use tickersix.Base.{ℕ, ◌≡◌, refl, true, false, List, [], ◌∷◌, arith, All, inr, inl, map}
use tickersix.Base.Int.{pos}
use tickersix.Outcome.{ok}
use tickersix.Backend.Settlement.{
  SourceKind, Phase, RoundState, PhaseStatus, AssetSettlementState, BattleSettlementState,
  SettlementSnapshot, SettlementAction, plan_settlement, is_nothing, all_assets_available,
}
use tickersix.Backend.Settlement.Plans.{CalledFor}
use tickersix.Backend.Settlement.Called.{plan_settlement-called}
use tickersix.Backend.Settlement.Progress.{plan_settlement-progress}
use tickersix.Backend.Settlement.Checked.{IsSnapshot, plan_settlement-IsSnapshot}

abbrev asset : ℕ → PhaseStatus → AssetSettlementState
asset i end_status = record {
  asset_id = i;
  start = PhaseStatus.finalized;
  start_deadline = pos 100;
  start_has_compatible_quorum = true;
  end = end_status;
  end_deadline = pos 200;
  end_has_compatible_quorum = false;
}

abbrev battle : BattleSettlementState
battle = record {
  battle_id = 8;
  result_pending = true;
  reveal_deadline = pos 50;
  side_a_revealed = true;
  side_b_revealed = true;
  side_a_score_finalized = true;
  side_b_score_finalized = false;
  selected_asset_ids = 5 ∷ 4 ∷ 3 ∷ 2 ∷ 1 ∷ 0 ∷ [];
  selected_asset_unavailable = false;
}

abbrev snapshot : PhaseStatus → SettlementSnapshot
snapshot end_status = record {
  source_kind = SourceKind.jupiter_token_spot_v1;
  pyth_gate_0b_verified = false;
  now_unix_secs = pos 300;
  round_state = RoundState.settling;
  rated_battle_count = 1;
  resolved_battle_count = 0;
  assets =
      asset 6 end_status ∷ map (λ i. asset i PhaseStatus.finalized) (5 ∷ 4 ∷ 3 ∷ 2 ∷ 1 ∷ 0 ∷ []);
  battles = battle ∷ [];
}

abbrev plan : List SettlementAction
plan =
    SettlementAction.mark_jupiter_phase_unavailable 6 Phase.end
    ∷ SettlementAction.settle_side_score 8 1
    ∷ []

plan-ok : plan_settlement (snapshot PhaseStatus.pending) ≡ ok plan
unfolding plan_settlement
plan-ok = refl

plan_settlement-called_example : All (CalledFor (snapshot PhaseStatus.pending)) plan
plan_settlement-called_example = plan_settlement-called (snapshot PhaseStatus.pending) plan-ok

plan_settlement-IsSnapshot_example : IsSnapshot (snapshot PhaseStatus.pending)
plan_settlement-IsSnapshot_example =
    plan_settlement-IsSnapshot (snapshot PhaseStatus.pending) plan-ok

assets-known :
    all_assets_available battle.selected_asset_ids (snapshot PhaseStatus.pending).assets ≡ true
unfolding all_assets_available
assets-known = refl

plan_settlement-progress_example : is_nothing plan ≡ false
plan_settlement-progress_example =
    plan_settlement-progress (snapshot PhaseStatus.pending) (omega arith) (omega arith)
      (λ r. (inr assets-known, tt)) (inr (inl refl)) refl plan-ok
