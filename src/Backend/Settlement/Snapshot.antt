-- ===== src/Backend/Settlement/Snapshot.antt =====
-- backend/src/settlement.rs: the snapshot that the planner reads, its actions and errors, and
-- `validate_snapshot`.
use tickersix.Base.{
  ℕ, Bool, true, false, not, ◌&&◌, ◌||◌, ◌==◌, ltb, List, [], ◌∷◌, ◌++◌, if◌then◌else◌, contains,
  length,
}
use tickersix.Base.Int.{ℤ}
use tickersix.Math.{sort_unstable}
use tickersix.Outcome.{Outcome, ok, err, require, ◌>>◌, ◌>>=◌}

-- `SourceKind` of backend/src/proof.rs.
pub data SourceKind : Type 0 where
  jupiter_token_spot_v1 pyth_pro_verified_v1 pyth_247_index_v1 verified_issuer_oracle_v1 :
      SourceKind

pub data Phase : Type 0 where
  start end : Phase

pub data RoundState : Type 0 where
  ended settling finalized voided : RoundState

pub data PhaseStatus : Type 0 where
  pending finalized unavailable : PhaseStatus

pub record AssetSettlementState : Type 0 where
  pub asset_id : ℕ
  pub start : PhaseStatus
  pub start_deadline : ℤ
  pub start_has_compatible_quorum : Bool
  pub end : PhaseStatus
  pub end_deadline : ℤ
  pub end_has_compatible_quorum : Bool

pub record BattleSettlementState : Type 0 where
  pub battle_id : ℕ
  pub result_pending : Bool
  pub reveal_deadline : ℤ
  pub side_a_revealed : Bool
  pub side_b_revealed : Bool
  pub side_a_score_finalized : Bool
  pub side_b_score_finalized : Bool
  pub selected_asset_ids : List ℕ
  pub selected_asset_unavailable : Bool

pub record SettlementSnapshot : Type 0 where
  pub source_kind : SourceKind
  pub pyth_gate_0b_verified : Bool
  pub now_unix_secs : ℤ
  pub round_state : RoundState
  pub rated_battle_count : ℕ
  pub resolved_battle_count : ℕ
  pub assets : List AssetSettlementState
  pub battles : List BattleSettlementState

pub data SettlementAction : Type 0 where
  advance_round_to_settling : SettlementAction
  finalize_jupiter_phase mark_jupiter_phase_unavailable : ℕ → Phase → SettlementAction
  finalize_pyth_phase mark_pyth_phase_unavailable : ℕ → Phase → SettlementAction
  forfeit_battle void_battle_price_unavailable : ℕ → SettlementAction
  settle_side_score : ℕ → ℕ → SettlementAction
  finalize_battle : ℕ → SettlementAction
  finalize_market_round finalize_pyth_market_round : SettlementAction

pub data SettlementError : Type 0 where
  unsupported_source pyth_gate_not_passed duplicate_asset duplicate_battle : SettlementError
  invalid_battle_asset count_mismatch invalid_round_state : SettlementError

abbrev pub is_pending : PhaseStatus → Bool
is_pending PhaseStatus.pending = true
is_pending _ = false

abbrev pub is_finalized : PhaseStatus → Bool
is_finalized PhaseStatus.finalized = true
is_finalized _ = false

-- `Vec::dedup`: of equal neighbours the first stays.
unfoldable pub dedup_after : ℕ → List ℕ → List ℕ
dedup_after a [] = []
dedup_after a (x ∷ xs) = let rest = dedup_after x xs in if x == a then rest else x ∷ rest

unfoldable pub dedup : List ℕ → List ℕ
unfolding dedup_after
dedup [] = []
dedup (x ∷ xs) = x ∷ dedup_after x xs

unfoldable pub all_in : List ℕ → List ℕ → Bool
unfolding contains
all_in asset_ids [] = true
all_in asset_ids (x ∷ xs) = contains asset_ids x && all_in asset_ids xs

-- The loops of `validate_snapshot`: `seen` are the identifiers so far.
unfoldable pub validate_assets :
    List ℕ → List AssetSettlementState → Outcome SettlementError (List ℕ)
unfolding contains
validate_assets seen [] = ok seen
validate_assets seen (asset ∷ assets) = do
  require (not (contains seen asset.asset_id)) SettlementError.duplicate_asset
  validate_assets (seen ++ asset.asset_id ∷ []) assets

unfoldable pub validate_battles :
    List ℕ → List ℕ → List BattleSettlementState → Outcome SettlementError (Unit {0})
unfolding contains dedup sort_unstable all_in
validate_battles asset_ids seen [] = ok tt
validate_battles asset_ids seen (battle ∷ battles) = do
  require (not (contains seen battle.battle_id)) SettlementError.duplicate_battle
  let selected = dedup (sort_unstable battle.selected_asset_ids)
  require
      (not (
        not (length selected == 6)
        || not (length selected == length battle.selected_asset_ids)
        || not (all_in asset_ids selected)))
      SettlementError.invalid_battle_asset
  validate_battles asset_ids (seen ++ battle.battle_id ∷ []) battles

abbrev pub validate_source : SourceKind → Bool → Outcome SettlementError (Unit {0})
validate_source SourceKind.jupiter_token_spot_v1 gate = ok tt
validate_source SourceKind.pyth_pro_verified_v1 true = ok tt
validate_source SourceKind.pyth_pro_verified_v1 false = err SettlementError.pyth_gate_not_passed
validate_source SourceKind.pyth_247_index_v1 gate = err SettlementError.unsupported_source
validate_source SourceKind.verified_issuer_oracle_v1 gate = err SettlementError.unsupported_source

abbrev pub is_closed : RoundState → Bool
is_closed RoundState.finalized = true
is_closed RoundState.voided = true
is_closed _ = false

unfoldable pub validate_snapshot : SettlementSnapshot → Outcome SettlementError (Unit {0})
unfolding validate_assets validate_battles
validate_snapshot snapshot = do
  validate_source snapshot.source_kind snapshot.pyth_gate_0b_verified
  asset_ids ← validate_assets [] snapshot.assets
  validate_battles asset_ids [] snapshot.battles
  require
      (not (ltb snapshot.rated_battle_count snapshot.resolved_battle_count)
        && snapshot.rated_battle_count == length snapshot.battles)
      SettlementError.count_mismatch
  require
      (not (
        is_closed snapshot.round_state
        && not (snapshot.resolved_battle_count == snapshot.rated_battle_count)))
      SettlementError.invalid_round_state
