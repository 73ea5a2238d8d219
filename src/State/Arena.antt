-- ===== src/State/Arena.antt =====
-- programs/tickersix/src/state.rs: battles, rated slots and leagues.
use tickersix.Base.{ℕ, Bool, List}
use tickersix.Base.Int.{ℤ}
use tickersix.Runtime.{Key}
use tickersix.State.Kinds.{BattleMode, BattleResult, SideStatus, VoidReason, LeagueState}

pub record BattleSide : Type 0 where
  pub player : Key
  pub commitment : Key
  pub committed : Bool
  pub commit_slot : ℕ  -- u64
  pub asset_ids : List ℕ
  pub captain_asset_id : ℕ  -- u16
  pub revealed : Bool
  pub reveal_slot : ℕ  -- u64
  pub score_q9 : ℤ
  pub score_finalized : Bool
  pub status : SideStatus

pub record Battle : Type 0 where
  pub battle_id : ℕ  -- u64
  pub market_round : Key
  pub mode : BattleMode
  pub rated : Bool
  pub league : Key
  pub league_round_no : ℕ  -- u16
  pub rating_a_before : ℤ
  pub rating_b_before : ℤ
  pub rating_formula_version : ℕ  -- u16
  pub a : BattleSide
  pub b : BattleSide
  pub result : BattleResult
  pub void_reason : VoidReason
  pub created_at : ℤ
  pub finalized_at : ℤ
  pub bump : ℕ  -- u8

pub record RatedSlot : Type 0 where
  pub market_round : Key
  pub player : Key
  pub battle : Key
  pub bump : ℕ  -- u8

pub record League : Type 0 where
  pub league_id : ℕ  -- u64
  pub creator : Key
  pub max_players : ℕ  -- u16
  pub joined_players : ℕ  -- u16
  pub total_rounds : ℕ  -- u16
  pub current_round : ℕ  -- u16
  pub pairing_policy_version : ℕ  -- u16
  pub rated : Bool
  pub registration_close_at : ℤ
  pub state : LeagueState
  pub bump : ℕ  -- u8

pub record LeagueMember : Type 0 where
  pub league : Key
  pub player : Key
  pub joined_at : ℤ
  pub active : Bool
  pub bye_count : ℕ  -- u16
  pub bump : ℕ  -- u8
