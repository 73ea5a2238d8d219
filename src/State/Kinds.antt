-- ===== src/State/Kinds.antt =====
-- programs/tickersix/src/state.rs: the enums. Rust compares such a value by its discriminant, and
-- so do the tests here.
use tickersix.Base.{ℕ, Bool, true, false, ◌==◌}

pub data SettlementSourceKind : Type 0 where
  jupiter_token_spot_v1 pyth_pro_verified_v1 : SettlementSourceKind

abbrev pub source_code : SettlementSourceKind → ℕ
source_code jupiter_token_spot_v1 = 0
source_code pyth_pro_verified_v1 = 1

abbrev pub eq_source : SettlementSourceKind → SettlementSourceKind → Bool
eq_source a b = source_code a == source_code b

pub data CompetitionDomain : Type 0 where
  public_equity private_market : CompetitionDomain

abbrev pub domain_code : CompetitionDomain → ℕ
domain_code public_equity = 0
domain_code private_market = 1

abbrev pub eq_domain : CompetitionDomain → CompetitionDomain → Bool
eq_domain a b = domain_code a == domain_code b

pub data ProviderKind : Type 0 where
  x_stocks ondo backpack_securities pre_stocks tessera other_approved : ProviderKind

pub data InstrumentStructureKind : Type 0 where
  tokenized_public_equity_exposure tracker_certificate : InstrumentStructureKind
  spv_economic_exposure loan_participation_right other : InstrumentStructureKind

pub data LifecycleState : Type 0 where
  active corporate_action_pending conversion_pending redemption_pending : LifecycleState
  expiring suspended closed : LifecycleState

abbrev pub is_active : LifecycleState → Bool
is_active LifecycleState.active = true
is_active _ = false

pub data ComparabilityKind : Type 0 where
  unsupported context_only canonically_comparable : ComparabilityKind

abbrev pub is_unsupported : ComparabilityKind → Bool
is_unsupported unsupported = true
is_unsupported _ = false

pub data EvidenceKind : Type 0 where
  no_evidence jupiter_attestation_v1 pyth_pro_evidence_v1 : EvidenceKind

pub data MarketRoundState : Type 0 where
  preparing scheduled commit_open reveal_open live ended : MarketRoundState
  settling finalized voided : MarketRoundState

abbrev pub round_state_code : MarketRoundState → ℕ
round_state_code preparing = 0
round_state_code scheduled = 1
round_state_code commit_open = 2
round_state_code reveal_open = 3
round_state_code live = 4
round_state_code ended = 5
round_state_code settling = 6
round_state_code finalized = 7
round_state_code voided = 8

abbrev pub eq_round_state : MarketRoundState → MarketRoundState → Bool
eq_round_state a b = round_state_code a == round_state_code b

pub data BattleMode : Type 0 where
  ranked league_mode exhibition : BattleMode

pub data SideStatus : Type 0 where
  awaiting_commit committed revealed score_finalized forfeited : SideStatus

pub data BattleResult : Type 0 where
  pending player_a player_b draw forfeit_a forfeit_b both_forfeit voided_result : BattleResult

abbrev pub is_pending : BattleResult → Bool
is_pending pending = true
is_pending _ = false

pub data VoidReason : Type 0 where
  not_voided price_unavailable registry_fault system_incident invalid_round : VoidReason
  admin_emergency : VoidReason

pub data LeagueState : Type 0 where
  registration league_active completed cancelled : LeagueState

abbrev pub league_state_code : LeagueState → ℕ
league_state_code registration = 0
league_state_code league_active = 1
league_state_code completed = 2
league_state_code cancelled = 3

abbrev pub eq_league_state : LeagueState → LeagueState → Bool
eq_league_state a b = league_state_code a == league_state_code b

pub data PricePhase : Type 0 where
  start end : PricePhase

abbrev pub phase_code : PricePhase → ℕ
phase_code start = 0
phase_code end = 1

abbrev pub eq_phase : PricePhase → PricePhase → Bool
eq_phase a b = phase_code a == phase_code b
