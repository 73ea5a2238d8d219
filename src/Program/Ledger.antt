-- ===== src/Program/Ledger.antt =====
-- The ledger: the accounts that the program owns, and the entry points of
-- programs/tickersix/src/lib.rs with the accounts and arguments of a call.
use tickersix.Base.{ℕ, Bool, List, [], ◌∷◌, Option, some, none}
use tickersix.Runtime.{Key, Runtime, Account}
use tickersix.Accounts.{AccountInfo, round_asset_data, attestation_data, empty}
use tickersix.State.{
  Config, MarketRound, RoundAsset, SettlementPolicy, JupiterSourceConfig, MarketQualityPolicy,
  AttestorSet, AssetRegistryEntry, Battle, RatedSlot, League, LeagueMember, PriceAttestation,
  PricePhase, CompetitionDomain,
}
use tickersix.Round.Draft.{DraftArgs}
use tickersix.Round.AddAsset.{AssetArgs}
use tickersix.Battle.Create.{BattleArgs}
use tickersix.Price.Submit.{Report, Instruction}
use tickersix.League.{LeagueArgs}
use tickersix.Admin.{PolicyArgs, SourceArgs}
use tickersix.Admin.Registry.{EntryArgs}
use tickersix.Store.{find}

pub record Ledger : Type 0 where
  pub config : Account Config
  pub policies : List (Account SettlementPolicy)
  pub sources : List (Account JupiterSourceConfig)
  pub qualities : List (Account MarketQualityPolicy)
  pub attestor_sets : List (Account AttestorSet)
  pub registry : List (Account AssetRegistryEntry)
  pub rounds : List (Account MarketRound)
  pub round_assets : List (Account RoundAsset)
  pub attestations : List (Account PriceAttestation)
  pub battles : List (Account Battle)
  pub rated_slots : List (Account RatedSlot)
  pub leagues : List (Account League)
  pub members : List (Account LeagueMember)

abbrev info_of : Runtime → Key → Option RoundAsset → Option PriceAttestation → AccountInfo
info_of rt k (some a) _ = record { key = k; owner = rt.program_id; data_of = round_asset_data a }
info_of rt k none (some r) = record { key = k; owner = rt.program_id; data_of = attestation_data r }
info_of rt k none none = record { key = k; owner = 0; data_of = empty }

-- The remaining accounts that a caller names: assets and reports of the ledger, and addresses at
-- which there is no account.
unfoldable pub infos : Runtime → Ledger → List Key → List AccountInfo
unfolding find
infos rt l [] = []
infos rt l (k ∷ ks) = info_of rt k (find k l.round_assets) (find k l.attestations) ∷ infos rt l ks

-- The addresses of the policy accounts of a call.
pub record PolicyKeys : Type 0 where
  pub policy : Key
  pub source : Key
  pub quality : Key
  pub set : Key

pub data Call : Type 0 where
  set_pause : (admin : Key) (paused : Bool) → Call
  rotate_admin : (admin new_admin : Key) → Call
  rotate_coordinator : (admin new_coordinator : Key) → Call
  freeze_registry_version : (admin : Key) → Call
  create_settlement_policy : (payer policy : Key) → PolicyArgs → Call
  create_jupiter_source_config : (payer source set : Key) → SourceArgs → Call
  create_market_quality_policy :
      (payer quality : Key) (version : ℕ) (hash : Key) (least : ℕ) → CompetitionDomain → Call
  create_attestor_set : (payer set : Key) (version : ℕ) (x y z : Key) → Call
  create_registry_entry : (token_program payer entry : Key) → EntryArgs → Call
  create_official_league : (coordinator league : Key) → LeagueArgs → Call
  activate_league : (coordinator league : Key) → Call
  cancel_league : (coordinator league : Key) → Call
  join_league : (player league member : Key) → Call
  leave_league_before_close : (player league member : Key) → Call
  deactivate_league_member : (coordinator league member : Key) → Call
  create_market_round_draft : (coordinator round : Key) → PolicyKeys → DraftArgs → Call
  add_round_asset : (coordinator round asset entry : Key) → PolicyKeys → List Key → AssetArgs → Call
  freeze_market_round : (coordinator round : Key) → PolicyKeys → List Key → Call
  advance_market_round : (round : Key) → Call
  finalize_market_round : (round : Key) → PolicyKeys → List Key → Call
  create_rated_battle :
      (coordinator round player_a player_b : Key) (league member_a member_b : Option Key)
      (battle slot_a slot_b : Key)
      → BattleArgs
      → Call
  commit_lineup : (battle round player commitment : Key) → Call
  cancel_uncommitted_battle : (coordinator battle round : Key) → Call
  reveal_lineup : (battle round player : Key) (asset_ids : List ℕ) (captain : ℕ) (salt : Key) → Call
  submit_price_attestation :
      (asset round attestor report : Key)
      → PolicyKeys
      → List Instruction
      → PricePhase
      → Report
      → Call
  finalize_price_phase : (asset round : Key) → PolicyKeys → List Key → PricePhase → Call
  mark_price_phase_unavailable : (asset round : Key) → PolicyKeys → List Key → PricePhase → Call
  settle_side_score : (battle round : Key) → List Key → ℕ → Call
  finalize_battle : (battle round : Key) → Call
  void_battle_for_system_incident : (coordinator battle round : Key) → Call
  finalize_forfeit : (battle round : Key) → Call
  void_battle_if_price_unavailable : (battle round : Key) → List Key → Call
