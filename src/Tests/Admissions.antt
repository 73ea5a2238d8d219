-- ===== src/Tests/Admissions.antt =====
-- Runs of the creation of a battle and of the administrator's publications.
use tickersix.Base.{◌≡◌, ◌≢◌, refl, true, false, ◌||◌, none, ◌∷◌, []}
use tickersix.Base.Int.{pos, ◌≤ℤ◌, leb_ℤ}
use tickersix.Errors.{Result, ok}
use tickersix.State.{
  Config, commit_open, scheduled, eq_round_state, ranked, SettlementPolicy, JupiterSourceConfig,
  MarketQualityPolicy, AttestorSet, public_equity, jupiter_token_spot_v1,
}
use tickersix.Runtime.{le_bytes}
use tickersix.Constants.{jupiter_source_config_seed}
use tickersix.Battle.Create.{
  CreateRatedBattle, BattleArgs, create_rated_battle, validate_rated_battle_window, mode_admission,
}
use tickersix.Battle.Admission.{slot_address, create_rated_battle-admission}
use tickersix.Admin.{
  PolicyArgs, SourceArgs, handle_create_price_policy, handle_create_jupiter_source_config,
  handle_create_market_quality_policy, handle_create_attestor_set,
}
use tickersix.Admin.Versions.{IsNewer, publish-IsNewer}
use tickersix.Tests.Sample.{
  address, rt, config, policy, source, quality, attestors, round_in, round_key, config_key,
  battle_key, slot_key, at,
}

abbrev ctx : CreateRatedBattle
ctx = record {
  config = config;
  coordinator = 2;
  market_round = round_in commit_open 0 0;
  player_a = 21;
  player_b = 22;
  league_account = none;
  league_member_a = none;
  league_member_b = none;
  battle = record { key = battle_key 9; in_use = false };
  rated_slot_a = record { key = slot_key 21; in_use = false };
  rated_slot_b = record { key = slot_key 22; in_use = false };
}

abbrev args : BattleArgs
args = record {
  battle_id = 9;
  mode = ranked;
  league = 0;
  league_round_no = 0;
  rating_a_before = pos 1200;
  rating_b_before = pos 1300;
  rating_formula_version = 1;
}

create_rated_battle-admission_example :
    (config.account.coordinator_authority ≡ ctx.coordinator)
    × ((eq_round_state commit_open scheduled || eq_round_state commit_open commit_open) ≡ true)
    × (pos 150 ≤ℤ pos 300)
    × (ctx.player_a ≢ ctx.player_b)
    × (slot_address rt round_key 21 ≡ slot_key 21)
    × (ctx.rated_slot_a.in_use ≡ false)
    × (slot_address rt round_key 22 ≡ slot_key 22)
    × (ctx.rated_slot_b.in_use ≡ false)
unfolding create_rated_battle round_key config_key battle_key slot_key validate_rated_battle_window
    leb_ℤ mode_admission
create_rated_battle-admission_example = create_rated_battle-admission rt (at 150) ctx args refl

abbrev policy_args : PolicyArgs
policy_args = record {
  version = 2;
  source_kind = jupiter_token_spot_v1;
  observation_window_secs = 60;
  attestation_grace_secs = 30;
  sample_interval_secs = 2;
  max_attestor_spread_bps = 100;
  min_accepted_observations = 3;
  min_unique_source_blocks = 2;
  max_source_block_lag = 10;
  canonical_policy_hash = 5;
  source_config = rt.find_program_address (jupiter_source_config_seed ∷ le_bytes 2 2 ∷ []);
}

abbrev source_args : SourceArgs
source_args = record {
  version = 2;
  attestation_grace_secs = 30;
  sample_interval_secs = 2;
  max_attestor_spread_bps = 100;
  min_accepted_observations = 3;
  min_unique_source_blocks = 2;
  max_source_block_lag = 10;
}

abbrev pair_or {ℓ} : {A : Type ℓ} → Result A → A → A
pair_or (ok a) d = a
pair_or _ d = d

abbrev new_policy : Config × SettlementPolicy
new_policy =
    pair_or (handle_create_price_policy rt config.account 1 policy_args)
      (config.account, policy.account)

new_policy-ok : handle_create_price_policy rt config.account 1 policy_args ≡ ok new_policy
unfolding handle_create_price_policy address
new_policy-ok = refl

abbrev new_source : Config × JupiterSourceConfig
new_source =
    pair_or (handle_create_jupiter_source_config rt config.account 1 attestors.account source_args)
      (config.account, source.account)

abbrev new_quality : Config × MarketQualityPolicy
new_quality =
    pair_or (handle_create_market_quality_policy rt config.account 1 2 9 6 public_equity)
      (config.account, quality.account)

abbrev new_set : Config × AttestorSet
new_set =
    pair_or (handle_create_attestor_set rt config.account 1 2 11 12 13)
      (config.account, attestors.account)

publish-IsNewer_example :
    (handle_create_price_policy rt config.account 1 policy_args ≡ ok new_policy
      → IsNewer config.account 1 1 new_policy.1.version
          new_policy.0.current_settlement_policy_version)
    × (handle_create_jupiter_source_config rt config.account 1 attestors.account source_args
          ≡ ok new_source
        → IsNewer config.account 1 1 new_source.1.version
            new_source.0.current_jupiter_source_config_version)
    × (handle_create_market_quality_policy rt config.account 1 2 9 6 public_equity ≡ ok new_quality
        → IsNewer config.account 1 1 new_quality.1.version
            new_quality.0.current_market_quality_policy_version)
    × (handle_create_attestor_set rt config.account 1 2 11 12 13 ≡ ok new_set
        → IsNewer config.account 1 1 new_set.1.version new_set.0.current_attestor_set_version)
publish-IsNewer_example =
    publish-IsNewer rt config.account 1 policy_args source_args attestors.account 2 6 9 11 12 13
      public_equity new_policy new_source new_quality new_set
