-- ===== src/Tests/Rounds.antt =====
-- Runs of the instructions on rounds and leagues.
use tickersix.Base.{◌<◌, ◌≡◌, refl, true, false, List, arith, All, if◌then◌else◌, test_bit, set_bit}
use tickersix.Base.Int.{pos, ◌≤ℤ◌, ltb_ℤ, leb_ℤ}
use tickersix.Errors.{Result, ok, is_ok}
use tickersix.Runtime.{Account}
use tickersix.State.{
  Config, MarketRound, MarketRoundState, RoundAsset, League, LeagueMember, round_state_code,
  eq_round_state, settling, commit_open, finalized, voided, registration,
}
use tickersix.Round.Draft.{CreateMarketRoundDraft, DraftArgs, handle_create_market_round_draft}
use tickersix.Round.Universe.{validate_round_assets}
use tickersix.Round.Lifecycle.{
  FinalizeMarketRound, handle_finalize_market_round, next_market_round_state,
}
use tickersix.Round.Order.{
  IsTimed, LeavesAt, create_market_round_draft-IsTimed, next_market_round_state_iff,
}
use tickersix.Round.Assets.{IsUniverse, validate_round_assets-IsUniverse}
use tickersix.Round.Final.{IsSettled, any_unavailable, finalize_market_round-outcome}
use tickersix.League.{
  LeagueArgs, handle_join_league, handle_leave_league_before_close, handle_activate_league,
  handle_cancel_league, handle_create_official_league,
}
use tickersix.League.Capacity.{IsLeague, create_league-IsLeague, league-IsLeague, join-leave}
use tickersix.Tests.Sample.{
  rt, config, policy, source, quality, attestors, round_in, priced_infos, round_key, source_key,
  asset_key, at,
}

abbrev draft_ctx : CreateMarketRoundDraft
draft_ctx = record {
  config = config;
  coordinator = 2;
  market_round = record { key = round_key; in_use = false };
  price_policy = policy;
  jupiter_source_config = source;
  market_quality_policy = quality;
  attestor_set = attestors;
}

abbrev draft_args : DraftArgs
draft_args = record {
  round_id = 1;
  registry_version = 1;
  eligibility_snapshot_hash = 8;
  eligibility_frozen_at = pos 100;
  queue_close_at = pos 200;
  commit_deadline = pos 300;
  reveal_deadline = pos 400;
  start_target_at = pos 500;
  end_target_at = pos 600;
  is_replay = false;
}

abbrev value_or {ℓ} : {A : Type ℓ} → Result A → A → A
value_or (ok a) d = a
value_or _ d = d

abbrev drafted : Config × MarketRound
drafted =
    value_or (handle_create_market_round_draft rt draft_ctx draft_args)
      (config.account, (round_in settling 0 0).account)

drafted-ok : handle_create_market_round_draft rt draft_ctx draft_args ≡ ok (drafted.0, drafted.1)
unfolding handle_create_market_round_draft source_key ltb_ℤ leb_ℤ
drafted-ok = refl

create_market_round_draft-IsTimed_example :
    IsTimed drafted.1
    × (pos 0 ≤ℤ drafted.1.start_target_at)
    × (0 < drafted.1.round_id)
    × (drafted.0.last_market_round_id ≡ drafted.1.round_id)
    × (drafted.0.last_market_round_end_at ≡ drafted.1.end_target_at)
create_market_round_draft-IsTimed_example =
    create_market_round_draft-IsTimed rt draft_ctx draft_args drafted-ok

next_market_round_state_iff_example :
    ((next : MarketRoundState)
      → next_market_round_state (round_in commit_open 0 0).account (pos 300) ≡ ok next
      → (round_state_code next ≡ 3)
        × LeavesAt commit_open (round_in commit_open 0 0).account (pos 300))
    × (LeavesAt commit_open (round_in commit_open 0 0).account (pos 300)
        → is_ok (next_market_round_state (round_in commit_open 0 0).account (pos 300)) ≡ true)
next_market_round_state_iff_example =
    next_market_round_state_iff (round_in commit_open 0 0).account (pos 300)

universe-valid :
    validate_round_assets rt round_key
      (round_in settling 1 1).account
      policy.account
      quality.account
      priced_infos
      6
    ≡ ok tt
unfolding validate_round_assets asset_key test_bit set_bit
universe-valid = refl

validate_round_assets-IsUniverse_example :
    (assets : List RoundAsset) × IsUniverse rt round_key
      (round_in settling 1 1).account
      policy.account
      quality.account
      priced_infos
      6
      assets
validate_round_assets-IsUniverse_example =
    validate_round_assets-IsUniverse rt round_key (round_in settling 1 1).account policy.account
      quality.account priced_infos 6 universe-valid

abbrev final_ctx : FinalizeMarketRound
final_ctx = record {
  market_round = round_in settling 1 1;
  price_policy = policy;
  jupiter_source_config = source;
  market_quality_policy = quality;
  remaining_accounts = priced_infos;
}

finalized-ok : handle_finalize_market_round rt final_ctx ≡ ok (round_in finalized 1 1).account
unfolding handle_finalize_market_round source_key asset_key test_bit set_bit
finalized-ok = refl

finalize_market_round-outcome_example :
    (eq_round_state settling settling ≡ true)
    × ((round_in settling 1 1).account.rated_battle_count
        ≡ (round_in settling 1 1).account.resolved_battle_count)
    × (assets : List RoundAsset) × IsUniverse rt round_key
        (round_in settling 1 1).account
        policy.account
        quality.account
        priced_infos
        6
        assets
    × All IsSettled assets
    × (finalized ≡ (if any_unavailable assets then voided else finalized))
finalize_market_round-outcome_example = finalize_market_round-outcome rt final_ctx finalized-ok

abbrev league : Account League
league = record {
  key = 77;
  account = record {
    league_id = 4;
    creator = 2;
    max_players = 3;
    joined_players = 2;
    total_rounds = 5;
    current_round = 0;
    pairing_policy_version = 1;
    rated = true;
    registration_close_at = pos 50;
    state = registration;
    bump = 255;
  };
}

abbrev joined : League × LeagueMember
joined = value_or (handle_join_league rt (at 10) config.account 30 league) (
  league.account,
  record { league = 0; player = 0; joined_at = pos 0; active = false; bye_count = 0; bump = 0 },
)

joined-ok : handle_join_league rt (at 10) config.account 30 league ≡ ok (joined.0, joined.1)
unfolding handle_join_league leb_ℤ
joined-ok = refl

join-leave_example : handle_leave_league_before_close (at 10) joined.0 joined.1 ≡ ok league.account
join-leave_example = join-leave rt (at 10) config.account 30 league joined-ok

IsLeague-valid : IsLeague league.account
IsLeague-valid = ground arith

league-IsLeague_example :
    (handle_activate_league (at 10) config.account 30 league.account ≡ ok joined.0
      → IsLeague joined.0)
    × (handle_cancel_league config.account 30 league.account ≡ ok joined.0 → IsLeague joined.0)
    × (handle_join_league rt (at 10) config.account 30 league ≡ ok (joined.0, joined.1)
        → IsLeague joined.0)
    × (handle_leave_league_before_close (at 10) league.account joined.1 ≡ ok joined.0
        → IsLeague joined.0)
league-IsLeague_example =
    league-IsLeague rt (at 10) config.account 30 league joined.1 IsLeague-valid

abbrev league_args : LeagueArgs
league_args = record {
  league_id = 4;
  max_players = 3;
  total_rounds = 5;
  pairing_policy_version = 1;
  registration_close_at = pos 50;
}

abbrev created_league : League
created_league =
    value_or (handle_create_official_league rt (at 10) config.account 2 league_args) league.account

created_league-ok :
    handle_create_official_league rt (at 10) config.account 2 league_args ≡ ok created_league
unfolding handle_create_official_league ltb_ℤ
created_league-ok = refl

create_league-IsLeague_example : IsLeague created_league
create_league-IsLeague_example =
    create_league-IsLeague rt (at 10) config.account 2 league_args created_league-ok
