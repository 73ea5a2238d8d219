-- ===== src/League.antt =====
-- programs/tickersix/src/instructions/league.rs: official leagues and their members.
pub mod Capacity
use tickersix.Base.{
  ℕ, ◌+◌, ◌-◌, Bool, true, false, not, ◌&&◌, ◌||◌, ◌==◌, ltb, leb, List, [], ◌∷◌, if◌then◌else◌,
}
use tickersix.Base.Int.{ℤ, ltb_ℤ, leb_ℤ}
use tickersix.Errors.{Result, ok, err, custom, ErrorCode, require, ◌>>◌, ◌>>=◌}
use tickersix.Runtime.{
  Key, Runtime, Clock, Account, NewAccount, le_bytes, key_bytes, require_keys_eq, seeds_constraint,
  init_constraint,
}
use tickersix.Constants.{config_seed, league_seed, league_member_seed}
use tickersix.State.{
  Config, League, LeagueMember, eq_league_state, registration, league_active, cancelled,
}
use tickersix.Round.Binding.{require_coordinator}

abbrev pub max_official_league_players : ℕ
max_official_league_players = 100

-- The accounts of the instructions of the coordinator on a league.
unfoldable pub league_constraints : Runtime → Account Config → Account League → Result (Unit {0})
unfolding seeds_constraint le_bytes
league_constraints rt config league = do
  seeds_constraint rt (config_seed ∷ []) config.account.bump config.key
  seeds_constraint rt (league_seed ∷ le_bytes 8 league.account.league_id ∷ []) league.account.bump
      league.key

-- The arguments of `create_official_league`.
pub record LeagueArgs : Type 0 where
  pub league_id : ℕ  -- u64
  pub max_players : ℕ  -- u16
  pub total_rounds : ℕ  -- u16
  pub pairing_policy_version : ℕ  -- u16
  pub registration_close_at : ℤ

unfoldable pub handle_create_official_league :
    Runtime → Clock → Config → Key → LeagueArgs → Result League
unfolding require_coordinator le_bytes
handle_create_official_league rt clock config coordinator args = do
  require_coordinator config coordinator
  require (not config.paused) ErrorCode.protocol_paused
  require (leb 2 args.max_players && leb args.max_players max_official_league_players)
      ErrorCode.invalid_league
  require (ltb 0 args.total_rounds && ltb 0 args.pairing_policy_version) ErrorCode.invalid_league
  require (ltb_ℤ clock.unix_timestamp args.registration_close_at) ErrorCode.invalid_league
  ok (record {
    league_id = args.league_id;
    creator = coordinator;
    max_players = args.max_players;
    joined_players = 0;
    total_rounds = args.total_rounds;
    current_round = 0;
    pairing_policy_version = args.pairing_policy_version;
    rated = true;
    registration_close_at = args.registration_close_at;
    state = registration;
    bump = rt.find_bump (league_seed ∷ le_bytes 8 args.league_id ∷ []);
  })

unfoldable pub create_official_league :
    Runtime → Clock → Account Config → Key → NewAccount → LeagueArgs → Result League
unfolding seeds_constraint init_constraint handle_create_official_league
create_official_league rt clock config coordinator league args = do
  seeds_constraint rt (config_seed ∷ []) config.account.bump config.key
  init_constraint rt (league_seed ∷ le_bytes 8 args.league_id ∷ []) league
  handle_create_official_league rt clock config.account coordinator args

unfoldable pub handle_activate_league : Clock → Config → Key → League → Result League
unfolding require_coordinator
handle_activate_league clock config coordinator league = do
  require_coordinator config coordinator
  require (eq_league_state league.state registration) ErrorCode.invalid_league
  require (leb_ℤ league.registration_close_at clock.unix_timestamp)
      ErrorCode.league_registration_closed
  require (leb 2 league.joined_players) ErrorCode.invalid_league
  ok (record league { state = league_active; current_round = 1 })

unfoldable pub activate_league :
    Runtime → Clock → Account Config → Key → Account League → Result League
unfolding league_constraints handle_activate_league
activate_league rt clock config coordinator league = do
  league_constraints rt config league
  handle_activate_league clock config.account coordinator league.account

unfoldable pub handle_cancel_league : Config → Key → League → Result League
unfolding require_coordinator
handle_cancel_league config coordinator league = do
  require_coordinator config coordinator
  require (eq_league_state league.state registration || eq_league_state league.state league_active)
      ErrorCode.invalid_league
  ok (record league { state = cancelled })

unfoldable pub cancel_league : Runtime → Account Config → Key → Account League → Result League
unfolding league_constraints handle_cancel_league
cancel_league rt config coordinator league = do
  league_constraints rt config league
  handle_cancel_league config.account coordinator league.account

-- `joined_players += 1` cannot wrap: the count is below a `u16`.
unfoldable pub handle_join_league :
    Runtime → Clock → Config → Key → Account League → Result (League × LeagueMember)
unfolding key_bytes
handle_join_league rt clock config player league_account =
    let league = league_account.account in
    do
      require (not config.paused) ErrorCode.protocol_paused
      require (eq_league_state league.state registration) ErrorCode.invalid_league
      require (leb_ℤ clock.unix_timestamp league.registration_close_at)
          ErrorCode.league_registration_closed
      require (ltb league.joined_players league.max_players) ErrorCode.league_full
      ok (
        record league { joined_players = league.joined_players + 1 },
        record {
          league = league_account.key;
          player = player;
          joined_at = clock.unix_timestamp;
          active = true;
          bye_count = 0;
          bump =
              rt.find_bump
                (league_member_seed ∷ key_bytes league_account.key ∷ key_bytes player ∷ []);
        },
      )

unfoldable pub join_league :
    Runtime
    → Clock
    → Account Config
    → Key
    → Account League
    → NewAccount
    → Result (League × LeagueMember)
unfolding league_constraints init_constraint handle_join_league
join_league rt clock config player league member = do
  league_constraints rt config league
  init_constraint rt (league_member_seed ∷ key_bytes league.key ∷ key_bytes player ∷ []) member
  handle_join_league rt clock config.account player league

unfoldable pub member_constraints :
    Runtime → Key → Account League → Account LeagueMember → Result (Unit {0})
unfolding seeds_constraint key_bytes
member_constraints rt player league member = do
  seeds_constraint rt (league_member_seed ∷ key_bytes league.key ∷ key_bytes player ∷ [])
      member.account.bump member.key
  require (member.account.league == league.key) ErrorCode.invalid_league
  require (member.account.player == player) ErrorCode.not_league_member

-- The member account is closed by `close = player` when the handler succeeds.
unfoldable pub handle_leave_league_before_close : Clock → League → LeagueMember → Result League
handle_leave_league_before_close clock league member = do
  require (eq_league_state league.state registration) ErrorCode.invalid_league
  require (leb_ℤ clock.unix_timestamp league.registration_close_at)
      ErrorCode.league_registration_closed
  require member.active ErrorCode.not_league_member
  if ltb 0 league.joined_players
      then ok (record league { joined_players = league.joined_players - 1 })
      else err (custom ErrorCode.invalid_league)

unfoldable pub leave_league_before_close :
    Runtime → Clock → Account Config → Key → Account League → Account LeagueMember → Result League
unfolding league_constraints member_constraints handle_leave_league_before_close
leave_league_before_close rt clock config player league member = do
  league_constraints rt config league
  member_constraints rt player league member
  handle_leave_league_before_close clock league.account member.account

unfoldable pub handle_deactivate_league_member :
    Runtime → Config → Key → Account League → Account LeagueMember → Result LeagueMember
unfolding require_coordinator key_bytes
handle_deactivate_league_member rt config coordinator league member = do
  require_coordinator config coordinator
  require_keys_eq member.account.league league.key ErrorCode.invalid_league
  require_keys_eq member.key
      (rt.find_program_address
        (league_member_seed ∷ key_bytes league.key ∷ key_bytes member.account.player ∷ []))
      ErrorCode.not_league_member
  require member.account.active ErrorCode.not_league_member
  ok (record (member.account) { active = false })

unfoldable pub deactivate_league_member :
    Runtime → Account Config → Key → Account League → Account LeagueMember → Result LeagueMember
unfolding league_constraints handle_deactivate_league_member
deactivate_league_member rt config coordinator league member = do
  league_constraints rt config league
  handle_deactivate_league_member rt config.account coordinator league member
