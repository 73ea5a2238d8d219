-- ===== src/Battle/Create.antt =====
-- programs/tickersix/src/instructions/battle.rs: `create_rated_battle`.
use tickersix.Base.{
  ℕ, ◌+◌, Bool, true, false, not, ◌&&◌, ◌||◌, ◌==◌, ltb, leb, [], ◌∷◌, Option, some, none,
  if◌then◌else◌,
}
use tickersix.Base.Int.{ℤ, pos, leb_ℤ}
use tickersix.Errors.{
  Result, ok, err, custom, ErrorCode, require, check, ◌>>◌, ◌>>=◌, account_already_in_use,
}
use tickersix.Runtime.{
  Key, Runtime, Clock, Account, NewAccount, default_key, le_bytes, key_bytes, require_keys_eq,
  seeds_constraint, init_constraint,
}
use tickersix.Constants.{
  config_seed, market_round_seed, battle_seed, rated_slot_seed, league_seed, league_member_seed,
  rating_floor,
}
use tickersix.State.{
  Config, MarketRound, Battle, BattleSide, BattleMode, RatedSlot, League, LeagueMember,
  eq_round_state, scheduled, commit_open, ranked, league_mode, exhibition, awaiting_commit, pending,
  not_voided, eq_league_state, league_active,
}

pub record CreateRatedBattle : Type 0 where
  pub config : Account Config
  pub coordinator : Key
  pub market_round : Account MarketRound
  pub player_a : Key
  pub player_b : Key
  pub league_account : Option (Account League)
  pub league_member_a : Option (Account LeagueMember)
  pub league_member_b : Option (Account LeagueMember)
  pub battle : NewAccount
  pub rated_slot_a : NewAccount
  pub rated_slot_b : NewAccount

-- The arguments of the instruction.
pub record BattleArgs : Type 0 where
  pub battle_id : ℕ  -- u64
  pub mode : BattleMode
  pub league : Key
  pub league_round_no : ℕ  -- u16
  pub rating_a_before : ℤ
  pub rating_b_before : ℤ
  pub rating_formula_version : ℕ  -- u16

-- `BattleSide::new`.
unfoldable pub new_side : Key → BattleSide
new_side player = record {
  player = player;
  commitment = 0;
  committed = false;
  commit_slot = 0;
  asset_ids = 0 ∷ 0 ∷ 0 ∷ 0 ∷ 0 ∷ 0 ∷ [];
  captain_asset_id = 0;
  revealed = false;
  reveal_slot = 0;
  score_q9 = pos 0;
  score_finalized = false;
  status = awaiting_commit;
}

-- The constraints of `CreateRatedBattle`: a battle and both players' rated slots are created, and
-- an account that exists is not created again. The slots are created one after the other, so the
-- second is in use if both have one address.
unfoldable pub create_constraints : Runtime → CreateRatedBattle → ℕ → Result (Unit {0})
unfolding seeds_constraint init_constraint le_bytes key_bytes
create_constraints rt ctx battle_id =
    let round = ctx.market_round in
    do
      seeds_constraint rt (config_seed ∷ []) ctx.config.account.bump ctx.config.key
      seeds_constraint rt (market_round_seed ∷ le_bytes 8 round.account.round_id ∷ [])
          round.account.bump round.key
      init_constraint rt (battle_seed ∷ key_bytes round.key ∷ le_bytes 8 battle_id ∷ []) ctx.battle
      init_constraint rt (rated_slot_seed ∷ key_bytes round.key ∷ key_bytes ctx.player_a ∷ [])
          ctx.rated_slot_a
      init_constraint rt (rated_slot_seed ∷ key_bytes round.key ∷ key_bytes ctx.player_b ∷ [])
          ctx.rated_slot_b
      check (not (ctx.rated_slot_a.key == ctx.rated_slot_b.key)) account_already_in_use

unfoldable pub validate_rated_battle_window : MarketRound → ℤ → Result (Unit {0})
validate_rated_battle_window round now = do
  require (eq_round_state round.state scheduled || eq_round_state round.state commit_open)
      ErrorCode.invalid_round_state
  require (leb_ℤ now round.commit_deadline) ErrorCode.rated_battle_window_closed

unfoldable pub expected_member : Runtime → Key → Key → Key
unfolding key_bytes
expected_member rt league player =
    rt.find_program_address (league_member_seed ∷ key_bytes league ∷ key_bytes player ∷ [])

unfoldable pub require_active_league_member : LeagueMember → Key → Key → Result (Unit {0})
require_active_league_member member league player = do
  require member.active ErrorCode.not_league_member
  require_keys_eq member.league league ErrorCode.not_league_member
  require_keys_eq member.player player ErrorCode.not_league_member

abbrev is_ranked : BattleMode → Bool
is_ranked ranked = true
is_ranked _ = false

abbrev is_league : BattleMode → Bool
is_league league_mode = true
is_league _ = false

abbrev is_absent {ℓ} : {A : Type ℓ} → Option A → Bool
is_absent none = true
is_absent (some _) = false

-- `as_ref().ok_or_else(...)`.
abbrev or_error {ℓ} : {A : Type ℓ} → Option A → ErrorCode → Result A
or_error (some a) c = ok a
or_error none c = err (custom c)

-- The `BattleMode::League` arm of the handler.
unfoldable pub league_admission : Runtime → CreateRatedBattle → BattleArgs → Result (Unit {0})
unfolding expected_member require_active_league_member le_bytes
league_admission rt ctx args = do
  require (ltb 0 args.league_round_no) ErrorCode.invalid_rated_battle_mode
  league ← or_error ctx.league_account ErrorCode.invalid_league
  require_keys_eq league.key args.league ErrorCode.invalid_league
  require_keys_eq league.key
      (rt.find_program_address (league_seed ∷ le_bytes 8 league.account.league_id ∷ []))
      ErrorCode.invalid_league
  require
      (league.account.rated
        && eq_league_state league.account.state league_active
        && league.account.current_round == args.league_round_no
        && leb args.league_round_no league.account.total_rounds)
      ErrorCode.invalid_league
  member_a ← or_error ctx.league_member_a ErrorCode.not_league_member
  member_b ← or_error ctx.league_member_b ErrorCode.not_league_member
  require_active_league_member member_a.account league.key ctx.player_a
  require_active_league_member member_b.account league.key ctx.player_b
  require_keys_eq member_a.key (expected_member rt league.key ctx.player_a)
      ErrorCode.not_league_member
  require_keys_eq member_b.key (expected_member rt league.key ctx.player_b)
      ErrorCode.not_league_member

-- The `match mode`; the test before it refuses `Exhibition`.
unfoldable pub mode_admission :
    Runtime → CreateRatedBattle → BattleArgs → BattleMode → Result (Unit {0})
unfolding league_admission
mode_admission rt ctx args ranked =
    require
      (is_absent ctx.league_account
        && is_absent ctx.league_member_a
        && is_absent ctx.league_member_b
        && args.league_round_no == 0)
      ErrorCode.invalid_rated_battle_mode
mode_admission rt ctx args league_mode = league_admission rt ctx args
mode_admission rt ctx args exhibition = err (custom ErrorCode.invalid_rated_battle_mode)

-- `checked_add(1)` on a `u32` counter.
unfoldable pub increment_u32 : ℕ → Result ℕ
increment_u32 n = if ltb n 4294967295 then ok (n + 1) else err (custom ErrorCode.math_overflow)

-- What the instruction writes.
pub record Created : Type 0 where
  pub market_round : MarketRound
  pub battle : Battle
  pub rated_slot_a : RatedSlot
  pub rated_slot_b : RatedSlot

unfoldable pub handle_create_rated_battle :
    Runtime → Clock → CreateRatedBattle → BattleArgs → Result Created
unfolding increment_u32
handle_create_rated_battle rt clock ctx args =
    let round = ctx.market_round.account in
    do
      require_keys_eq ctx.config.account.coordinator_authority ctx.coordinator
          ErrorCode.unauthorized_coordinator
      require (not ctx.config.account.paused) ErrorCode.protocol_paused
      validate_rated_battle_window round clock.unix_timestamp
      require (not round.is_replay) ErrorCode.replay_cannot_be_rated
      require (is_ranked args.mode || is_league args.mode) ErrorCode.invalid_rated_battle_mode
      require
          (leb_ℤ (pos rating_floor) args.rating_a_before
            && leb_ℤ (pos rating_floor) args.rating_b_before
            && ltb 0 args.rating_formula_version)
          ErrorCode.invalid_battle_state
      require (not (ctx.player_a == ctx.player_b)) ErrorCode.same_battle_player
      require (not (ctx.player_a == default_key) && not (ctx.player_b == default_key))
          ErrorCode.invalid_battle_state
      require
          ((is_ranked args.mode && args.league == default_key)
            || (is_league args.mode && not (args.league == default_key)))
          ErrorCode.invalid_rated_battle_mode
      mode_admission rt ctx args args.mode
      count ← increment_u32 round.rated_battle_count
      ok (record {
        market_round = record round { rated_battle_count = count };
        battle = record {
          battle_id = args.battle_id;
          market_round = ctx.market_round.key;
          mode = args.mode;
          rated = true;
          league = args.league;
          league_round_no = args.league_round_no;
          rating_a_before = args.rating_a_before;
          rating_b_before = args.rating_b_before;
          rating_formula_version = args.rating_formula_version;
          a = new_side ctx.player_a;
          b = new_side ctx.player_b;
          result = pending;
          void_reason = not_voided;
          created_at = clock.unix_timestamp;
          finalized_at = pos 0;
          bump =
              rt.find_bump
                (battle_seed ∷ key_bytes ctx.market_round.key ∷ le_bytes 8 args.battle_id ∷ []);
        };
        rated_slot_a = record {
          market_round = ctx.market_round.key;
          player = ctx.player_a;
          battle = ctx.battle.key;
          bump =
              rt.find_bump
                (rated_slot_seed ∷ key_bytes ctx.market_round.key ∷ key_bytes ctx.player_a ∷ []);
        };
        rated_slot_b = record {
          market_round = ctx.market_round.key;
          player = ctx.player_b;
          battle = ctx.battle.key;
          bump =
              rt.find_bump
                (rated_slot_seed ∷ key_bytes ctx.market_round.key ∷ key_bytes ctx.player_b ∷ []);
        };
      })

-- The whole instruction.
unfoldable pub create_rated_battle :
    Runtime → Clock → CreateRatedBattle → BattleArgs → Result Created
unfolding create_constraints handle_create_rated_battle
create_rated_battle rt clock ctx args = do
  create_constraints rt ctx args.battle_id
  handle_create_rated_battle rt clock ctx args
