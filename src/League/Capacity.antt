-- ===== src/League/Capacity.antt =====
-- programs/tickersix/src/instructions/league.rs: the capacity of an official league.
use tickersix.Base.{◌≤◌, ◌≡◌, arith}
use tickersix.Errors.{ok}
use tickersix.Runtime.{Key, Runtime, Clock, Account}
use tickersix.State.{Config, League, LeagueMember}
use tickersix.League.{
  LeagueArgs, handle_create_official_league, handle_activate_league, handle_cancel_league,
  handle_join_league, handle_leave_league_before_close,
}

-- The players that have joined fit in the league, and the league in the limit.
pub record IsLeague (league : League) : Type 0 where
  pub least : 2 ≤ league.max_players
  pub most : league.max_players ≤ 100
  pub fits : league.joined_players ≤ league.max_players

-- A created league is within its capacity.
pub create_league-IsLeague :
    (rt : Runtime) (clock : Clock) (config : Config) (coordinator : Key) (args : LeagueArgs)
    {league : League}
    → handle_create_official_league rt clock config coordinator args ≡ ok league
    → IsLeague league
unfolding handle_create_official_league
create_league-IsLeague rt clock config coordinator args h = ground arith

-- Each of the instructions that change a league within its capacity leaves it within it: activation,
-- cancellation, a player who joins and one who leaves.
pub league-IsLeague :
    (rt : Runtime) (clock : Clock) (config : Config) (who : Key) (account : Account League)
    (member : LeagueMember) {league : League} {joined : LeagueMember}
    → IsLeague account.account
    → (handle_activate_league clock config who account.account ≡ ok league → IsLeague league)
      × (handle_cancel_league config who account.account ≡ ok league → IsLeague league)
      × (handle_join_league rt clock config who account ≡ ok (league, joined) → IsLeague league)
      × (handle_leave_league_before_close clock account.account member ≡ ok league
          → IsLeague league)
unfolding handle_activate_league handle_cancel_league handle_join_league
    handle_leave_league_before_close
league-IsLeague rt clock config who account member v = ground arith

-- A player who has just joined can leave at once, while the registration is open, and the league is as before.
pub join-leave :
    (rt : Runtime) (clock : Clock) (config : Config) (player : Key) (account : Account League)
    {league : League} {member : LeagueMember}
    → handle_join_league rt clock config player account ≡ ok (league, member)
    → handle_leave_league_before_close clock league member ≡ ok account.account
unfolding handle_join_league handle_leave_league_before_close
join-leave rt clock config player account h = ground arith
