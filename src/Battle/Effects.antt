-- ===== src/Battle/Effects.antt =====
-- programs/tickersix/src/instructions/battle.rs: what each whole instruction does to a battle and to the
-- counts of its round.
use tickersix.Base.{ℕ, zero, suc, ◌+◌, ◌≡◌, true, false, List, arith, by_test}
use tickersix.Errors.{ok}
use tickersix.Runtime.{Key, Runtime, Clock, Account}
use tickersix.Accounts.{AccountInfo}
use tickersix.State.{Config, MarketRound, Battle, is_pending}
use tickersix.Battle.Create.{
  CreateRatedBattle, BattleArgs, Created, create_constraints, handle_create_rated_battle,
}
use tickersix.Battle.Lineup.{CommitLineup, RevealLineup, handle_commit_lineup, handle_reveal_lineup}
use tickersix.Battle.Settle.{
  handle_settle_side_score, handle_finalize_battle, battle_of_round_constraints, compare_scores,
}
use tickersix.Battle.Close.{
  coordinator_constraints, handle_cancel_uncommitted_battle, handle_finalize_forfeit,
  handle_void_battle_if_price_unavailable, handle_void_battle_for_system_incident,
}
use tickersix.Battle.Invariant.{
  IsBattle, create-IsBattle, commit-IsBattle, reveal-IsBattle, settle-IsBattle, finalize-IsBattle,
  cancel-IsBattle, forfeit-IsBattle, void_price-IsBattle, void_system-IsBattle,
}

-- A move of a player or a score: the battle is open before and after, and stays in its round.
pub record IsPlay (b b' : Battle) : Type 0 where
  pub play_round : b'.market_round ≡ b.market_round
  pub play_before : is_pending b.result ≡ true
  pub play_after : is_pending b'.result ≡ true
  pub play_keeps : IsBattle b → IsBattle b'

-- The close of an open battle, which its round counts as resolved.
pub record IsClose (b : Battle) (r : MarketRound) (b' : Battle) (r' : MarketRound) : Type 0 where
  pub same_round : b'.market_round ≡ b.market_round
  pub open_before : is_pending b.result ≡ true
  pub closed_after : is_pending b'.result ≡ false
  pub one_more : r'.resolved_battle_count ≡ r.resolved_battle_count + 1
  pub rated_kept : r'.rated_battle_count ≡ r.rated_battle_count
  pub close_keeps : IsBattle b → IsBattle b'

pub commit_lineup-IsPlay :
    (rt : Runtime) (clock : Clock) (ctx : CommitLineup) (commitment : Key) {b : Battle}
    → handle_commit_lineup clock ctx commitment ≡ ok b
    → IsPlay ctx.battle.account b
unfolding handle_commit_lineup
commit_lineup-IsPlay rt clock ctx commitment h = record {
  play_round = ground arith;
  play_before = ground arith;
  play_after = ground arith;
  play_keeps = λ v. commit-IsBattle clock ctx commitment h v;
}

pub reveal_lineup-IsPlay :
    (rt : Runtime) (clock : Clock) (ctx : RevealLineup) (ids : List ℕ) (captain : ℕ) (salt : Key)
    {b : Battle}
    → handle_reveal_lineup rt clock ctx ids captain salt ≡ ok b
    → IsPlay ctx.battle.account b
unfolding handle_reveal_lineup
reveal_lineup-IsPlay rt clock ctx ids captain salt h = record {
  play_round = ground arith;
  play_before = ground arith;
  play_after = ground arith;
  play_keeps = λ v. reveal-IsBattle rt clock ctx ids captain salt h v;
}

-- The fields that a score leaves.
settle_fields :
    (rt : Runtime) (account : Account Battle) (round : Account MarketRound)
    (infos : List AccountInfo) (i : ℕ) {b : Battle}
    → handle_settle_side_score rt account round infos i ≡ ok b
    → (b.market_round ≡ account.account.market_round)
      × (is_pending account.account.result ≡ true)
      × (is_pending b.result ≡ true)
unfolding handle_settle_side_score
settle_fields rt account round infos zero h = ground arith
settle_fields rt account round infos (suc zero) h = ground arith
settle_fields rt account round infos (suc (suc i)) h = absurd (ground arith)

pub settle_side_score-IsPlay :
    (rt : Runtime) (account : Account Battle) (round : Account MarketRound)
    (infos : List AccountInfo) (i : ℕ) {b : Battle}
    → handle_settle_side_score rt account round infos i ≡ ok b
    → IsPlay account.account b
settle_side_score-IsPlay rt account round infos i h =
    let (same, before, after) = settle_fields rt account round infos i h in
    record {
      play_round = same;
      play_before = before;
      play_after = after;
      play_keeps = λ v. settle-IsBattle rt account round infos i h v;
    }

pub finalize_battle-IsClose :
    (clock : Clock) (battle : Battle) (round : MarketRound) {w : Battle × MarketRound}
    → handle_finalize_battle clock battle round ≡ ok w
    → IsClose battle round w.0 w.1
unfolding handle_finalize_battle compare_scores
finalize_battle-IsClose clock battle round {w} h = record {
  same_round = ground arith;
  open_before = by_test _ λ e. ground arith;
  closed_after = ground arith;
  one_more = ground arith;
  rated_kept = ground arith;
  close_keeps = λ v. finalize-IsBattle clock battle round h v;
}

pub cancel_uncommitted_battle-IsClose :
    (clock : Clock) (config : Config) (who : Key) (battle : Battle) (round : MarketRound)
    {w : Battle × MarketRound}
    → handle_cancel_uncommitted_battle clock config who battle round ≡ ok w
    → IsClose battle round w.0 w.1
unfolding handle_cancel_uncommitted_battle
cancel_uncommitted_battle-IsClose clock config who battle round {w} h = record {
  same_round = ground arith;
  open_before = by_test _ λ e. ground arith;
  closed_after = ground arith;
  one_more = ground arith;
  rated_kept = ground arith;
  close_keeps = λ v. cancel-IsBattle clock config who battle round h v;
}

pub finalize_forfeit-IsClose :
    (clock : Clock) (battle : Account Battle) (round : Account MarketRound)
    {w : Battle × MarketRound}
    → handle_finalize_forfeit clock battle round ≡ ok w
    → IsClose battle.account round.account w.0 w.1
unfolding handle_finalize_forfeit
finalize_forfeit-IsClose clock battle round {w} h = record {
  same_round = ground arith;
  open_before = by_test _ λ e. ground arith;
  closed_after = ground arith;
  one_more = ground arith;
  rated_kept = ground arith;
  close_keeps = λ v. forfeit-IsBattle clock battle round h v;
}

pub void_price-IsClose :
    (rt : Runtime) (clock : Clock) (battle : Battle) (round : Account MarketRound)
    (infos : List AccountInfo) {w : Battle × MarketRound}
    → handle_void_battle_if_price_unavailable rt clock battle round infos ≡ ok w
    → IsClose battle round.account w.0 w.1
unfolding handle_void_battle_if_price_unavailable
void_price-IsClose rt clock battle round infos {w} h = record {
  same_round = ground arith;
  open_before = by_test _ λ e. ground arith;
  closed_after = ground arith;
  one_more = ground arith;
  rated_kept = ground arith;
  close_keeps = λ v. void_price-IsBattle rt clock battle round infos h v;
}

pub void_system-IsClose :
    (clock : Clock) (config : Config) (who : Key) (battle : Battle) (round : MarketRound)
    {w : Battle × MarketRound}
    → handle_void_battle_for_system_incident clock config who battle round ≡ ok w
    → IsClose battle round w.0 w.1
unfolding handle_void_battle_for_system_incident
void_system-IsClose clock config who battle round {w} h = record {
  same_round = ground arith;
  open_before = by_test _ λ e. ground arith;
  closed_after = ground arith;
  one_more = ground arith;
  rated_kept = ground arith;
  close_keeps = λ v. void_system-IsBattle clock config who battle round h v;
}

-- The constraints of every instruction that closes a battle tie it to the round.
pub battle_of_round-same :
    (rt : Runtime) (battle : Account Battle) (round : Account MarketRound)
    → battle_of_round_constraints rt battle round ≡ ok tt
    → battle.account.market_round ≡ round.key
unfolding battle_of_round_constraints
battle_of_round-same rt battle round h = ground arith

pub coordinator-same :
    (rt : Runtime) (config : Account Config) (battle : Account Battle) (round : Account MarketRound)
    → coordinator_constraints rt config battle round ≡ ok tt
    → battle.account.market_round ≡ round.key
unfolding coordinator_constraints
coordinator-same rt config battle round h = ground arith

-- A new battle is open, belongs to the round, and is counted by it.
pub record IsOpen (key : Key) (r : MarketRound) (c : Created) : Type 0 where
  pub opened_round : c.battle.market_round ≡ key
  pub opened_open : is_pending c.battle.result ≡ true
  pub opened_rated : c.market_round.rated_battle_count ≡ r.rated_battle_count + 1
  pub opened_resolved : c.market_round.resolved_battle_count ≡ r.resolved_battle_count
  pub opened_valid : IsBattle c.battle

pub create_rated_battle-IsOpen :
    (rt : Runtime) (clock : Clock) (ctx : CreateRatedBattle) (args : BattleArgs) {c : Created}
    → handle_create_rated_battle rt clock ctx args ≡ ok c
    → IsOpen ctx.market_round.key ctx.market_round.account c
unfolding handle_create_rated_battle
create_rated_battle-IsOpen rt clock ctx args h = record {
  opened_round = ground arith;
  opened_open = ground arith;
  opened_rated = ground arith;
  opened_resolved = ground arith;
  opened_valid = create-IsBattle rt clock ctx args h;
}

-- The addresses of a new battle and of its two rated slots held no account.
pub create_constraints-fresh :
    (rt : Runtime) (ctx : CreateRatedBattle) (id : ℕ)
    → create_constraints rt ctx id ≡ ok tt
    → (ctx.battle.in_use ≡ false)
      × (ctx.rated_slot_a.in_use ≡ false)
      × (ctx.rated_slot_b.in_use ≡ false)
unfolding create_constraints
create_constraints-fresh rt ctx id h = (ground arith, ground arith, ground arith)
