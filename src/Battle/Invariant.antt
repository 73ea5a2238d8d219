-- ===== src/Battle/Invariant.antt =====
-- The invariant of a battle of battle.rs, and that every instruction on it keeps the invariant.
use tickersix.Base.{ℕ, zero, suc, ◌≡◌, ◌≢◌, true, false, List, arith}
use tickersix.Errors.{ok}
use tickersix.Runtime.{Key, Runtime, Clock, Account}
use tickersix.Accounts.{AccountInfo}
use tickersix.State.{
  Config, MarketRound, Battle, BattleSide, BattleResult, VoidReason, pending, player_a, player_b,
  draw, forfeit_a, forfeit_b, both_forfeit, voided_result, not_voided, awaiting_commit, committed,
  revealed, score_finalized, forfeited,
}
use tickersix.Battle.Create.{
  CreateRatedBattle, BattleArgs, Created, handle_create_rated_battle, new_side,
}
use tickersix.Battle.Lineup.{CommitLineup, RevealLineup, handle_commit_lineup, handle_reveal_lineup}
use tickersix.Battle.Settle.{handle_settle_side_score, handle_finalize_battle, compare_scores}
use tickersix.Battle.Close.{
  handle_cancel_uncommitted_battle, handle_finalize_forfeit,
  handle_void_battle_if_price_unavailable, handle_void_battle_for_system_incident,
}

-- A side goes from its commitment to the reveal and on to its score, and its status says how far it is.
pub record IsSide (s : BattleSide) : Type 0 where
  pub committed_key : s.committed ≡ true → s.commitment ≢ 0
  pub revealed_committed : s.revealed ≡ true → s.committed ≡ true
  pub scored_revealed : s.score_finalized ≡ true → s.revealed ≡ true
  pub awaiting_open : s.status ≡ awaiting_commit → s.committed ≡ false
  pub committed_status : s.status ≡ committed → (s.committed ≡ true) × (s.revealed ≡ false)
  pub revealed_status : s.status ≡ revealed → (s.revealed ≡ true) × (s.score_finalized ≡ false)
  pub scored_status : s.status ≡ score_finalized → s.score_finalized ≡ true
  pub forfeited_status : s.status ≡ forfeited → s.revealed ≡ false

-- Both sides were scored, and the result is that of the scores.
abbrev pub IsPlayed : BattleResult → BattleSide → BattleSide → VoidReason → Type 0
IsPlayed result a b v =
    (a.score_finalized ≡ true)
    × (b.score_finalized ≡ true)
    × (compare_scores a.score_q9 b.score_q9 ≡ result)
    × (v ≡ not_voided)

-- What each result says of the two sides.
abbrev pub Explains : BattleResult → BattleSide → BattleSide → VoidReason → Type 0
Explains pending a b v = (v ≡ not_voided) × (a.status ≢ forfeited) × (b.status ≢ forfeited)
Explains player_a a b v = IsPlayed player_a a b v
Explains player_b a b v = IsPlayed player_b a b v
Explains draw a b v = IsPlayed draw a b v
Explains forfeit_a a b v =
    (a.revealed ≡ false) × (b.revealed ≡ true) × (a.status ≡ forfeited) × (v ≡ not_voided)
Explains forfeit_b a b v =
    (a.revealed ≡ true) × (b.revealed ≡ false) × (b.status ≡ forfeited) × (v ≡ not_voided)
Explains both_forfeit a b v =
    (a.revealed ≡ false)
    × (b.revealed ≡ false)
    × (a.status ≡ forfeited)
    × (b.status ≡ forfeited)
    × (v ≡ not_voided)
Explains voided_result a b v = (v ≢ not_voided) × (a.status ≢ forfeited) × (b.status ≢ forfeited)

pub record IsBattle (battle : Battle) : Type 0 where
  pub is_side_a : IsSide battle.a
  pub is_side_b : IsSide battle.b
  pub explained : Explains battle.result battle.a battle.b battle.void_reason
  pub distinct : battle.a.player ≢ battle.b.player

new_side-IsSide : (player : Key) → IsSide (new_side player)
unfolding new_side
new_side-IsSide player = ground arith

-- What a created battle starts with.
created_fields :
    (rt : Runtime) (clock : Clock) (ctx : CreateRatedBattle) (args : BattleArgs) {c : Created}
    → handle_create_rated_battle rt clock ctx args ≡ ok c
    → (c.battle.a ≡ new_side ctx.player_a)
      × (c.battle.b ≡ new_side ctx.player_b)
      × (c.battle.result ≡ pending)
      × (c.battle.void_reason ≡ not_voided)
      × (ctx.player_a ≢ ctx.player_b)
unfolding handle_create_rated_battle
created_fields rt clock ctx args h = ground arith

of_new_sides :
    (battle : Battle) (p q : Key)
    → battle.a ≡ new_side p
    → battle.b ≡ new_side q
    → battle.result ≡ pending
    → battle.void_reason ≡ not_voided
    → p ≢ q
    → IsBattle battle
unfolding new_side
of_new_sides battle p q ea eb er ev ne = ground arith

-- A new battle satisfies the invariant.
pub create-IsBattle :
    (rt : Runtime) (clock : Clock) (ctx : CreateRatedBattle) (args : BattleArgs) {c : Created}
    → handle_create_rated_battle rt clock ctx args ≡ ok c
    → IsBattle c.battle
create-IsBattle rt clock ctx args {c} h =
    let (ea, eb, er, ev, ne) = created_fields rt clock ctx args h in
    of_new_sides c.battle ctx.player_a ctx.player_b ea eb er ev ne

pub commit-IsBattle :
    (clock : Clock) (ctx : CommitLineup) (commitment : Key) {battle : Battle}
    → handle_commit_lineup clock ctx commitment ≡ ok battle
    → IsBattle ctx.battle.account
    → IsBattle battle
unfolding handle_commit_lineup
commit-IsBattle clock ctx commitment h v = ground arith

pub reveal-IsBattle :
    (rt : Runtime) (clock : Clock) (ctx : RevealLineup) (ids : List ℕ) (captain : ℕ) (salt : Key)
    {battle : Battle}
    → handle_reveal_lineup rt clock ctx ids captain salt ≡ ok battle
    → IsBattle ctx.battle.account
    → IsBattle battle
unfolding handle_reveal_lineup
reveal-IsBattle rt clock ctx ids captain salt h v = ground arith

pub settle-IsBattle :
    (rt : Runtime) (account : Account Battle) (round : Account MarketRound)
    (infos : List AccountInfo) (i : ℕ) {battle : Battle}
    → handle_settle_side_score rt account round infos i ≡ ok battle
    → IsBattle account.account
    → IsBattle battle
unfolding handle_settle_side_score
settle-IsBattle rt account round infos zero h v = ground arith
settle-IsBattle rt account round infos (suc zero) h v = ground arith
settle-IsBattle rt account round infos (suc (suc i)) h v = absurd (ground arith)

pub finalize-IsBattle :
    (clock : Clock) (battle : Battle) (round : MarketRound) {b : Battle} {r : MarketRound}
    → handle_finalize_battle clock battle round ≡ ok (b, r)
    → IsBattle battle
    → IsBattle b
unfolding handle_finalize_battle compare_scores
finalize-IsBattle clock battle round h v = ground arith

pub cancel-IsBattle :
    (clock : Clock) (config : Config) (who : Key) (battle : Battle) (round : MarketRound)
    {b : Battle} {r : MarketRound}
    → handle_cancel_uncommitted_battle clock config who battle round ≡ ok (b, r)
    → IsBattle battle
    → IsBattle b
unfolding handle_cancel_uncommitted_battle
cancel-IsBattle clock config who battle round h v = ground arith

pub forfeit-IsBattle :
    (clock : Clock) (battle : Account Battle) (round : Account MarketRound) {b : Battle}
    {r : MarketRound}
    → handle_finalize_forfeit clock battle round ≡ ok (b, r)
    → IsBattle battle.account
    → IsBattle b
unfolding handle_finalize_forfeit
forfeit-IsBattle clock battle round h v = ground arith

pub void_price-IsBattle :
    (rt : Runtime) (clock : Clock) (battle : Battle) (round : Account MarketRound)
    (infos : List AccountInfo) {b : Battle} {r : MarketRound}
    → handle_void_battle_if_price_unavailable rt clock battle round infos ≡ ok (b, r)
    → IsBattle battle
    → IsBattle b
unfolding handle_void_battle_if_price_unavailable
void_price-IsBattle rt clock battle round infos h v = ground arith

pub void_system-IsBattle :
    (clock : Clock) (config : Config) (who : Key) (battle : Battle) (round : MarketRound)
    {b : Battle} {r : MarketRound}
    → handle_void_battle_for_system_incident clock config who battle round ≡ ok (b, r)
    → IsBattle battle
    → IsBattle b
unfolding handle_void_battle_for_system_incident
void_system-IsBattle clock config who battle round h v = ground arith
