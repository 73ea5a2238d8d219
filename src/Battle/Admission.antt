-- ===== src/Battle/Admission.antt =====
-- programs/tickersix/src/instructions/battle.rs: who can be in a rated battle, and when.
use tickersix.Base.{◌≡◌, ◌≢◌, true, false, ◌||◌, [], ◌∷◌, arith, by_test, ℕ}
use tickersix.Base.Int.{◌≤ℤ◌, leb_ℤ→le}
use tickersix.Errors.{ok}
use tickersix.Runtime.{Key, Runtime, Clock, key_bytes}
use tickersix.Constants.{rated_slot_seed}
use tickersix.State.{MarketRound, eq_round_state, scheduled, commit_open}
use tickersix.Battle.Create.{
  CreateRatedBattle, BattleArgs, Created, create_rated_battle, create_constraints,
  handle_create_rated_battle, validate_rated_battle_window,
}

-- The address of the slot that a player has in a round.
abbrev pub slot_address : Runtime → Key → Key → Key
slot_address rt round player =
    rt.find_program_address (rated_slot_seed ∷ key_bytes round ∷ key_bytes player ∷ [])

slots_free :
    (rt : Runtime) (ctx : CreateRatedBattle) (id : ℕ)
    → create_constraints rt ctx id ≡ ok tt
    → (slot_address rt ctx.market_round.key ctx.player_a ≡ ctx.rated_slot_a.key)
      × (ctx.rated_slot_a.in_use ≡ false)
      × (slot_address rt ctx.market_round.key ctx.player_b ≡ ctx.rated_slot_b.key)
      × (ctx.rated_slot_b.in_use ≡ false)
unfolding create_constraints
slots_free rt ctx id h = (ground arith, ground arith, ground arith, ground arith)

window_open :
    (round : MarketRound) (clock : Clock)
    → validate_rated_battle_window round clock.unix_timestamp ≡ ok tt
    → ((eq_round_state round.state scheduled || eq_round_state round.state commit_open) ≡ true)
      × (clock.unix_timestamp ≤ℤ round.commit_deadline)
unfolding validate_rated_battle_window
window_open round clock h = (
  by_test _ λ e. ground arith,
  leb_ℤ→le clock.unix_timestamp round.commit_deadline (by_test _ λ e. ground arith),
)

players_admitted :
    (rt : Runtime) (clock : Clock) (ctx : CreateRatedBattle) (args : BattleArgs) {c : Created}
    → handle_create_rated_battle rt clock ctx args ≡ ok c
    → (ctx.config.account.coordinator_authority ≡ ctx.coordinator)
      × (validate_rated_battle_window ctx.market_round.account clock.unix_timestamp ≡ ok tt)
      × (ctx.player_a ≢ ctx.player_b)
      × (c.rated_slot_a.player ≡ ctx.player_a)
      × (c.rated_slot_b.player ≡ ctx.player_b)
unfolding handle_create_rated_battle
players_admitted rt clock ctx args h =
    (ground arith, ground arith, ground arith, ground arith, ground arith)

-- When a rated battle is created, the coordinator signed, the round was scheduled or open for commitments
-- and its commit deadline had not passed, the players are two, and the slot of each is created at the
-- address of the round and the player, where there was no account.
pub create_rated_battle-admission :
    (rt : Runtime) (clock : Clock) (ctx : CreateRatedBattle) (args : BattleArgs) {c : Created}
    → create_rated_battle rt clock ctx args ≡ ok c
    → (ctx.config.account.coordinator_authority ≡ ctx.coordinator)
      × ((eq_round_state ctx.market_round.account.state scheduled
            || eq_round_state ctx.market_round.account.state commit_open)
          ≡ true)
      × (clock.unix_timestamp ≤ℤ ctx.market_round.account.commit_deadline)
      × (ctx.player_a ≢ ctx.player_b)
      × (slot_address rt ctx.market_round.key c.rated_slot_a.player ≡ ctx.rated_slot_a.key)
      × (ctx.rated_slot_a.in_use ≡ false)
      × (slot_address rt ctx.market_round.key c.rated_slot_b.player ≡ ctx.rated_slot_b.key)
      × (ctx.rated_slot_b.in_use ≡ false)
unfolding create_rated_battle
create_rated_battle-admission rt clock ctx args {c} h =
    let (signer, window, two, pa, pb) = players_admitted rt clock ctx args {c = c} (ground arith) in
    let (state, before) = window_open ctx.market_round.account clock window in
    let (address_a, free_a, address_b, free_b) = slots_free rt ctx args.battle_id (ground arith) in
    (signer, state, before, two, rw pa address_a, free_a, rw pb address_b, free_b)
