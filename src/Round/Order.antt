-- ===== src/Round/Order.antt =====
-- programs/tickersix/src/instructions/round.rs: the order of rounds and of the states of one round.
use tickersix.Base.{suc, ◌<◌, ◌≡◌, Bool, true, ◌&&◌, ltb, ltb→lt, by_test, arith}
use tickersix.Base.Int.{ℤ, leb_ℤ, ltb_ℤ, leb_ℤ→le, ◌<ℤ◌, ◌≤ℤ◌}
use tickersix.Errors.{ok, is_ok}
use tickersix.Runtime.{Runtime}
use tickersix.State.{
  Config, MarketRound, MarketRoundState, round_state_code, preparing, scheduled, commit_open,
  reveal_open, live, ended, settling, finalized, voided,
}
use tickersix.Round.Draft.{CreateMarketRoundDraft, DraftArgs, handle_create_market_round_draft}
use tickersix.Round.Lifecycle.{next_state, next_market_round_state}

-- The deadlines of a round come one after the other.
pub record IsTimed (round : MarketRound) : Type 0 where
  pub frozen_first : round.eligibility_frozen_at <ℤ round.queue_close_at
  pub queue_then_commit : round.queue_close_at <ℤ round.commit_deadline
  pub commit_then_reveal : round.commit_deadline <ℤ round.reveal_deadline
  pub reveal_then_start : round.reveal_deadline <ℤ round.start_target_at
  pub start_then_end : round.start_target_at <ℤ round.end_target_at

-- The tests that a draft passes, and what it writes.
-- The test of the timing, on six times.
abbrev timing : (f q c r s e : ℤ) → Bool
timing f q c r s e = ltb_ℤ f q && ltb_ℤ q c && ltb_ℤ c r && ltb_ℤ r s && ltb_ℤ s e

timing-lt :
    (f q c r s e : ℤ)
    → timing f q c r s e ≡ true
    → (f <ℤ q) × (q <ℤ c) × (c <ℤ r) × (r <ℤ s) × (s <ℤ e)
unfolding ltb_ℤ
timing-lt f q c r s e h = ground arith

draft_timing :
    (rt : Runtime) (ctx : CreateMarketRoundDraft) (args : DraftArgs) {w : Config × MarketRound}
    → handle_create_market_round_draft rt ctx args ≡ ok w
    → timing args.eligibility_frozen_at args.queue_close_at args.commit_deadline
        args.reveal_deadline args.start_target_at args.end_target_at
      ≡ true
unfolding handle_create_market_round_draft
draft_timing rt ctx args h = by_test _ λ e. ground arith

draft_sequence :
    (rt : Runtime) (ctx : CreateMarketRoundDraft) (args : DraftArgs) {w : Config × MarketRound}
    → handle_create_market_round_draft rt ctx args ≡ ok w
    → (ltb ctx.config.account.last_market_round_id args.round_id ≡ true)
      × (leb_ℤ ctx.config.account.last_market_round_end_at args.start_target_at ≡ true)
unfolding handle_create_market_round_draft
draft_sequence rt ctx args h = (by_test _ λ e. ground arith, by_test _ λ e. ground arith)

draft_writes :
    (rt : Runtime) (ctx : CreateMarketRoundDraft) (args : DraftArgs) {config : Config}
    {round : MarketRound}
    → handle_create_market_round_draft rt ctx args ≡ ok (config, round)
    → (config.last_market_round_id ≡ args.round_id)
      × (config.last_market_round_end_at ≡ args.end_target_at)
      × (round.round_id ≡ args.round_id)
      × (round.eligibility_frozen_at ≡ args.eligibility_frozen_at)
      × (round.queue_close_at ≡ args.queue_close_at)
      × (round.commit_deadline ≡ args.commit_deadline)
      × (round.reveal_deadline ≡ args.reveal_deadline)
      × (round.start_target_at ≡ args.start_target_at)
      × (round.end_target_at ≡ args.end_target_at)
unfolding handle_create_market_round_draft
draft_writes rt ctx args h = ground arith

-- When a round is drafted, its deadlines are strictly ordered, it starts no earlier than the round
-- before it ends, its number is greater than the last one, and the configuration remembers both.
pub create_market_round_draft-IsTimed :
    (rt : Runtime) (ctx : CreateMarketRoundDraft) (args : DraftArgs) {config : Config}
    {round : MarketRound}
    → handle_create_market_round_draft rt ctx args ≡ ok (config, round)
    → IsTimed round
      × (ctx.config.account.last_market_round_end_at ≤ℤ round.start_target_at)
      × (ctx.config.account.last_market_round_id < round.round_id)
      × (config.last_market_round_id ≡ round.round_id)
      × (config.last_market_round_end_at ≡ round.end_target_at)
create_market_round_draft-IsTimed rt ctx args {config} {round} h =
    let (i, l, n, f, q, c, r, s, e) = draft_writes rt ctx args h in
    let timed : timing round.eligibility_frozen_at round.queue_close_at round.commit_deadline
          round.reveal_deadline round.start_target_at round.end_target_at
        ≡ true =
      rw (f, q, c, r, s, e) (draft_timing rt ctx args h) in
    let (fq, qc, cr, rs, se) = timing-lt _ _ _ _ _ _ timed in
    let (later, after) = draft_sequence rt ctx args h in
    (
      record {
        frozen_first = fq;
        queue_then_commit = qc;
        commit_then_reveal = cr;
        reveal_then_start = rs;
        start_then_end = se;
      },
      rw s (leb_ℤ→le ctx.config.account.last_market_round_end_at args.start_target_at after),
      rw n (ltb→lt ctx.config.account.last_market_round_id args.round_id later),
      cc,
      cc,
    )

-- The time from which the round may leave a state; `ended` is left at any time.
abbrev pub LeavesAt : MarketRoundState → MarketRound → ℤ → Type 0
LeavesAt scheduled round now = round.queue_close_at ≤ℤ now
LeavesAt commit_open round now = round.commit_deadline ≤ℤ now
LeavesAt reveal_open round now = round.start_target_at ≤ℤ now
LeavesAt live round now = round.end_target_at ≤ℤ now
LeavesAt ended round now = Unit
LeavesAt _ round now = ⊥

next_state-order :
    (state : MarketRoundState) (round : MarketRound) (now : ℤ)
    → ((next : MarketRoundState)
        → next_state state round now ≡ ok next
        → (round_state_code next ≡ suc (round_state_code state)) × LeavesAt state round now)
      × (LeavesAt state round now → is_ok (next_state state round now) ≡ true)
unfolding next_state leb_ℤ
next_state-order preparing round now = ground arith
next_state-order scheduled round now = ground arith
next_state-order commit_open round now = ground arith
next_state-order reveal_open round now = ground arith
next_state-order live round now = ground arith
next_state-order ended round now = ground arith
next_state-order settling round now = ground arith
next_state-order finalized round now = ground arith
next_state-order voided round now = ground arith

-- A round is advanced exactly when its state is one from `Scheduled` to `Ended` whose deadline has
-- passed, and then by one state; otherwise the instruction fails.
pub next_market_round_state_iff :
    (round : MarketRound) (now : ℤ)
    → ((next : MarketRoundState)
        → next_market_round_state round now ≡ ok next
        → (round_state_code next ≡ suc (round_state_code round.state))
          × LeavesAt round.state round now)
      × (LeavesAt round.state round now → is_ok (next_market_round_state round now) ≡ true)
unfolding next_market_round_state
next_market_round_state_iff round now = next_state-order round.state round now
