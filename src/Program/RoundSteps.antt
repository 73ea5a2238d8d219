-- ===== src/Program/RoundSteps.antt =====
-- programs/tickersix/src/lib.rs: the entry points on rounds and prices change no battle and no count.
use tickersix.Base.{ℕ, ◌≡◌, sym, false, List, arith}
use mathlib.Core.Path.{subst}
use tickersix.Errors.{Result, ok, >>=-eq-ok}
use tickersix.Runtime.{Key, Runtime, Clock, Account}
use tickersix.State.{MarketRound, RoundAsset, PricePhase, Config}
use tickersix.Round.Draft.{
  CreateMarketRoundDraft, DraftArgs, create_market_round_draft, handle_create_market_round_draft,
  draft_constraints,
}
use tickersix.Round.AddAsset.{AddRoundAsset, AssetArgs, add_round_asset, handle_add_round_asset}
use tickersix.Round.Lifecycle.{
  FreezeMarketRound, FinalizeMarketRound, freeze_market_round, handle_freeze_market_round,
  advance_market_round, finalize_market_round, handle_finalize_market_round,
}
use tickersix.Price.Submit.{Report, Instruction, submit_price_attestation}
use tickersix.Price.Phase.{PricePhaseAccounts, finalize_price_phase, mark_price_phase_unavailable}
use tickersix.Store.{load, load-eq_ok, update, insert, fresh-none}
use tickersix.Program.Ledger.{Ledger, PolicyKeys}
use tickersix.Program.Rounds.{
  load_policies, run_draft, run_add_asset, run_freeze, run_advance, run_finalize_round, run_submit,
  on_phase, run_finalize_phase, run_mark_unavailable,
}
use tickersix.Program.Effect.{
  Effect, quiet, SameCounts, SameCounts-refl, SameCounts-update, SameCounts-insert,
}

-- The counts are those of the round before.
abbrev Keeps : MarketRound → MarketRound → Type 0
Keeps r r' =
    (r'.rated_battle_count ≡ r.rated_battle_count)
    × (r'.resolved_battle_count ≡ r.resolved_battle_count)

draft_handler :
    (rt : Runtime) (ctx : CreateMarketRoundDraft) (args : DraftArgs) {w : Config × MarketRound}
    → handle_create_market_round_draft rt ctx args ≡ ok w
    → (w.1.rated_battle_count ≡ 0) × (w.1.resolved_battle_count ≡ 0)
unfolding handle_create_market_round_draft
draft_handler rt ctx args h = (ground arith, ground arith)

draft_fresh :
    (rt : Runtime) (ctx : CreateMarketRoundDraft) (id : ℕ)
    → draft_constraints rt ctx id ≡ ok tt
    → ctx.market_round.in_use ≡ false
unfolding draft_constraints
draft_fresh rt ctx id h = ground arith

draft_whole :
    (rt : Runtime) (ctx : CreateMarketRoundDraft) (args : DraftArgs) {w : Config × MarketRound}
    → create_market_round_draft rt ctx args ≡ ok w
    → (ctx.market_round.in_use ≡ false)
      × (w.1.rated_battle_count ≡ 0)
      × (w.1.resolved_battle_count ≡ 0)
unfolding create_market_round_draft
draft_whole rt ctx args {w} h =
    let (rated, resolved) = draft_handler rt ctx args {w = w} (ground arith) in
    (draft_fresh rt ctx args.round_id (ground arith), rated, resolved)

add_handler :
    (rt : Runtime) (ctx : AddRoundAsset) (args : AssetArgs) {w : MarketRound × RoundAsset}
    → handle_add_round_asset rt ctx args ≡ ok w
    → Keeps ctx.market_round.account w.0
unfolding handle_add_round_asset
add_handler rt ctx args h = (ground arith, ground arith)

add_whole :
    (rt : Runtime) (ctx : AddRoundAsset) (args : AssetArgs) {w : MarketRound × RoundAsset}
    → add_round_asset rt ctx args ≡ ok w
    → Keeps ctx.market_round.account w.0
unfolding add_round_asset
add_whole rt ctx args {w} h = add_handler rt ctx args {w = w} (ground arith)

freeze_handler :
    (rt : Runtime) (ctx : FreezeMarketRound) {r : MarketRound}
    → handle_freeze_market_round rt ctx ≡ ok r
    → Keeps ctx.market_round.account r
unfolding handle_freeze_market_round
freeze_handler rt ctx h = (ground arith, ground arith)

freeze_whole :
    (rt : Runtime) (ctx : FreezeMarketRound) {r : MarketRound}
    → freeze_market_round rt ctx ≡ ok r
    → Keeps ctx.market_round.account r
unfolding freeze_market_round
freeze_whole rt ctx {r} h = freeze_handler rt ctx {r = r} (ground arith)

advance_whole :
    (rt : Runtime) (clock : Clock) (round : Account MarketRound) {r : MarketRound}
    → advance_market_round rt clock round ≡ ok r
    → Keeps round.account r
unfolding advance_market_round
advance_whole rt clock round h = (ground arith, ground arith)

finalize_handler :
    (rt : Runtime) (ctx : FinalizeMarketRound) {r : MarketRound}
    → handle_finalize_market_round rt ctx ≡ ok r
    → Keeps ctx.market_round.account r
unfolding handle_finalize_market_round
finalize_handler rt ctx h = (ground arith, ground arith)

finalize_whole :
    (rt : Runtime) (ctx : FinalizeMarketRound) {r : MarketRound}
    → finalize_market_round rt ctx ≡ ok r
    → Keeps ctx.market_round.account r
unfolding finalize_market_round
finalize_whole rt ctx {r} h = finalize_handler rt ctx {r = r} (ground arith)

module _ (l : Ledger) where
  -- A round is written back with its counts.
  on_round :
      (key : Key) (r : Account MarketRound) (r' : MarketRound) {l' : Ledger}
      → load key l.rounds ≡ ok r
      → Keeps r.account r'
      → l'.rounds ≡ update key r' l.rounds
      → l'.battles ≡ l.battles
      → Effect l l'
  on_round key r r' e k er eb = quiet eb (
      subst (SameCounts l.rounds) (sym er)
        (SameCounts-update key r.account r' l.rounds (load-eq_ok key l.rounds r e).1 k.0 k.1))

  pub same_rounds : {l' : Ledger} → l'.rounds ≡ l.rounds → l'.battles ≡ l.battles → Effect l l'
  same_rounds er eb = quiet eb (SameCounts-refl er)

module _ (rt : Runtime) (clock : Clock) (l : Ledger) where
  pub run_draft-Effect :
      (who key : Key) (keys : PolicyKeys) (args : DraftArgs) {l' : Ledger}
      → run_draft rt clock l who key keys args ≡ ok l'
      → Effect l l'
  unfolding run_draft
  run_draft-Effect who key keys args {l'} h =
      let (p, _, h1) = >>=-eq-ok (load_policies l keys) _ h in
      let (w, ew, h2) = >>=-eq-ok (create_market_round_draft rt _ args) _ h1 in
      let (unused, none_rated, none_resolved) = draft_whole rt _ args ew in
      let er : l'.rounds ≡ insert key w.1 l.rounds = cc in
      let eb : l'.battles ≡ l.battles = cc in
      quiet eb (
        subst (SameCounts l.rounds) (sym er) (
          SameCounts-insert key w.1 l.rounds (fresh-none key l.rounds unused) none_rated
            none_resolved))

  pub run_add_asset-Effect :
      (who key asset entry : Key) (keys : PolicyKeys) (remaining : List Key) (args : AssetArgs)
      {l' : Ledger}
      → run_add_asset rt clock l who key asset entry keys remaining args ≡ ok l'
      → Effect l l'
  unfolding run_add_asset
  run_add_asset-Effect who key asset entry keys remaining args {l'} h =
      let (r, er, h1) = >>=-eq-ok (load key l.rounds) _ h in
      let (e, _, h2) = >>=-eq-ok (load entry l.registry) _ h1 in
      let (p, _, h3) = >>=-eq-ok (load_policies l keys) _ h2 in
      let (w, ew, h4) = >>=-eq-ok (add_round_asset rt _ args) _ h3 in
      let er' : l'.rounds ≡ update key w.0 l.rounds = cc in
      let eb : l'.battles ≡ l.battles = cc in
      on_round l key r w.0 er (add_whole rt _ args ew) er' eb

  pub run_freeze-Effect :
      (who key : Key) (keys : PolicyKeys) (remaining : List Key) {l' : Ledger}
      → run_freeze rt clock l who key keys remaining ≡ ok l'
      → Effect l l'
  unfolding run_freeze
  run_freeze-Effect who key keys remaining {l'} h =
      let (r, er, h1) = >>=-eq-ok (load key l.rounds) _ h in
      let (p, _, h2) = >>=-eq-ok (load_policies l keys) _ h1 in
      let (r', ew, h3) = >>=-eq-ok (freeze_market_round rt _) _ h2 in
      let er' : l'.rounds ≡ update key r' l.rounds = cc in
      let eb : l'.battles ≡ l.battles = cc in on_round l key r r' er (freeze_whole rt _ ew) er' eb

  pub run_advance-Effect :
      (key : Key) {l' : Ledger} → run_advance rt clock l key ≡ ok l' → Effect l l'
  unfolding run_advance
  run_advance-Effect key {l'} h =
      let (r, er, h1) = >>=-eq-ok (load key l.rounds) _ h in
      let (r', ew, h2) = >>=-eq-ok (advance_market_round rt clock r) _ h1 in
      let er' : l'.rounds ≡ update key r' l.rounds = cc in
      let eb : l'.battles ≡ l.battles = cc in
      on_round l key r r' er (advance_whole rt clock r ew) er' eb

  pub run_finalize_round-Effect :
      (key : Key) (keys : PolicyKeys) (remaining : List Key) {l' : Ledger}
      → run_finalize_round rt clock l key keys remaining ≡ ok l'
      → Effect l l'
  unfolding run_finalize_round
  run_finalize_round-Effect key keys remaining {l'} h =
      let (r, er, h1) = >>=-eq-ok (load key l.rounds) _ h in
      let (p, _, h2) = >>=-eq-ok (load_policies l keys) _ h1 in
      let (r', ew, h3) = >>=-eq-ok (finalize_market_round rt _) _ h2 in
      let er' : l'.rounds ≡ update key r' l.rounds = cc in
      let eb : l'.battles ≡ l.battles = cc in on_round l key r r' er (finalize_whole rt _ ew) er' eb

  pub run_submit-Effect :
      (asset key attestor report_key : Key) (keys : PolicyKeys) (is : List Instruction)
      (phase : PricePhase) (report : Report) {l' : Ledger}
      → run_submit rt clock l asset key attestor report_key keys is phase report ≡ ok l'
      → Effect l l'
  unfolding run_submit
  run_submit-Effect asset key attestor report_key keys is phase report {l'} h =
      let (a, _, h1) = >>=-eq-ok (load asset l.round_assets) _ h in
      let (r, _, h2) = >>=-eq-ok (load key l.rounds) _ h1 in
      let (p, _, h3) = >>=-eq-ok (load_policies l keys) _ h2 in
      let (w, _, h4) = >>=-eq-ok (submit_price_attestation rt clock _ phase report) _ h3 in
      let er : l'.rounds ≡ l.rounds = cc in
      let eb : l'.battles ≡ l.battles = cc in same_rounds l er eb

  on_phase-Effect :
      (asset key : Key) (keys : PolicyKeys) (remaining : List Key)
      (f : PricePhaseAccounts → Result RoundAsset) {l' : Ledger}
      → on_phase rt clock l asset key keys remaining f ≡ ok l'
      → Effect l l'
  unfolding on_phase
  on_phase-Effect asset key keys remaining f {l'} h =
      let (a, _, h1) = >>=-eq-ok (load asset l.round_assets) _ h in
      let (r, _, h2) = >>=-eq-ok (load key l.rounds) _ h1 in
      let (policy, _, h3) = >>=-eq-ok (load keys.policy l.policies) _ h2 in
      let (source, _, h4) = >>=-eq-ok (load keys.source l.sources) _ h3 in
      let (set, _, h5) = >>=-eq-ok (load keys.set l.attestor_sets) _ h4 in
      let (w, _, h6) = >>=-eq-ok (f _) _ h5 in
      let er : l'.rounds ≡ l.rounds = cc in
      let eb : l'.battles ≡ l.battles = cc in same_rounds l er eb

  pub run_finalize_phase-Effect :
      (asset key : Key) (keys : PolicyKeys) (remaining : List Key) (phase : PricePhase)
      {l' : Ledger}
      → run_finalize_phase rt clock l asset key keys remaining phase ≡ ok l'
      → Effect l l'
  unfolding run_finalize_phase
  run_finalize_phase-Effect asset key keys remaining phase h =
      let (quality, _, h1) = >>=-eq-ok (load keys.quality l.qualities) _ h in
      on_phase-Effect asset key keys remaining
        (λ ctx. finalize_price_phase rt clock ctx quality phase) h1

  pub run_mark_unavailable-Effect :
      (asset key : Key) (keys : PolicyKeys) (remaining : List Key) (phase : PricePhase)
      {l' : Ledger}
      → run_mark_unavailable rt clock l asset key keys remaining phase ≡ ok l'
      → Effect l l'
  unfolding run_mark_unavailable
  run_mark_unavailable-Effect asset key keys remaining phase h =
      on_phase-Effect asset key keys remaining
        (λ ctx. mark_price_phase_unavailable rt clock ctx phase) h
