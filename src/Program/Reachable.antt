-- ===== src/Program/Reachable.antt =====
-- programs/tickersix/src/lib.rs: what holds after any sequence of calls, failed ones included.
use tickersix.Base.{
  ◌≡◌, ◌≢◌, refl, sym, ◌∙◌, inl, inr, true, false, not, List, [], ◌∷◌, some, arith,
}
use mathlib.Core.Path.{subst}
use tickersix.Errors.{Result, ok, err, is_ok, Result-cases, >>=-eq-ok}
use tickersix.Runtime.{Key, Runtime, Clock, Account}
use tickersix.State.{MarketRound, Battle, is_pending}
use tickersix.Battle.Invariant.{IsBattle}
use tickersix.Store.{
  find, AllOf, AllOf-find, AllOf-update, find-update_ne, find-insert, count, count-eq_all, load,
  load-eq_ok,
}
use tickersix.Program.Ledger.{Ledger, Call, PolicyKeys}
use tickersix.Program.Rounds.{run_finalize_round, load_policies}
use tickersix.Round.Lifecycle.{FinalizeMarketRound, finalize_market_round}
use tickersix.Round.Final.{finalize_market_round-outcome}
use tickersix.Program.Dispatch.{process, run, Timed, after}
use tickersix.Program.Effect.{Effect, quiet, opened, played, closed}
use tickersix.Program.Counts.{IsCounted, Effect-IsCounted, is_of_round, is_closed_of}
use tickersix.Program.Steps.{process-Effect}

failed : (l : Ledger) (m : Result Ledger) → is_ok m ≡ false → after l m ≡ l
failed l (ok l') h = cc
failed l (err e) h = refl

-- What every step keeps holds after any sequence of calls; a failed call keeps everything.
module _ {κ} (P : Ledger → Type κ) (keeps : (l l' : Ledger) → Effect l l' → P l → P l')
    (rt : Runtime) where
  after-keeps :
      (clock : Clock) (l : Ledger) (call : Call) → P l → P (after l (process rt clock l call))
  after-keeps clock l call v = elim (Result-cases (process rt clock l call)) [
    | inl (l', e) ↦ rw e (keeps l l' (process-Effect rt clock l call e) v)
    | inr e ↦ subst P (sym (failed l (process rt clock l call) e)) v
  ]

  pub run-keeps : (l : Ledger) (ts : List Timed) → P l → P (run rt l ts)
  unfolding run
  run-keeps l [] v = v
  run-keeps l (t ∷ ts) v =
      run-keeps (after l (process rt t.clock l t.call)) ts (after-keeps t.clock l t.call v)

-- The counts of every round, and the invariant of every battle.
pub record IsConsistent (l : Ledger) : Type 0 where
  pub counted : (k : Key) → IsCounted l.rounds l.battles k
  pub battles_valid : AllOf IsBattle l.battles

Effect-AllOf : {l l' : Ledger} → Effect l l' → AllOf IsBattle l.battles → AllOf IsBattle l'.battles
Effect-AllOf (quiet eb s) v = rw eb v
Effect-AllOf (opened key bk r c fr fb o er eb) v = rw eb (o.opened_valid, v)
Effect-AllOf {l} (played bk b b' f o er eb) v = rw eb (
    AllOf-update IsBattle bk b' l.battles v (o.play_keeps (AllOf-find IsBattle bk b l.battles v f)))
Effect-AllOf {l} (closed key bk r r' b b' fr fb m o er eb) v = rw eb (
    AllOf-update IsBattle bk b' l.battles v
      (o.close_keeps (AllOf-find IsBattle bk b l.battles v fb)))

-- From a consistent ledger, any sequence of calls, with any times, failed calls included, leads to a
-- consistent one: each round's `rated_battle_count` is the number of its battles, its
-- `resolved_battle_count` the number of those that have a result, and every battle satisfies the
-- invariant of its sides and its result.
pub run-IsConsistent :
    (rt : Runtime) (l : Ledger) (ts : List Timed) → IsConsistent l → IsConsistent (run rt l ts)
run-IsConsistent rt l ts =
    run-keeps IsConsistent
      (λ l l' e v. record {
        counted = λ k. Effect-IsCounted e k (v.counted k);
        battles_valid = Effect-AllOf e v.battles_valid;
      })
      rt l ts

finalize_whole :
    (rt : Runtime) (ctx : FinalizeMarketRound) {r : MarketRound}
    → finalize_market_round rt ctx ≡ ok r
    → ctx.market_round.account.rated_battle_count ≡ ctx.market_round.account.resolved_battle_count
unfolding finalize_market_round
finalize_whole rt ctx {r} h = (finalize_market_round-outcome rt ctx {round = r} (ground arith)).1

finalized_counts :
    (rt : Runtime) (clock : Clock) (l : Ledger) (key : Key) (keys : PolicyKeys)
    (remaining : List Key) {l' : Ledger}
    → run_finalize_round rt clock l key keys remaining ≡ ok l'
    → (r : MarketRound) × (find key l.rounds ≡ some r)
      × (r.rated_battle_count ≡ r.resolved_battle_count)
unfolding run_finalize_round
finalized_counts rt clock l key keys remaining h =
    let (r, er, h1) = >>=-eq-ok (load key l.rounds) _ h in
    let (p, _, h2) = >>=-eq-ok (load_policies l keys) _ h1 in
    let (r', ew, h3) = >>=-eq-ok (finalize_market_round rt _) _ h2 in
    (r.account, (load-eq_ok key l.rounds r er).1, finalize_whole rt _ ew)

all_closed :
    (key : Key) (bs : List (Account Battle))
    → count (is_of_round key) bs ≡ count (is_closed_of key) bs
    → AllOf (λ b. is_of_round key b ≡ true → not (is_pending b.result) ≡ true) bs
unfolding is_closed_of
all_closed key bs h = count-eq_all (is_of_round key) (λ b. not (is_pending b.result)) bs h

other_battle :
    (k bk : Key) (b b' : Battle) (bs : List (Account Battle))
    → is_pending b.result ≡ false
    → is_pending b'.result ≡ true
    → find k bs ≡ some b
    → find bk bs ≡ some b'
    → bk ≢ k
other_battle k bk b b' bs p q f g e =
    let f' : find k bs ≡ some b' = subst (λ x. find x bs ≡ some b') e g in
    let same : b ≡ b' = cc in
    let p' : is_pending b'.result ≡ false = subst (λ x. is_pending x.result ≡ false) same p in
    absurd (cc)

-- A battle that has its result is still there, unchanged.
Effect-final :
    {l l' : Ledger} (k : Key) (b : Battle)
    → is_pending b.result ≡ false
    → Effect l l'
    → find k l.battles ≡ some b
    → find k l'.battles ≡ some b
Effect-final k b p (quiet eb s) h = rw eb h
Effect-final {l} k b p (opened key bk r c fr fb o er eb) h =
    rw eb (find-insert bk k c.battle b l.battles fb h)
Effect-final {l} k b p (played bk b₁ b' f o er eb) h =
    rw (eb, find-update_ne bk k b' l.battles (other_battle k bk b b₁ l.battles p o.play_before h f))
      h
Effect-final {l} k b p (closed key bk r r' b₁ b' fr fb m o er eb) h =
    rw
      (eb, find-update_ne bk k b' l.battles (other_battle k bk b b₁ l.battles p o.open_before h fb))
      h

-- A battle that has its result is final: after any sequence of calls it is still at its address, and no
-- field of it has changed.
pub run-final :
    (rt : Runtime) (l : Ledger) (ts : List Timed) (k : Key) (b : Battle)
    → find k l.battles ≡ some b
    → is_pending b.result ≡ false
    → find k (run rt l ts).battles ≡ some b
run-final rt l ts k b h p =
    run-keeps (λ l. find k l.battles ≡ some b) (λ l l' e v. Effect-final k b p e v) rt l ts h

-- In a consistent ledger, finalising a market round succeeds only when every battle of the round has a
-- result.
pub run_finalize_round-closed :
    (rt : Runtime) (clock : Clock) (l : Ledger) (key : Key) (keys : PolicyKeys)
    (remaining : List Key) {l' : Ledger}
    → IsConsistent l
    → run_finalize_round rt clock l key keys remaining ≡ ok l'
    → AllOf (λ b. is_of_round key b ≡ true → not (is_pending b.result) ≡ true) l.battles
run_finalize_round-closed rt clock l key keys remaining v h =
    let (r, f, e) = finalized_counts rt clock l key keys remaining h in
    let counts = v.counted key in
    let rated : r.rated_battle_count ≡ count (is_of_round key) l.battles =
      rw f at counts.rated_counts in
    let resolved : r.resolved_battle_count ≡ count (is_closed_of key) l.battles =
      rw f at counts.resolved_counts in
    all_closed key l.battles (sym rated ∙ e ∙ resolved)
