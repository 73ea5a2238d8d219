-- ===== src/Program/BattleSteps.antt =====
-- programs/tickersix/src/lib.rs: the entry points on battles are steps of the abstract machine.
use tickersix.Base.{ℕ, ◌≡◌, ◌∙◌, false, List, Option, arith}
use mathlib.Core.Path.{subst}
use tickersix.Errors.{Result, ok, ◌>>=◌, >>=-eq-ok}
use tickersix.Runtime.{Key, Runtime, Clock, Account}
use tickersix.State.{MarketRound, Battle, Config}
use tickersix.Battle.Create.{BattleArgs, Created, CreateRatedBattle, create_rated_battle}
use tickersix.Battle.Lineup.{CommitLineup, RevealLineup, commit_lineup, reveal_lineup}
use tickersix.Battle.Settle.{settle_side_score, finalize_battle}
use tickersix.Battle.Close.{
  cancel_uncommitted_battle, finalize_forfeit, void_battle_if_price_unavailable,
  void_battle_for_system_incident,
}
use tickersix.Battle.Effects.{
  IsPlay, IsClose, IsOpen, commit_lineup-IsPlay, reveal_lineup-IsPlay, settle_side_score-IsPlay,
  finalize_battle-IsClose, cancel_uncommitted_battle-IsClose, finalize_forfeit-IsClose,
  void_price-IsClose, void_system-IsClose, battle_of_round-same, coordinator-same,
  create_rated_battle-IsOpen, create_constraints-fresh,
}
use tickersix.Accounts.{AccountInfo}
use tickersix.Store.{load, load-eq_ok, update, insert, fresh-none}
use tickersix.Program.Ledger.{Ledger, infos}
use tickersix.Program.Battles.{
  load_optional, on_battle, on_battle_and_round, run_create, run_commit, run_reveal, run_settle,
  run_finalize, run_cancel, run_forfeit, run_void_price, run_void_system,
}
use tickersix.Program.Effect.{Effect, opened, played, closed}

-- The whole instructions: the constraints pass, and the handler succeeds.
commit_whole :
    (rt : Runtime) (clock : Clock) (ctx : CommitLineup) (commitment : Key) {b : Battle}
    → commit_lineup rt clock ctx commitment ≡ ok b
    → IsPlay ctx.battle.account b
unfolding commit_lineup
commit_whole rt clock ctx commitment h = commit_lineup-IsPlay rt clock ctx commitment (ground arith)

reveal_whole :
    (rt : Runtime) (clock : Clock) (ctx : RevealLineup) (ids : List ℕ) (captain : ℕ) (salt : Key)
    {b : Battle}
    → reveal_lineup rt clock ctx ids captain salt ≡ ok b
    → IsPlay ctx.battle.account b
unfolding reveal_lineup
reveal_whole rt clock ctx ids captain salt h =
    reveal_lineup-IsPlay rt clock ctx ids captain salt (ground arith)

settle_whole :
    (rt : Runtime) (battle : Account Battle) (round : Account MarketRound)
    (infos : List AccountInfo) (i : ℕ) {b : Battle}
    → settle_side_score rt battle round infos i ≡ ok b
    → IsPlay battle.account b
unfolding settle_side_score
settle_whole rt battle round infos i h =
    settle_side_score-IsPlay rt battle round infos i (ground arith)

-- A close is of a battle of the round.
abbrev ClosesIn : Account Battle → Account MarketRound → Battle × MarketRound → Type 0
ClosesIn b r w = (b.account.market_round ≡ r.key) × IsClose b.account r.account w.0 w.1

finalize_whole :
    (rt : Runtime) (clock : Clock) (b : Account Battle) (r : Account MarketRound)
    {w : Battle × MarketRound}
    → finalize_battle rt clock b r ≡ ok w
    → ClosesIn b r w
unfolding finalize_battle
finalize_whole rt clock b r h = (
  battle_of_round-same rt b r (ground arith),
  finalize_battle-IsClose clock b.account r.account (ground arith),
)

cancel_whole :
    (rt : Runtime) (clock : Clock) (config : Account Config) (who : Key) (b : Account Battle)
    (r : Account MarketRound) {w : Battle × MarketRound}
    → cancel_uncommitted_battle rt clock config who b r ≡ ok w
    → ClosesIn b r w
unfolding cancel_uncommitted_battle
cancel_whole rt clock config who b r h = (
  coordinator-same rt config b r (ground arith),
  cancel_uncommitted_battle-IsClose clock config.account who b.account r.account (ground arith),
)

forfeit_whole :
    (rt : Runtime) (clock : Clock) (b : Account Battle) (r : Account MarketRound)
    {w : Battle × MarketRound}
    → finalize_forfeit rt clock b r ≡ ok w
    → ClosesIn b r w
unfolding finalize_forfeit
forfeit_whole rt clock b r h =
    (battle_of_round-same rt b r (ground arith), finalize_forfeit-IsClose clock b r (ground arith))

void_price_whole :
    (rt : Runtime) (clock : Clock) (b : Account Battle) (r : Account MarketRound)
    (is : List AccountInfo) {w : Battle × MarketRound}
    → void_battle_if_price_unavailable rt clock b r is ≡ ok w
    → ClosesIn b r w
unfolding void_battle_if_price_unavailable
void_price_whole rt clock b r is h = (
  battle_of_round-same rt b r (ground arith),
  void_price-IsClose rt clock b.account r is (ground arith),
)

void_system_whole :
    (rt : Runtime) (clock : Clock) (config : Account Config) (who : Key) (b : Account Battle)
    (r : Account MarketRound) {w : Battle × MarketRound}
    → void_battle_for_system_incident rt clock config who b r ≡ ok w
    → ClosesIn b r w
unfolding void_battle_for_system_incident
void_system_whole rt clock config who b r h = (
  coordinator-same rt config b r (ground arith),
  void_system-IsClose clock config.account who b.account r.account (ground arith),
)

module _ (rt : Runtime) (clock : Clock) (l : Ledger) where
  on_battle-Effect :
      (bk key : Key) (f : Account Battle → Account MarketRound → Result Battle) {l' : Ledger}
      → ((b : Account Battle) (r : Account MarketRound) (b' : Battle)
          → f b r ≡ ok b'
          → IsPlay b.account b')
      → on_battle rt clock l bk key f ≡ ok l'
      → Effect l l'
  unfolding on_battle
  on_battle-Effect bk key f {l'} plays h =
      let (b, eb, h1) =
        >>=-eq-ok (load bk l.battles)
          (λ b. load key l.rounds >>= λ r.
            f b r >>= λ b'. ok (record l { battles = update bk b' l.battles }))
          h in
      let (r, er, h2) =
        >>=-eq-ok (load key l.rounds)
          (λ r. f b r >>= λ b'. ok (record l { battles = update bk b' l.battles })) h1 in
      let (b', ef, h3) =
        >>=-eq-ok (f b r) (λ b'. ok (record l { battles = update bk b' l.battles })) h2 in
      let er' : l'.rounds ≡ l.rounds = cc in
      let eb' : l'.battles ≡ update bk b' l.battles = cc in
      played bk b.account b' (load-eq_ok bk l.battles b eb).1 (plays b r b' ef) er' eb'

  on_battle_and_round-Effect :
      (bk key : Key) (f : Account Battle → Account MarketRound → Result (Battle × MarketRound))
      {l' : Ledger}
      → ((b : Account Battle) (r : Account MarketRound) (w : Battle × MarketRound)
          → f b r ≡ ok w
          → (b.account.market_round ≡ r.key) × IsClose b.account r.account w.0 w.1)
      → on_battle_and_round rt clock l bk key f ≡ ok l'
      → Effect l l'
  unfolding on_battle_and_round
  on_battle_and_round-Effect bk key f {l'} closes h =
      let last : Battle × MarketRound → Result Ledger = λ w.
        ok (record l { battles = update bk w.0 l.battles; rounds = update key w.1 l.rounds }) in
      let (b, eb, h1) =
        >>=-eq-ok (load bk l.battles) (λ b. load key l.rounds >>= λ r. f b r >>= last) h in
      let (r, er, h2) = >>=-eq-ok (load key l.rounds) (λ r. f b r >>= last) h1 in
      let (w, ef, h3) = >>=-eq-ok (f b r) last h2 in
      let (same, close) = closes b r w ef in
      let (rk, fr) = load-eq_ok key l.rounds r er in
      let er' : l'.rounds ≡ update key w.1 l.rounds = cc in
      let eb' : l'.battles ≡ update bk w.0 l.battles = cc in
      closed key bk r.account w.1 b.account w.0 fr (load-eq_ok bk l.battles b eb).1 (same ∙ rk)
        close er' eb'

  pub run_commit-Effect :
      (bk key player commitment : Key) {l' : Ledger}
      → run_commit rt clock l bk key player commitment ≡ ok l'
      → Effect l l'
  unfolding run_commit
  run_commit-Effect bk key player commitment h =
      on_battle-Effect bk key _ (λ b r b' k. commit_whole rt clock _ commitment k) h

  pub run_reveal-Effect :
      (bk key player : Key) (ids : List ℕ) (captain : ℕ) (salt : Key) {l' : Ledger}
      → run_reveal rt clock l bk key player ids captain salt ≡ ok l'
      → Effect l l'
  unfolding run_reveal
  run_reveal-Effect bk key player ids captain salt h =
      on_battle-Effect bk key _ (λ b r b' k. reveal_whole rt clock _ ids captain salt k) h

  pub run_settle-Effect :
      (bk key : Key) (keys : List Key) (i : ℕ) {l' : Ledger}
      → run_settle rt clock l bk key keys i ≡ ok l'
      → Effect l l'
  unfolding run_settle
  run_settle-Effect bk key keys i h =
      on_battle-Effect bk key _ (λ b r b' k. settle_whole rt b r (infos rt l keys) i k) h

  pub run_finalize-Effect :
      (bk key : Key) {l' : Ledger} → run_finalize rt clock l bk key ≡ ok l' → Effect l l'
  unfolding run_finalize
  run_finalize-Effect bk key h =
      on_battle_and_round-Effect bk key _ (λ b r w k. finalize_whole rt clock b r k) h

  pub run_cancel-Effect :
      (who bk key : Key) {l' : Ledger} → run_cancel rt clock l who bk key ≡ ok l' → Effect l l'
  unfolding run_cancel
  run_cancel-Effect who bk key h =
      on_battle_and_round-Effect bk key _ (λ b r w k. cancel_whole rt clock l.config who b r k) h

  pub run_forfeit-Effect :
      (bk key : Key) {l' : Ledger} → run_forfeit rt clock l bk key ≡ ok l' → Effect l l'
  unfolding run_forfeit
  run_forfeit-Effect bk key h =
      on_battle_and_round-Effect bk key _ (λ b r w k. forfeit_whole rt clock b r k) h

  pub run_void_price-Effect :
      (bk key : Key) (keys : List Key) {l' : Ledger}
      → run_void_price rt clock l bk key keys ≡ ok l'
      → Effect l l'
  unfolding run_void_price
  run_void_price-Effect bk key keys h =
      on_battle_and_round-Effect bk key _
        (λ b r w k. void_price_whole rt clock b r (infos rt l keys) k) h

  pub run_void_system-Effect :
      (who bk key : Key) {l' : Ledger} → run_void_system rt clock l who bk key ≡ ok l' → Effect l l'
  unfolding run_void_system
  run_void_system-Effect who bk key h =
      on_battle_and_round-Effect bk key _ (λ b r w k. void_system_whole rt clock l.config who b r k)
        h

create_whole :
    (rt : Runtime) (clock : Clock) (ctx : CreateRatedBattle) (args : BattleArgs) {c : Created}
    → create_rated_battle rt clock ctx args ≡ ok c
    → (ctx.battle.in_use ≡ false) × IsOpen ctx.market_round.key ctx.market_round.account c
unfolding create_rated_battle
create_whole rt clock ctx args h = (
  (create_constraints-fresh rt ctx args.battle_id (ground arith)).0,
  create_rated_battle-IsOpen rt clock ctx args (ground arith),
)

module _ (rt : Runtime) (clock : Clock) (l : Ledger) where
  pub run_create-Effect :
      (who key pa pb : Key) (league ma mb : Option Key) (bk sa sb : Key) (args : BattleArgs)
      {l' : Ledger}
      → run_create rt clock l who key pa pb league ma mb bk sa sb args ≡ ok l'
      → Effect l l'
  unfolding run_create
  run_create-Effect who key pa pb league ma mb bk sa sb args {l'} h =
      let (r, er, h1) = >>=-eq-ok (load key l.rounds) _ h in
      let (la, _, h2) = >>=-eq-ok (load_optional league l.leagues) _ h1 in
      let (a, _, h3) = >>=-eq-ok (load_optional ma l.members) _ h2 in
      let (b, _, h4) = >>=-eq-ok (load_optional mb l.members) _ h3 in
      let (c, ec, h5) = >>=-eq-ok (create_rated_battle rt clock _ args) _ h4 in
      let (unused, opens) = create_whole rt clock _ args ec in
      let (rk, fr) = load-eq_ok key l.rounds r er in
      let er' : l'.rounds ≡ update key c.market_round l.rounds = cc in
      let eb' : l'.battles ≡ insert bk c.battle l.battles = cc in
      opened key bk r.account c fr (fresh-none bk l.battles unused)
        (subst (λ k. IsOpen k r.account c) rk opens) er' eb'
