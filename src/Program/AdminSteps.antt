-- ===== src/Program/AdminSteps.antt =====
-- programs/tickersix/src/lib.rs: the entry points on the configuration, the policies, the registry and the
-- leagues change no battle and no round.
use tickersix.Base.{ℕ, ◌≡◌, arith}
use tickersix.Errors.{Result, ok}
use tickersix.Runtime.{Key, Runtime, Clock}
use tickersix.State.{Config, CompetitionDomain}
use tickersix.Admin.{PolicyArgs, SourceArgs}
use tickersix.Admin.Registry.{EntryArgs}
use tickersix.League.{LeagueArgs}
use tickersix.Program.Ledger.{Ledger}
use tickersix.Program.Admins.{
  on_config, run_create_policy, run_create_source, run_create_quality, run_create_set,
  run_create_entry, run_create_league, run_activate_league, run_cancel_league, run_join_league,
  run_leave_league, run_deactivate_member,
}
use tickersix.Program.Effect.{Effect}
use tickersix.Program.RoundSteps.{same_rounds}

module _ (rt : Runtime) (clock : Clock) (l : Ledger) where
  pub on_config-Effect :
      (f : Config → Result Config) {l' : Ledger} → on_config rt clock l f ≡ ok l' → Effect l l'
  unfolding on_config
  on_config-Effect f h = same_rounds l (ground arith) (ground arith)

  pub run_create_policy-Effect :
      (payer policy : Key) (args : PolicyArgs) {l' : Ledger}
      → run_create_policy rt clock l payer policy args ≡ ok l'
      → Effect l l'
  unfolding run_create_policy
  run_create_policy-Effect payer policy args h = same_rounds l (ground arith) (ground arith)

  pub run_create_source-Effect :
      (payer source set : Key) (args : SourceArgs) {l' : Ledger}
      → run_create_source rt clock l payer source set args ≡ ok l'
      → Effect l l'
  unfolding run_create_source
  run_create_source-Effect payer source set args h = same_rounds l (ground arith) (ground arith)

  pub run_create_quality-Effect :
      (payer quality : Key) (version : ℕ) (hash : Key) (least : ℕ) (domain : CompetitionDomain)
      {l' : Ledger}
      → run_create_quality rt clock l payer quality version hash least domain ≡ ok l'
      → Effect l l'
  unfolding run_create_quality
  run_create_quality-Effect payer quality version hash least domain h =
      same_rounds l (ground arith) (ground arith)

  pub run_create_set-Effect :
      (payer set : Key) (version : ℕ) (x y z : Key) {l' : Ledger}
      → run_create_set rt clock l payer set version x y z ≡ ok l'
      → Effect l l'
  unfolding run_create_set
  run_create_set-Effect payer set version x y z h = same_rounds l (ground arith) (ground arith)

  pub run_create_entry-Effect :
      (token payer entry : Key) (args : EntryArgs) {l' : Ledger}
      → run_create_entry rt clock l token payer entry args ≡ ok l'
      → Effect l l'
  unfolding run_create_entry
  run_create_entry-Effect token payer entry args h = same_rounds l (ground arith) (ground arith)

  pub run_create_league-Effect :
      (who league : Key) (args : LeagueArgs) {l' : Ledger}
      → run_create_league rt clock l who league args ≡ ok l'
      → Effect l l'
  unfolding run_create_league
  run_create_league-Effect who league args h = same_rounds l (ground arith) (ground arith)

  pub run_activate_league-Effect :
      (who league : Key) {l' : Ledger}
      → run_activate_league rt clock l who league ≡ ok l'
      → Effect l l'
  unfolding run_activate_league
  run_activate_league-Effect who league h = same_rounds l (ground arith) (ground arith)

  pub run_cancel_league-Effect :
      (who league : Key) {l' : Ledger}
      → run_cancel_league rt clock l who league ≡ ok l'
      → Effect l l'
  unfolding run_cancel_league
  run_cancel_league-Effect who league h = same_rounds l (ground arith) (ground arith)

  pub run_join_league-Effect :
      (player league member : Key) {l' : Ledger}
      → run_join_league rt clock l player league member ≡ ok l'
      → Effect l l'
  unfolding run_join_league
  run_join_league-Effect player league member h = same_rounds l (ground arith) (ground arith)

  pub run_leave_league-Effect :
      (player league member : Key) {l' : Ledger}
      → run_leave_league rt clock l player league member ≡ ok l'
      → Effect l l'
  unfolding run_leave_league
  run_leave_league-Effect player league member h = same_rounds l (ground arith) (ground arith)

  pub run_deactivate_member-Effect :
      (who league member : Key) {l' : Ledger}
      → run_deactivate_member rt clock l who league member ≡ ok l'
      → Effect l l'
  unfolding run_deactivate_member
  run_deactivate_member-Effect who league member h = same_rounds l (ground arith) (ground arith)
