-- ===== src/Program/Admins.antt =====
-- programs/tickersix/src/lib.rs: the entry points on the configuration, the policies, the registry and
-- the leagues, against the ledger, with the account constraints of admin.rs.
use tickersix.Base.{ℕ, [], ◌∷◌}
use tickersix.Errors.{Result, ok, ErrorCode, require, ◌>>=◌, ◌>>◌}
use tickersix.Base.{◌==◌}
use tickersix.Runtime.{Key, Runtime, Clock, le_bytes, seeds_constraint, init_constraint}
use tickersix.Constants.{
  config_seed, settlement_policy_seed, jupiter_source_config_seed, quality_policy_seed,
  attestor_set_seed, asset_seed,
}
use tickersix.State.{Config, CompetitionDomain}
use tickersix.League.{
  LeagueArgs, create_official_league, activate_league, cancel_league, join_league,
  leave_league_before_close, deactivate_league_member,
}
use tickersix.Admin.{
  PolicyArgs, SourceArgs, handle_create_price_policy, handle_create_jupiter_source_config,
  handle_create_market_quality_policy, handle_create_attestor_set,
}
use tickersix.Admin.Registry.{EntryArgs, handle_create_registry_entry}
use tickersix.Store.{load, update, insert, remove, fresh}
use tickersix.Program.Ledger.{Ledger}

module _ (rt : Runtime) (clock : Clock) (l : Ledger) where
  abbrev config_check : Result (Unit {0})
  config_check = seeds_constraint rt (config_seed ∷ []) l.config.account.bump l.config.key

  -- An instruction of the administrator that changes the configuration alone.
  unfoldable pub on_config : (Config → Result Config) → Result Ledger
  on_config instruction = do
    config_check
    c ← instruction l.config.account
    ok (record l { config = record (l.config) { account = c } })

  unfoldable pub run_create_policy : (payer policy : Key) → PolicyArgs → Result Ledger
  run_create_policy payer policy args = do
    config_check
    init_constraint rt (settlement_policy_seed ∷ le_bytes 2 args.version ∷ [])
        (fresh policy l.policies)
    w ← handle_create_price_policy rt l.config.account payer args
    ok (record l {
      config = record (l.config) { account = w.0 };
      policies = insert policy w.1 l.policies;
    })

  unfoldable pub run_create_source : (payer source set : Key) → SourceArgs → Result Ledger
  run_create_source payer source set args = do
    config_check
    s ← load set l.attestor_sets
    init_constraint rt (jupiter_source_config_seed ∷ le_bytes 2 args.version ∷ [])
        (fresh source l.sources)
    seeds_constraint rt (attestor_set_seed ∷ le_bytes 2 s.account.version ∷ []) s.account.bump s.key
    require (s.account.version == l.config.account.current_attestor_set_version)
        ErrorCode.invalid_policy_version
    w ← handle_create_jupiter_source_config rt l.config.account payer s.account args
    ok (record l {
      config = record (l.config) { account = w.0 };
      sources = insert source w.1 l.sources;
    })

  unfoldable pub run_create_quality :
      (payer quality : Key) (version : ℕ) (hash : Key) → ℕ → CompetitionDomain → Result Ledger
  run_create_quality payer quality version hash least domain = do
    config_check
    init_constraint rt (quality_policy_seed ∷ le_bytes 2 version ∷ []) (fresh quality l.qualities)
    w ← handle_create_market_quality_policy rt l.config.account payer version hash least domain
    ok (record l {
      config = record (l.config) { account = w.0 };
      qualities = insert quality w.1 l.qualities;
    })

  unfoldable pub run_create_set : (payer set : Key) (version : ℕ) (x y z : Key) → Result Ledger
  run_create_set payer set version x y z = do
    config_check
    init_constraint rt (attestor_set_seed ∷ le_bytes 2 version ∷ []) (fresh set l.attestor_sets)
    w ← handle_create_attestor_set rt l.config.account payer version x y z
    ok (record l {
      config = record (l.config) { account = w.0 };
      attestor_sets = insert set w.1 l.attestor_sets;
    })

  unfoldable pub run_create_entry : (token_program payer entry : Key) → EntryArgs → Result Ledger
  run_create_entry token_program payer entry args = do
    config_check
    init_constraint rt
        (asset_seed ∷ le_bytes 4 args.registry_version ∷ le_bytes 2 args.asset_id ∷ [])
        (fresh entry l.registry)
    w ← handle_create_registry_entry rt token_program l.config.account payer args
    ok (record l {
      config = record (l.config) { account = w.0 };
      registry = insert entry w.1 l.registry;
    })

  unfoldable pub run_create_league : (coordinator league : Key) → LeagueArgs → Result Ledger
  run_create_league coordinator league args = do
    g ← create_official_league rt clock l.config coordinator (fresh league l.leagues) args
    ok (record l { leagues = insert league g l.leagues })

  unfoldable pub run_activate_league : (coordinator league : Key) → Result Ledger
  run_activate_league coordinator league = do
    g ← load league l.leagues
    g' ← activate_league rt clock l.config coordinator g
    ok (record l { leagues = update league g' l.leagues })

  unfoldable pub run_cancel_league : (coordinator league : Key) → Result Ledger
  run_cancel_league coordinator league = do
    g ← load league l.leagues
    g' ← cancel_league rt l.config coordinator g
    ok (record l { leagues = update league g' l.leagues })

  unfoldable pub run_join_league : (player league member : Key) → Result Ledger
  run_join_league player league member = do
    g ← load league l.leagues
    w ← join_league rt clock l.config player g (fresh member l.members)
    ok (record l { leagues = update league w.0 l.leagues; members = insert member w.1 l.members })

  -- `close = player` removes the member account.
  unfoldable pub run_leave_league : (player league member : Key) → Result Ledger
  run_leave_league player league member = do
    g ← load league l.leagues
    m ← load member l.members
    g' ← leave_league_before_close rt clock l.config player g m
    ok (record l { leagues = update league g' l.leagues; members = remove member l.members })

  unfoldable pub run_deactivate_member : (coordinator league member : Key) → Result Ledger
  run_deactivate_member coordinator league member = do
    g ← load league l.leagues
    m ← load member l.members
    m' ← deactivate_league_member rt l.config coordinator g m
    ok (record l { members = update member m' l.members })
