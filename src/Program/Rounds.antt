-- ===== src/Program/Rounds.antt =====
-- programs/tickersix/src/lib.rs: the entry points on rounds and prices, against the ledger.
use tickersix.Base.{List}
use tickersix.Errors.{Result, ok, ◌>>=◌}
use tickersix.Runtime.{Key, Runtime, Clock, Account}
use tickersix.State.{
  RoundAsset, PricePhase, SettlementPolicy, JupiterSourceConfig, MarketQualityPolicy, AttestorSet,
}
use tickersix.Round.Draft.{DraftArgs, create_market_round_draft}
use tickersix.Round.AddAsset.{AssetArgs, add_round_asset}
use tickersix.Round.Lifecycle.{freeze_market_round, advance_market_round, finalize_market_round}
use tickersix.Price.Submit.{Report, Instruction, submit_price_attestation}
use tickersix.Price.Phase.{PricePhaseAccounts, finalize_price_phase, mark_price_phase_unavailable}
use tickersix.Store.{load, update, insert, fresh}
use tickersix.Program.Ledger.{Ledger, PolicyKeys, infos}

-- The policy accounts of a call.
pub record Policies : Type 0 where
  pub policy : Account SettlementPolicy
  pub source : Account JupiterSourceConfig
  pub quality : Account MarketQualityPolicy
  pub set : Account AttestorSet

unfoldable pub load_policies : Ledger → PolicyKeys → Result Policies
unfolding load
load_policies l keys = do
  policy ← load keys.policy l.policies
  source ← load keys.source l.sources
  quality ← load keys.quality l.qualities
  set ← load keys.set l.attestor_sets
  ok (record { policy = policy; source = source; quality = quality; set = set })

module _ (rt : Runtime) (clock : Clock) (l : Ledger) where
  unfoldable pub run_draft : (coordinator round : Key) → PolicyKeys → DraftArgs → Result Ledger
  run_draft coordinator round keys args = do
    p ← load_policies l keys
    w ←
        create_market_round_draft rt
          (record {
            config = l.config;
            coordinator = coordinator;
            market_round = fresh round l.rounds;
            price_policy = p.policy;
            jupiter_source_config = p.source;
            market_quality_policy = p.quality;
            attestor_set = p.set;
          })
          args
    ok (record l {
      config = record (l.config) { account = w.0 };
      rounds = insert round w.1 l.rounds;
    })

  unfoldable pub run_add_asset :
      (coordinator round asset entry : Key) → PolicyKeys → List Key → AssetArgs → Result Ledger
  run_add_asset coordinator round asset entry keys remaining args = do
    r ← load round l.rounds
    e ← load entry l.registry
    p ← load_policies l keys
    w ←
        add_round_asset rt
          (record {
            config = l.config;
            market_round = r;
            coordinator = coordinator;
            round_asset = fresh asset l.round_assets;
            registry_entry = e;
            price_policy = p.policy;
            jupiter_source_config = p.source;
            market_quality_policy = p.quality;
            remaining_accounts = infos rt l remaining;
          })
          args
    ok (record l {
      rounds = update round w.0 l.rounds;
      round_assets = insert asset w.1 l.round_assets;
    })

  unfoldable pub run_freeze : (coordinator round : Key) → PolicyKeys → List Key → Result Ledger
  run_freeze coordinator round keys remaining = do
    r ← load round l.rounds
    p ← load_policies l keys
    r' ← freeze_market_round rt (record {
      config = l.config;
      market_round = r;
      price_policy = p.policy;
      jupiter_source_config = p.source;
      market_quality_policy = p.quality;
      attestor_set = p.set;
      coordinator = coordinator;
      remaining_accounts = infos rt l remaining;
    })
    ok (record l { rounds = update round r' l.rounds })

  unfoldable pub run_advance : Key → Result Ledger
  run_advance round = do
    r ← load round l.rounds
    r' ← advance_market_round rt clock r
    ok (record l { rounds = update round r' l.rounds })

  unfoldable pub run_finalize_round : Key → PolicyKeys → List Key → Result Ledger
  run_finalize_round round keys remaining = do
    r ← load round l.rounds
    p ← load_policies l keys
    r' ← finalize_market_round rt (record {
      market_round = r;
      price_policy = p.policy;
      jupiter_source_config = p.source;
      market_quality_policy = p.quality;
      remaining_accounts = infos rt l remaining;
    })
    ok (record l { rounds = update round r' l.rounds })

  unfoldable pub run_submit :
      (asset round attestor report_key : Key)
      → PolicyKeys
      → List Instruction
      → PricePhase
      → Report
      → Result Ledger
  run_submit asset round attestor report_key keys instructions phase report = do
    a ← load asset l.round_assets
    r ← load round l.rounds
    p ← load_policies l keys
    w ←
        submit_price_attestation rt clock
          (record {
            round_asset = a;
            market_round = r;
            price_policy = p.policy;
            jupiter_source_config = p.source;
            market_quality_policy = p.quality;
            attestor_set = p.set;
            attestor = attestor;
            price_attestation = fresh report_key l.attestations;
            instructions_sysvar = instructions;
          })
          phase report
    ok (record l { attestations = insert report_key w l.attestations })

  -- An instruction on one phase of an asset.
  unfoldable pub on_phase :
      (asset round : Key)
      → PolicyKeys
      → List Key
      → (PricePhaseAccounts → Result RoundAsset)
      → Result Ledger
  on_phase asset round keys remaining instruction = do
    a ← load asset l.round_assets
    r ← load round l.rounds
    policy ← load keys.policy l.policies
    source ← load keys.source l.sources
    set ← load keys.set l.attestor_sets
    a' ← instruction (record {
      round_asset = a;
      market_round = r;
      price_policy = policy;
      jupiter_source_config = source;
      attestor_set = set;
      remaining_accounts = infos rt l remaining;
    })
    ok (record l { round_assets = update asset a' l.round_assets })

  unfoldable pub run_finalize_phase :
      (asset round : Key) → PolicyKeys → List Key → PricePhase → Result Ledger
  unfolding on_phase
  run_finalize_phase asset round keys remaining phase = do
    quality ← load keys.quality l.qualities
    on_phase asset round keys remaining λ ctx. finalize_price_phase rt clock ctx quality phase

  unfoldable pub run_mark_unavailable :
      (asset round : Key) → PolicyKeys → List Key → PricePhase → Result Ledger
  unfolding on_phase
  run_mark_unavailable asset round keys remaining phase =
      on_phase asset round keys remaining λ ctx. mark_price_phase_unavailable rt clock ctx phase
