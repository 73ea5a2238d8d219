-- ===== src/Tests/Ledgers.antt =====
-- Runs of the whole program on sample ledgers.
use tickersix.Round.Lifecycle.{finalize_market_round}
use tickersix.Program.Battles.{run_create}
use tickersix.Base.{
  ℕ, ◌+◌, ◌≡◌, refl, ◌==◌, Bool-cases, inl, inr, true, not, List, [], ◌∷◌, some, none, map, arith,
  test_bit, set_bit,
}
use tickersix.Base.Int.{pos, leb_ℤ}
use tickersix.Errors.{ok}
use tickersix.Runtime.{Key, Account}
use tickersix.State.{
  Battle, BattleSide, MarketRound, commit_open, settling, ranked, player_a, not_voided, is_pending,
}
use tickersix.State.{score_finalized}
use tickersix.Battle.Create.{
  BattleArgs, create_rated_battle, validate_rated_battle_window, mode_admission,
}
use tickersix.Battle.Settle.{compare_scores}
use tickersix.Base.Int.{ltb_ℤ}
use tickersix.Battle.Invariant.{IsBattle}
use tickersix.Store.{find, AllOf, load, fresh, count}
use tickersix.Program.Ledger.{Ledger, Call, PolicyKeys, infos}
use tickersix.Program.Dispatch.{process, run, Timed, after}
use tickersix.Program.Rounds.{run_finalize_round, load_policies}
use tickersix.Program.Effect.{Effect}
use tickersix.Program.Steps.{process-Effect}
use tickersix.Program.Counts.{IsCounted, is_of_round, is_closed_of}
use tickersix.Program.Reachable.{
  IsConsistent, run-IsConsistent, run-final, run_finalize_round-closed,
}
use tickersix.Tests.Sample.{
  rt, config, policy, source, quality, attestors, round_in, priced_asset, round_key, source_key,
  policy_key, quality_key, set_key, config_key, asset_key, battle_key, slot_key, at,
}

abbrev keys : PolicyKeys
keys = record { policy = policy_key; source = source_key; quality = quality_key; set = set_key }

-- A ledger with one round, its assets and these battles.
abbrev ledger : Account MarketRound → List (Account Battle) → Ledger
ledger round battles = record {
  config = config;
  policies = policy ∷ [];
  sources = source ∷ [];
  qualities = quality ∷ [];
  attestor_sets = attestors ∷ [];
  registry = [];
  rounds = round ∷ [];
  round_assets =
      map (λ i. record { key = asset_key i; account = priced_asset i })
        (0 ∷ 1 ∷ 2 ∷ 3 ∷ 4 ∷ 5 ∷ []);
  attestations = [];
  battles = battles;
  rated_slots = [];
  leagues = [];
  members = [];
}

abbrev args : BattleArgs
args = record {
  battle_id = 9;
  mode = ranked;
  league = 0;
  league_round_no = 0;
  rating_a_before = pos 1200;
  rating_b_before = pos 1300;
  rating_formula_version = 1;
}

-- The coordinator creates a battle of players 21 and 22, and the first commits.
abbrev create_call : Call
create_call =
    Call.create_rated_battle 2 round_key 21 22 none none none (battle_key 9) (slot_key 21)
      (slot_key 22) args

abbrev commit_call : Call
commit_call = Call.commit_lineup (battle_key 9) round_key 21 12345

abbrev start_ledger : Ledger
start_ledger = ledger (round_in commit_open 0 0) []

abbrev created_ledger : Ledger
created_ledger = after start_ledger (process rt (at 150) start_ledger create_call)

created-ok : process rt (at 150) start_ledger create_call ≡ ok created_ledger
unfolding process config_key round_key battle_key slot_key run_create load create_rated_battle fresh
    validate_rated_battle_window leb_ℤ mode_admission
created-ok = refl

process-Effect_example : Effect start_ledger created_ledger
process-Effect_example = process-Effect rt (at 150) start_ledger create_call created-ok

start-IsCounted : (k : Key) → IsCounted start_ledger.rounds [] k
unfolding find count
start-IsCounted k = elim (Bool-cases (round_key == k)) [
  | inl e ↦ record { rated_counts = rw e refl; resolved_counts = rw e refl }
  | inr e ↦ record { rated_counts = rw e refl; resolved_counts = rw e refl }
]

start-IsConsistent : IsConsistent start_ledger
start-IsConsistent = record { counted = start-IsCounted; battles_valid = tt }

abbrev calls : List Timed
calls =
    record { clock = at 150; call = create_call }
    ∷ record { clock = at 250; call = commit_call }
    ∷ record { clock = at 260; call = commit_call }
    ∷ []

run-IsConsistent_example : IsConsistent (run rt start_ledger calls)
run-IsConsistent_example = run-IsConsistent rt start_ledger calls start-IsConsistent

abbrev scored_side : Key → ℕ → BattleSide
scored_side who score = record {
  player = who;
  commitment = 500 + who;
  committed = true;
  commit_slot = 250;
  asset_ids = 0 ∷ 1 ∷ 2 ∷ 3 ∷ 4 ∷ 5 ∷ [];
  captain_asset_id = 2;
  revealed = true;
  reveal_slot = 350;
  score_q9 = pos score;
  score_finalized = true;
  status = score_finalized;
}

-- A battle that the first player has won.
abbrev won : Battle
won = record {
  battle_id = 9;
  market_round = round_key;
  mode = ranked;
  rated = true;
  league = 0;
  league_round_no = 0;
  rating_a_before = pos 1200;
  rating_b_before = pos 1300;
  rating_formula_version = 1;
  a = scored_side 21 300;
  b = scored_side 22 200;
  result = player_a;
  void_reason = not_voided;
  created_at = pos 150;
  finalized_at = pos 700;
  bump = 255;
}

abbrev won_ledger : Ledger
won_ledger = ledger (round_in settling 1 1) (record { key = battle_key 9; account = won } ∷ [])

found-won : find (battle_key 9) won_ledger.battles ≡ some won
unfolding find battle_key
found-won = refl

abbrev late_calls : List Timed
late_calls =
    record { clock = at 800; call = Call.finalize_battle (battle_key 9) round_key }
    ∷ record { clock = at 800; call = Call.finalize_forfeit (battle_key 9) round_key }
    ∷ record { clock = at 800; call = Call.set_pause 1 true }
    ∷ record {
      clock = at 800;
      call = Call.void_battle_for_system_incident 2 (battle_key 9) round_key;
    }
    ∷ []

run-final_example : find (battle_key 9) (run rt won_ledger late_calls).battles ≡ some won
run-final_example = run-final rt won_ledger late_calls (battle_key 9) won found-won refl

won-IsCounted : (k : Key) → IsCounted won_ledger.rounds won_ledger.battles k
unfolding find count is_of_round is_closed_of
won-IsCounted k = elim (Bool-cases (round_key == k)) [
  | inl e ↦ record { rated_counts = rw e refl; resolved_counts = rw e refl }
  | inr e ↦ record { rated_counts = rw e refl; resolved_counts = rw e refl }
]

won-valid : IsBattle won
unfolding compare_scores ltb_ℤ
won-valid = ground arith

won-IsConsistent : IsConsistent won_ledger
won-IsConsistent = record { counted = won-IsCounted; battles_valid = (won-valid, tt) }

abbrev final_keys : List Key
final_keys = map asset_key (0 ∷ 1 ∷ 2 ∷ 3 ∷ 4 ∷ 5 ∷ [])

abbrev final_ledger : Ledger
final_ledger =
    after won_ledger (run_finalize_round rt (at 900) won_ledger round_key keys final_keys)

final-ok : run_finalize_round rt (at 900) won_ledger round_key keys final_keys ≡ ok final_ledger
unfolding run_finalize_round round_key load load_policies policy_key source_key quality_key set_key
    finalize_market_round infos asset_key test_bit set_bit
final-ok = refl

run_finalize_round-closed_example :
    AllOf
      (λ b. is_of_round round_key b ≡ true → not (is_pending b.result) ≡ true)
      won_ledger.battles
run_finalize_round-closed_example =
    run_finalize_round-closed rt (at 900) won_ledger round_key keys final_keys won-IsConsistent
      final-ok
