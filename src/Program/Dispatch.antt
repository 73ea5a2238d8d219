-- ===== src/Program/Dispatch.antt =====
-- programs/tickersix/src/lib.rs: the program module, one arm for each entry point.
use tickersix.Base.{List, [], ◌∷◌}
use tickersix.Errors.{Result, ok, err}
use tickersix.Runtime.{Runtime, Clock}
use tickersix.Admin.{handle_set_pause, handle_rotate_admin, handle_rotate_coordinator}
use tickersix.Admin.Registry.{handle_freeze_registry_version}
use tickersix.Program.Ledger.{Ledger, Call}
use tickersix.Program.Admins.{
  on_config, run_create_policy, run_create_source, run_create_quality, run_create_set,
  run_create_entry, run_create_league, run_activate_league, run_cancel_league, run_join_league,
  run_leave_league, run_deactivate_member,
}
use tickersix.Program.Rounds.{
  run_draft, run_add_asset, run_freeze, run_advance, run_finalize_round, run_submit,
  run_finalize_phase, run_mark_unavailable,
}
use tickersix.Program.Battles.{
  run_create, run_commit, run_reveal, run_settle, run_finalize, run_cancel, run_forfeit,
  run_void_price, run_void_system,
}

unfoldable pub process : Runtime → Clock → Ledger → Call → Result Ledger
process rt clock l (Call.set_pause admin paused) =
    on_config rt clock l λ c. handle_set_pause c admin paused
process rt clock l (Call.rotate_admin admin new) =
    on_config rt clock l λ c. handle_rotate_admin c admin new
process rt clock l (Call.rotate_coordinator admin new) =
    on_config rt clock l λ c. handle_rotate_coordinator c admin new
process rt clock l (Call.freeze_registry_version admin) =
    on_config rt clock l λ c. handle_freeze_registry_version c admin
process rt clock l (Call.create_settlement_policy payer policy args) =
    run_create_policy rt clock l payer policy args
process rt clock l (Call.create_jupiter_source_config payer source set args) =
    run_create_source rt clock l payer source set args
process rt clock l (Call.create_market_quality_policy payer quality version hash least domain) =
    run_create_quality rt clock l payer quality version hash least domain
process rt clock l (Call.create_attestor_set payer set version x y z) =
    run_create_set rt clock l payer set version x y z
process rt clock l (Call.create_registry_entry token payer entry args) =
    run_create_entry rt clock l token payer entry args
process rt clock l (Call.create_official_league coordinator league args) =
    run_create_league rt clock l coordinator league args
process rt clock l (Call.activate_league coordinator league) =
    run_activate_league rt clock l coordinator league
process rt clock l (Call.cancel_league coordinator league) =
    run_cancel_league rt clock l coordinator league
process rt clock l (Call.join_league player league member) =
    run_join_league rt clock l player league member
process rt clock l (Call.leave_league_before_close player league member) =
    run_leave_league rt clock l player league member
process rt clock l (Call.deactivate_league_member coordinator league member) =
    run_deactivate_member rt clock l coordinator league member
process rt clock l (Call.create_market_round_draft coordinator round keys args) =
    run_draft rt clock l coordinator round keys args
process rt clock l (Call.add_round_asset coordinator round asset entry keys remaining args) =
    run_add_asset rt clock l coordinator round asset entry keys remaining args
process rt clock l (Call.freeze_market_round coordinator round keys remaining) =
    run_freeze rt clock l coordinator round keys remaining
process rt clock l (Call.advance_market_round round) = run_advance rt clock l round
process rt clock l (Call.finalize_market_round round keys remaining) =
    run_finalize_round rt clock l round keys remaining
process rt clock l
      (Call.create_rated_battle coordinator round a b league ma mb battle slot_a slot_b args) =
    run_create rt clock l coordinator round a b league ma mb battle slot_a slot_b args
process rt clock l (Call.commit_lineup battle round player commitment) =
    run_commit rt clock l battle round player commitment
process rt clock l (Call.cancel_uncommitted_battle coordinator battle round) =
    run_cancel rt clock l coordinator battle round
process rt clock l (Call.reveal_lineup battle round player ids captain salt) =
    run_reveal rt clock l battle round player ids captain salt
process rt clock l
      (Call.submit_price_attestation asset round attestor key keys instructions phase report) =
    run_submit rt clock l asset round attestor key keys instructions phase report
process rt clock l (Call.finalize_price_phase asset round keys remaining phase) =
    run_finalize_phase rt clock l asset round keys remaining phase
process rt clock l (Call.mark_price_phase_unavailable asset round keys remaining phase) =
    run_mark_unavailable rt clock l asset round keys remaining phase
process rt clock l (Call.settle_side_score battle round remaining side_index) =
    run_settle rt clock l battle round remaining side_index
process rt clock l (Call.finalize_battle battle round) = run_finalize rt clock l battle round
process rt clock l (Call.void_battle_for_system_incident coordinator battle round) =
    run_void_system rt clock l coordinator battle round
process rt clock l (Call.finalize_forfeit battle round) = run_forfeit rt clock l battle round
process rt clock l (Call.void_battle_if_price_unavailable battle round remaining) =
    run_void_price rt clock l battle round remaining

-- A failed instruction is rolled back.
abbrev pub after : Ledger → Result Ledger → Ledger
after l (ok l') = l'
after l (err e) = l

-- A call at the time at which it is executed.
pub record Timed : Type 0 where
  pub clock : Clock
  pub call : Call

unfoldable pub run : Runtime → Ledger → List Timed → Ledger
run rt l [] = l
run rt l (t ∷ ts) = run rt (after l (process rt t.clock l t.call)) ts
