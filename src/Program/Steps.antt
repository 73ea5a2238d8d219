-- ===== src/Program/Steps.antt =====
-- programs/tickersix/src/lib.rs: every instruction is a step of the abstract machine.
use tickersix.Base.{◌≡◌}
use tickersix.Errors.{ok}
use tickersix.Runtime.{Runtime, Clock}
use tickersix.Admin.{handle_set_pause, handle_rotate_admin, handle_rotate_coordinator}
use tickersix.Admin.Registry.{handle_freeze_registry_version}
use tickersix.Program.Ledger.{Ledger, Call}
use tickersix.Program.Dispatch.{process}
use tickersix.Program.Effect.{Effect}
use tickersix.Program.AdminSteps.{
  on_config-Effect, run_create_policy-Effect, run_create_source-Effect, run_create_quality-Effect,
  run_create_set-Effect, run_create_entry-Effect, run_create_league-Effect,
  run_activate_league-Effect, run_cancel_league-Effect, run_join_league-Effect,
  run_leave_league-Effect, run_deactivate_member-Effect,
}
use tickersix.Program.RoundSteps.{
  run_draft-Effect, run_add_asset-Effect, run_freeze-Effect, run_advance-Effect,
  run_finalize_round-Effect, run_submit-Effect, run_finalize_phase-Effect,
  run_mark_unavailable-Effect,
}
use tickersix.Program.BattleSteps.{
  run_create-Effect, run_commit-Effect, run_cancel-Effect, run_reveal-Effect, run_settle-Effect,
  run_finalize-Effect, run_void_system-Effect, run_forfeit-Effect, run_void_price-Effect,
}

-- Whatever call succeeds, on whatever ledger, it does one of four things to the battles and the rounds'
-- counts: nothing; it creates one open battle at a free address and counts it as rated in its round; it
-- changes an open battle that stays open and in its round; or it closes an open battle and counts it as
-- resolved in its own round. In the last three cases the invariant of the battle holds after the call
-- (where it held before it).
pub process-Effect :
    (rt : Runtime) (clock : Clock) (l : Ledger) (call : Call) {l' : Ledger}
    → process rt clock l call ≡ ok l'
    → Effect l l'
unfolding process
process-Effect rt clock l (Call.set_pause admin paused) h =
    on_config-Effect rt clock l (λ c. handle_set_pause c admin paused) h
process-Effect rt clock l (Call.rotate_admin admin new) h =
    on_config-Effect rt clock l (λ c. handle_rotate_admin c admin new) h
process-Effect rt clock l (Call.rotate_coordinator admin new) h =
    on_config-Effect rt clock l (λ c. handle_rotate_coordinator c admin new) h
process-Effect rt clock l (Call.freeze_registry_version admin) h =
    on_config-Effect rt clock l (λ c. handle_freeze_registry_version c admin) h
process-Effect rt clock l (Call.create_settlement_policy payer policy args) h =
    run_create_policy-Effect rt clock l payer policy args h
process-Effect rt clock l (Call.create_jupiter_source_config payer source set args) h =
    run_create_source-Effect rt clock l payer source set args h
process-Effect rt clock l
      (Call.create_market_quality_policy payer quality version hash least domain) h =
    run_create_quality-Effect rt clock l payer quality version hash least domain h
process-Effect rt clock l (Call.create_attestor_set payer set version x y z) h =
    run_create_set-Effect rt clock l payer set version x y z h
process-Effect rt clock l (Call.create_registry_entry token payer entry args) h =
    run_create_entry-Effect rt clock l token payer entry args h
process-Effect rt clock l (Call.create_official_league coordinator league args) h =
    run_create_league-Effect rt clock l coordinator league args h
process-Effect rt clock l (Call.activate_league coordinator league) h =
    run_activate_league-Effect rt clock l coordinator league h
process-Effect rt clock l (Call.cancel_league coordinator league) h =
    run_cancel_league-Effect rt clock l coordinator league h
process-Effect rt clock l (Call.join_league player league member) h =
    run_join_league-Effect rt clock l player league member h
process-Effect rt clock l (Call.leave_league_before_close player league member) h =
    run_leave_league-Effect rt clock l player league member h
process-Effect rt clock l (Call.deactivate_league_member coordinator league member) h =
    run_deactivate_member-Effect rt clock l coordinator league member h
process-Effect rt clock l (Call.create_market_round_draft coordinator round keys args) h =
    run_draft-Effect rt clock l coordinator round keys args h
process-Effect rt clock l (Call.add_round_asset coordinator round asset entry keys remaining args)
      h =
    run_add_asset-Effect rt clock l coordinator round asset entry keys remaining args h
process-Effect rt clock l (Call.freeze_market_round coordinator round keys remaining) h =
    run_freeze-Effect rt clock l coordinator round keys remaining h
process-Effect rt clock l (Call.advance_market_round round) h =
    run_advance-Effect rt clock l round h
process-Effect rt clock l (Call.finalize_market_round round keys remaining) h =
    run_finalize_round-Effect rt clock l round keys remaining h
process-Effect rt clock l
      (Call.create_rated_battle coordinator round a b league ma mb battle slot_a slot_b args) h =
    run_create-Effect rt clock l coordinator round a b league ma mb battle slot_a slot_b args h
process-Effect rt clock l (Call.commit_lineup battle round player commitment) h =
    run_commit-Effect rt clock l battle round player commitment h
process-Effect rt clock l (Call.cancel_uncommitted_battle coordinator battle round) h =
    run_cancel-Effect rt clock l coordinator battle round h
process-Effect rt clock l (Call.reveal_lineup battle round player ids captain salt) h =
    run_reveal-Effect rt clock l battle round player ids captain salt h
process-Effect rt clock l
      (Call.submit_price_attestation asset round attestor key keys instructions phase report) h =
    run_submit-Effect rt clock l asset round attestor key keys instructions phase report h
process-Effect rt clock l (Call.finalize_price_phase asset round keys remaining phase) h =
    run_finalize_phase-Effect rt clock l asset round keys remaining phase h
process-Effect rt clock l (Call.mark_price_phase_unavailable asset round keys remaining phase) h =
    run_mark_unavailable-Effect rt clock l asset round keys remaining phase h
process-Effect rt clock l (Call.settle_side_score battle round remaining side_index) h =
    run_settle-Effect rt clock l battle round remaining side_index h
process-Effect rt clock l (Call.finalize_battle battle round) h =
    run_finalize-Effect rt clock l battle round h
process-Effect rt clock l (Call.void_battle_for_system_incident coordinator battle round) h =
    run_void_system-Effect rt clock l coordinator battle round h
process-Effect rt clock l (Call.finalize_forfeit battle round) h =
    run_forfeit-Effect rt clock l battle round h
process-Effect rt clock l (Call.void_battle_if_price_unavailable battle round remaining) h =
    run_void_price-Effect rt clock l battle round remaining h
