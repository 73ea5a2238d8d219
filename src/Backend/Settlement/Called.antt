-- ===== src/Backend/Settlement/Called.antt =====
-- backend/src/settlement.rs: every action of a plan is called for.
use tickersix.Base.{
  Some, Some-map, All-Some, ℕ, ◌≡◌, ◌∙◌, ◌⊎◌, refl, sym, Bool, true, false, not, ◌&&◌, ◌||◌, ◌==◌,
  List, [], ◌∷◌, ◌++◌, All, inl, inr, Bool-cases, sort_by, &&_true, ==_iff,
}
use mathlib.Core.Path.{subst}
use tickersix.Base.Int.{ltb_ℤ, ltb_ℤ→lt}
use tickersix.Outcome.{Outcome, ok, >>=-eq-ok}
use tickersix.Backend.Settlement.{
  SourceKind, Phase, RoundState, PhaseStatus, AssetSettlementState, BattleSettlementState,
  SettlementSnapshot, SettlementAction, SettlementError, phase_action, plan_phase, plan_asset,
  plan_assets, plan_battle, plan_battles, plan_settling, plan_state, plan_settlement,
  finalize_round, all_assets_available, all_assets_resolved, is_nothing, asset_lt, battle_lt, when,
  is_pending, validate_snapshot,
}
use tickersix.Backend.Settlement.Plans.{
  All-sort_by, CalledFor, IsDue, IsOpen, status, deadline, has_quorum, resolved-sort,
  all_available-sort,
}

All-append {ℓ} :
    {A : Type ℓ} (P : A → Type 0) (xs ys : List A) → All P xs → All P ys → All P (xs ++ ys)
All-append P [] ys h k = k
All-append P (x ∷ xs) ys h k = (h.0, All-append P xs ys h.1 k)

member :
    {A : Type 0} (P : A → Type 0) (a : A) (xs : List A) → Some (λ x. x ≡ a) xs → P a → Some P xs
member P a xs m p = Some-map xs (λ x e. subst P (sym e) p) m

pending_is : (p : PhaseStatus) → is_pending p ≡ true → p ≡ PhaseStatus.pending
pending_is PhaseStatus.pending h = refl
pending_is PhaseStatus.finalized h = cc
pending_is PhaseStatus.unavailable h = cc

not-true : (a : Bool) → not a ≡ true → a ≡ false
not-true false h = refl
not-true true h = cc

and_left : (a b : Bool) → (a && b) ≡ true → a ≡ true
and_left a b h = (&&_true a b h).0

and_right : (a b : Bool) → (a && b) ≡ true → b ≡ true
and_right a b h = (&&_true a b h).1

or_split : (a b : Bool) → (a || b) ≡ true → (a ≡ true) ⊎ (b ≡ true)
or_split true b h = inl refl
or_split false b h = inr h

not_split : (a b : Bool) → (not a || not b) ≡ true → (a ≡ false) ⊎ (b ≡ false)
not_split true b h = inr (not-true b h)
not_split false b h = inl refl

neither_not : (a b : Bool) → (not a || not b) ≡ false → (a ≡ true) × (b ≡ true)
neither_not true true h = (refl, refl)
neither_not true false h = absurd (cc)
neither_not false b h = absurd (cc)

ok_inj :
    {x y : List SettlementAction}
    → ◌≡◌ {A = Outcome SettlementError (List SettlementAction)} (ok x) (ok y)
    → x ≡ y
ok_inj h = cc

module _ (s : SettlementSnapshot) where
  phase_action-called :
      (kind : SourceKind) (quorum : Bool) (a : ℕ) (p : Phase)
      → s.source_kind ≡ kind
      → Some (IsDue s.now_unix_secs a p quorum) s.assets
      → All (CalledFor s) (phase_action kind quorum a p)
  phase_action-called SourceKind.jupiter_token_spot_v1 true a p e m = ((e, m), tt)
  phase_action-called SourceKind.jupiter_token_spot_v1 false a p e m = ((e, m), tt)
  phase_action-called SourceKind.pyth_pro_verified_v1 true a p e m = ((e, m), tt)
  phase_action-called SourceKind.pyth_pro_verified_v1 false a p e m = ((e, m), tt)
  phase_action-called SourceKind.pyth_247_index_v1 quorum a p e m = tt
  phase_action-called SourceKind.verified_issuer_oracle_v1 quorum a p e m = tt

  plan_phase-called :
      (a : AssetSettlementState) (p : Phase)
      → Some (λ x. x ≡ a) s.assets
      → All (CalledFor s) (
          plan_phase a.asset_id p
            (status p a)
            (deadline p a)
            (has_quorum p a)
            s.now_unix_secs
            s.source_kind)
  unfolding plan_phase
  plan_phase-called a p m = elim (Bool-cases (is_pending (status p a))) [
    | inr e ↦ rw e tt
    | inl e ↦ elim (Bool-cases (ltb_ℤ (deadline p a) s.now_unix_secs)) [
      | inr l ↦ rw (e, l) tt
      | inl l ↦
          rw (e, l)
            (phase_action-called s.source_kind (has_quorum p a) a.asset_id p refl (
              member (IsDue s.now_unix_secs a.asset_id p (has_quorum p a)) a s.assets m (record {
                same_asset = refl;
                open_phase = pending_is (status p a) e;
                late = ltb_ℤ→lt (deadline p a) s.now_unix_secs l;
                reported = refl;
              })))
    ]
  ]

  plan_assets-called :
      (xs : List AssetSettlementState)
      → All (λ a. Some (λ x. x ≡ a) s.assets) xs
      → All (CalledFor s) (plan_assets s xs)
  unfolding plan_assets plan_asset
  plan_assets-called [] h = tt
  plan_assets-called (a ∷ xs) h =
      All-append (CalledFor s) _ (plan_assets s xs)
        (All-append (CalledFor s) _ _ (plan_phase-called a Phase.start h.0)
          (plan_phase-called a Phase.end h.0))
        (plan_assets-called xs h.1)

  when-called :
      (b : Bool) (a : SettlementAction) → (b ≡ true → CalledFor s a) → All (CalledFor s) (when b a)
  when-called true a f = (f refl, tt)
  when-called false a f = tt

  plan_battle-called :
      (assets : List AssetSettlementState) (b : BattleSettlementState)
      → ((ids : List ℕ) → all_assets_available ids assets ≡ all_assets_available ids s.assets)
      → Some (λ x. x ≡ b) s.battles
      → All (CalledFor s) (plan_battle s.now_unix_secs assets b)
  unfolding plan_battle
  plan_battle-called assets b av m = elim (Bool-cases b.result_pending) [
    | inr closed ↦ rw closed tt
    | inl open_ ↦
        let here : (why : BattleSettlementState → Type 0)
            → why b
            → Some (IsOpen b.battle_id why) s.battles =
          λ why r.
            member (IsOpen b.battle_id why) b s.battles m
              (record { same_battle = refl; no_result = open_; reason = r }) in
        elim (Bool-cases
          (b.selected_asset_unavailable && (b.side_a_revealed || b.side_b_revealed))) [
            | inl v ↦ rw (open_, v) (here _ (and_left _ _ v, or_split _ _ (and_right _ _ v)), tt)
            | inr v ↦ elim (Bool-cases (not b.side_a_revealed || not b.side_b_revealed)) [
              | inl f ↦
                  rw (open_, v, f)
                    (when-called (ltb_ℤ b.reveal_deadline s.now_unix_secs)
                      (SettlementAction.forfeit_battle b.battle_id)
                      (λ l. here _ (not_split _ _ f, ltb_ℤ→lt b.reveal_deadline s.now_unix_secs l)))
              | inr f ↦ elim (Bool-cases (b.side_a_score_finalized && b.side_b_score_finalized)) [
                | inl d ↦
                    rw (open_, v, f, d)
                      (here _ (neither_not _ _ f, and_left _ _ d, and_right _ _ d), tt)
                | inr d ↦ elim (Bool-cases (all_assets_available b.selected_asset_ids assets)) [
                  | inr n ↦ rw (open_, v, f, d, n) tt
                  | inl n ↦
                      let ready = sym (av b.selected_asset_ids) ∙ n in
                      rw (open_, v, f, d, n)
                        (All-append (CalledFor s) _ _
                          (when-called (not b.side_a_score_finalized) _
                            (λ e. here _ (neither_not _ _ f, ready, inl (refl, not-true _ e))))
                          (when-called (not b.side_b_score_finalized) _
                            (λ e. here _ (neither_not _ _ f, ready, inr (refl, not-true _ e)))))
                ]
              ]
            ]
          ]
  ]

  plan_battles-called :
      (assets : List AssetSettlementState) (bs : List BattleSettlementState)
      → ((ids : List ℕ) → all_assets_available ids assets ≡ all_assets_available ids s.assets)
      → All (λ b. Some (λ x. x ≡ b) s.battles) bs
      → All (CalledFor s) (plan_battles s.now_unix_secs assets bs)
  unfolding plan_battles
  plan_battles-called assets [] av h = tt
  plan_battles-called assets (b ∷ bs) av h =
      All-append (CalledFor s) _ _ (plan_battle-called assets b av h.0)
        (plan_battles-called assets bs av h.1)

  finalize_round-called :
      (kind : SourceKind)
      → s.source_kind ≡ kind
      → all_assets_resolved s.assets ≡ true
      → s.resolved_battle_count ≡ s.rated_battle_count
      → All (CalledFor s) (finalize_round kind)
  finalize_round-called SourceKind.jupiter_token_spot_v1 e r c = ((e, (r, c)), tt)
  finalize_round-called SourceKind.pyth_pro_verified_v1 e r c = ((e, (r, c)), tt)
  finalize_round-called SourceKind.pyth_247_index_v1 e r c = tt
  finalize_round-called SourceKind.verified_issuer_oracle_v1 e r c = tt

  plan_settling-called : All (CalledFor s) (plan_settling s)
  unfolding plan_settling
  plan_settling-called =
      let assets = sort_by asset_lt s.assets in
      let battles = sort_by battle_lt s.battles in
      let actions = plan_assets s assets ++ plan_battles s.now_unix_secs assets battles in
      let called : All (CalledFor s) actions =
        All-append (CalledFor s) (plan_assets s assets) _
          (plan_assets-called assets
            (All-sort_by (λ a. Some (λ x. x ≡ a) s.assets) asset_lt s.assets (All-Some s.assets)))
          (plan_battles-called assets battles (λ ids. all_available-sort ids s.assets)
            (All-sort_by (λ b. Some (λ x. x ≡ b) s.battles) battle_lt s.battles
              (All-Some s.battles))) in
      let counts = s.resolved_battle_count == s.rated_battle_count in
      elim (Bool-cases (all_assets_resolved assets && counts && is_nothing actions)) [
        | inr e ↦ rw e called
        | inl e ↦
            let (resolved, same) = &&_true (all_assets_resolved assets) counts (and_left _ _ e) in
            rw e (
              All-append (CalledFor s) actions (finalize_round s.source_kind) called (
                finalize_round-called s.source_kind refl (sym (resolved-sort s.assets) ∙ resolved)
                  ((==_iff s.resolved_battle_count s.rated_battle_count).0 same)))
      ]

  plan_state-called :
      (state : RoundState) → s.round_state ≡ state → All (CalledFor s) (plan_state state s)
  plan_state-called RoundState.ended e = (e, tt)
  plan_state-called RoundState.settling e = plan_settling-called
  plan_state-called RoundState.finalized e = tt
  plan_state-called RoundState.voided e = tt

  -- Every action of a plan is called for by the snapshot: a phase is finalised or marked only while
  -- it is pending, after its deadline, on the source of the round, and by whether it has a quorum; a
  -- battle is closed or scored only while it has no result and for its reason; and the round is
  -- finalised only when all phases and all battles are resolved.
  pub plan_settlement-called :
      {actions : List SettlementAction} → plan_settlement s ≡ ok actions → All (CalledFor s) actions
  unfolding plan_settlement
  plan_settlement-called {actions} h =
      let (_, _, e) = >>=-eq-ok (validate_snapshot s) _ h in
      subst (All (CalledFor s)) (ok_inj e) (plan_state-called s.round_state refl)
