-- ===== src/Backend/Settlement/Progress.antt =====
-- backend/src/settlement.rs: the planner does not stall.
use tickersix.Base.{
  Some, true-false, ℕ, ◌≡◌, ◌∙◌, ◌⊎◌, refl, sym, Bool, true, false, not, ◌&&◌, ◌||◌, ◌==◌, List, [],
  ◌∷◌, ◌++◌, if◌then◌else◌, arith, All, inl, inr, Bool-cases, sort_by, insert_by, &&_true, ==_iff,
}
use mathlib.Core.Path.{subst}
use tickersix.Base.Int.{ℤ, ◌<ℤ◌, ltb_ℤ, lt→ltb_ℤ}
use tickersix.Outcome.{Outcome, ok, >>=-eq-ok}
use tickersix.Backend.Settlement.{
  SourceKind, Phase, RoundState, PhaseStatus, AssetSettlementState, BattleSettlementState,
  SettlementSnapshot, SettlementAction, SettlementError, phase_action, plan_phase, plan_asset,
  plan_assets, plan_battle, plan_battles, plan_settling, plan_state, plan_settlement,
  finalize_round, all_assets_available, all_assets_resolved, is_nothing, asset_lt, battle_lt,
  is_pending, validate_snapshot, validate_source,
}
use tickersix.Backend.Settlement.Plans.{All-sort_by, resolved-sort, all_available-sort}

nothing-append :
    (xs ys : List SettlementAction) → is_nothing (xs ++ ys) ≡ (is_nothing xs && is_nothing ys)
nothing-append [] ys = refl
nothing-append (x ∷ xs) ys = refl

-- A source for which the planner has actions.
data IsEnabled : SourceKind → Type 0 where
  jupiter : IsEnabled SourceKind.jupiter_token_spot_v1
  pyth : IsEnabled SourceKind.pyth_pro_verified_v1

validate_source-IsEnabled :
    (kind : SourceKind) (gate : Bool) → validate_source kind gate ≡ ok tt → IsEnabled kind
validate_source-IsEnabled SourceKind.jupiter_token_spot_v1 gate h = jupiter
validate_source-IsEnabled SourceKind.pyth_pro_verified_v1 true h = pyth
validate_source-IsEnabled SourceKind.pyth_pro_verified_v1 false h = absurd (cc)
validate_source-IsEnabled SourceKind.pyth_247_index_v1 gate h = absurd (cc)
validate_source-IsEnabled SourceKind.verified_issuer_oracle_v1 gate h = absurd (cc)

phase_action-some :
    (kind : SourceKind) (quorum : Bool) (a : ℕ) (p : Phase)
    → IsEnabled kind
    → is_nothing (phase_action kind quorum a p) ≡ false
phase_action-some _ true a p jupiter = refl
phase_action-some _ false a p jupiter = refl
phase_action-some _ true a p pyth = refl
phase_action-some _ false a p pyth = refl

finalize_round-some :
    (kind : SourceKind) → IsEnabled kind → is_nothing (finalize_round kind) ≡ false
finalize_round-some _ jupiter = refl
finalize_round-some _ pyth = refl

abbrev Late : ℤ → AssetSettlementState → Type 0
Late now a = (a.start_deadline <ℤ now) × (a.end_deadline <ℤ now)

-- A late phase for which nothing is planned is resolved.
plan_phase-nothing :
    (a : ℕ) (p : Phase) (status : PhaseStatus) (deadline : ℤ) (quorum : Bool) (now : ℤ)
    (kind : SourceKind)
    → IsEnabled kind
    → deadline <ℤ now
    → is_nothing (plan_phase a p status deadline quorum now kind) ≡ true
    → is_pending status ≡ false
unfolding plan_phase
plan_phase-nothing a p status deadline quorum now kind e l h =
    elim (Bool-cases (is_pending status)) [
      | inr k ↦ k
      | inl k ↦
          let some_ : is_nothing (
                if not (is_pending status) || not (ltb_ℤ deadline now)
                then []
                else phase_action kind quorum a p)
              ≡ false =
            rw (k, lt→ltb_ℤ deadline now l) (phase_action-some kind quorum a p e) in
          absurd (true-false (sym h ∙ some_))
    ]

plan_assets-nothing :
    (s : SettlementSnapshot) (xs : List AssetSettlementState)
    → IsEnabled s.source_kind
    → All (Late s.now_unix_secs) xs
    → is_nothing (plan_assets s xs) ≡ true
    → all_assets_resolved xs ≡ true
unfolding plan_assets plan_asset all_assets_resolved
plan_assets-nothing s [] e l h = refl
plan_assets-nothing s (a ∷ xs) e l h =
    let (here, later) = &&_true _ _ (sym (nothing-append _ (plan_assets s xs)) ∙ h) in
    let (first, second) = &&_true _ _ (sym (nothing-append _ _) ∙ here) in
    rw
      (
        plan_phase-nothing a.asset_id Phase.start a.start a.start_deadline _ s.now_unix_secs
            s.source_kind e l.0.0 first,
        plan_phase-nothing a.asset_id Phase.end a.end a.end_deadline _ s.now_unix_secs s.source_kind
            e l.0.1 second,
      )
      (plan_assets-nothing s xs e l.1 later)

-- The snapshot knows of each battle that its assets are priced, or that one is unavailable.
abbrev Known : List AssetSettlementState → BattleSettlementState → Type 0
Known assets b =
    (b.selected_asset_unavailable ≡ true)
    ⊎ (all_assets_available b.selected_asset_ids assets ≡ true)

plan_battle-nothing :
    (now : ℤ) (assets : List AssetSettlementState) (b : BattleSettlementState)
    → b.reveal_deadline <ℤ now
    → Known assets b
    → is_nothing (plan_battle now assets b) ≡ true
    → b.result_pending ≡ false
unfolding plan_battle
plan_battle-nothing now assets b l (inl k) h = ground (arith, lt→ltb_ℤ b.reveal_deadline now l)
plan_battle-nothing now assets b l (inr k) h = ground (arith, lt→ltb_ℤ b.reveal_deadline now l)

plan_battles-nothing :
    (now : ℤ) (assets : List AssetSettlementState) (bs : List BattleSettlementState)
    → All (λ b. (b.reveal_deadline <ℤ now) × Known assets b) bs
    → is_nothing (plan_battles now assets bs) ≡ true
    → All (λ b. b.result_pending ≡ false) bs
unfolding plan_battles
plan_battles-nothing now assets [] l h = tt
plan_battles-nothing now assets (b ∷ bs) l h =
    let (here, later) = &&_true _ _ (sym (nothing-append _ (plan_battles now assets bs)) ∙ h) in
    (
      plan_battle-nothing now assets b l.0.0 l.0.1 here,
      plan_battles-nothing now assets bs l.1 later,
    )

module _ {A : Type 0} (P : A → Type 0) (lt : A → A → Bool) where
  insert_by-All : (a : A) (xs : List A) → All P (insert_by lt a xs) → P a × All P xs
  unfolding insert_by
  insert_by-All a [] h = h
  insert_by-All a (x ∷ xs) h = elim (Bool-cases (lt x a)) [
    | inl e ↦
        let h' : P x × All P (insert_by lt a xs) = rw (e, insert_by) at h in
        let (p, k) = insert_by-All a xs h'.1 in (p, (h'.0, k))
    | inr e ↦ (let h' : P a × (P x × All P xs) = rw (e, insert_by) at h in h')
  ]

  sort_by-All : (xs : List A) → All P (sort_by lt xs) → All P xs
  unfolding sort_by
  sort_by-All [] h = tt
  sort_by-All (x ∷ xs) h = let (p, k) = insert_by-All x (sort_by lt xs) h in (p, sort_by-All xs k)

none_pending :
    (bs : List BattleSettlementState)
    → All (λ b. b.result_pending ≡ false) bs
    → Some (λ b. b.result_pending ≡ true) bs
    → ⊥
none_pending [] h k = k
none_pending (b ∷ bs) h (inl k) = true-false (sym k ∙ h.0)
none_pending (b ∷ bs) h (inr k) = none_pending bs h.1 k

end_something :
    (r c : Bool) (actions last : List SettlementAction)
    → (is_nothing actions ≡ true → (r ≡ true) × (c ≡ true) × (is_nothing last ≡ false))
    → is_nothing (if r && c && is_nothing actions then actions ++ last else actions) ≡ false
end_something r c [] last f = (let (x, y, z) = f refl in rw (x, y) z)
end_something r c (x ∷ xs) last f = ground arith

sorted-Known :
    (now : ℤ) (assets : List AssetSettlementState) (bs : List BattleSettlementState)
    → All (λ b. b.reveal_deadline <ℤ now) bs
    → All (Known assets) bs
    → All (λ b. (b.reveal_deadline <ℤ now) × Known (sort_by asset_lt assets) b) bs
sorted-Known now assets [] l k = tt
sorted-Known now assets (b ∷ bs) l k = (
  (
    l.0,
    elim k.0 [ inl u ↦ inl u | inr a ↦ inr (all_available-sort b.selected_asset_ids assets ∙ a) ],
  ),
  sorted-Known now assets bs l.1 k.1,
)

ok_inj :
    {x y : List SettlementAction}
    → ◌≡◌ {A = Outcome SettlementError (List SettlementAction)} (ok x) (ok y)
    → x ≡ y
ok_inj h = cc

-- A snapshot after all of its deadlines, which knows of each battle whether its assets are priced once
-- they are resolved, and some open battle while battles are counted as unresolved.
module _ (s : SettlementSnapshot) (late : All (Late s.now_unix_secs) s.assets)
    (late_battles : All (λ b. b.reveal_deadline <ℤ s.now_unix_secs) s.battles)
    (known : all_assets_resolved s.assets ≡ true → All (Known s.assets) s.battles)
    (counted : (s.resolved_battle_count ≡ s.rated_battle_count)
      ⊎ Some (λ b. b.result_pending ≡ true) s.battles) where
  same_count :
      All (λ b. b.result_pending ≡ false) s.battles
      → (s.resolved_battle_count ≡ s.rated_battle_count)
        ⊎ Some (λ b. b.result_pending ≡ true) s.battles
      → (s.resolved_battle_count == s.rated_battle_count) ≡ true
  same_count over (inl e) = (==_iff s.resolved_battle_count s.rated_battle_count).1 e
  same_count over (inr k) = absurd (none_pending s.battles over k)

  plan_settling-progress : IsEnabled s.source_kind → is_nothing (plan_settling s) ≡ false
  unfolding plan_settling
  plan_settling-progress enabled =
      let assets = sort_by asset_lt s.assets in
      let battles = sort_by battle_lt s.battles in
      let planned = plan_assets s assets in
      let closing = plan_battles s.now_unix_secs assets battles in
      end_something (all_assets_resolved assets) (s.resolved_battle_count == s.rated_battle_count)
        (planned ++ closing) (finalize_round s.source_kind)
        (λ idle.
          let (no_phase, no_battle) = &&_true _ _ (sym (nothing-append planned closing) ∙ idle) in
          let resolved =
            plan_assets-nothing s assets enabled
              (All-sort_by (Late s.now_unix_secs) asset_lt s.assets late) no_phase in
          let known' = known (sym (resolved-sort s.assets) ∙ resolved) in
          let over =
            plan_battles-nothing s.now_unix_secs assets battles
              (All-sort_by _ battle_lt s.battles
                (sorted-Known s.now_unix_secs s.assets s.battles late_battles known'))
              no_battle in
          let over' = sort_by-All (λ b. b.result_pending ≡ false) battle_lt s.battles over in
          (resolved, same_count over' counted, finalize_round-some s.source_kind enabled))

  -- The planner does not stall: after all deadlines a round that is being settled has a next action,
  -- as long as its snapshot is consistent.
  pub plan_settlement-progress :
      {actions : List SettlementAction}
      → s.round_state ≡ RoundState.settling
      → plan_settlement s ≡ ok actions
      → is_nothing actions ≡ false
  unfolding plan_settlement validate_snapshot
  plan_settlement-progress {actions} is_settling h =
      let (_, valid, e) = >>=-eq-ok (validate_snapshot s) _ h in
      let (_, source, _) =
        >>=-eq-ok (validate_source s.source_kind s.pyth_gate_0b_verified) _ valid in
      let enabled = validate_source-IsEnabled s.source_kind s.pyth_gate_0b_verified source in
      subst (λ xs. is_nothing xs ≡ false)
        (ok_inj (
          subst
            (λ st.
              ◌≡◌ {A = Outcome SettlementError (List SettlementAction)} (ok (plan_state st s))
                (ok actions))
            is_settling e))
        (plan_settling-progress enabled)
