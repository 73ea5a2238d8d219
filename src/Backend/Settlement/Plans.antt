-- ===== src/Backend/Settlement/Plans.antt =====
-- backend/src/settlement.rs: what calls for an action of a plan, and the sorted lists of a snapshot.
use tickersix.Base.{
  ℕ, ◌≡◌, ◌∙◌, ◌⊎◌, refl, Bool, true, false, List, [], ◌∷◌, arith, All, inl, inr, Bool-cases,
  sort_by, insert_by, Some,
}
use tickersix.Base.Int.{ℤ, ◌<ℤ◌}
use tickersix.Backend.Settlement.{
  SourceKind, Phase, RoundState, PhaseStatus, AssetSettlementState, BattleSettlementState,
  SettlementSnapshot, SettlementAction, all_assets_available, all_assets_resolved, is_available,
  asset_lt,
}

module _ {A : Type 0} where
  All-insert_by :
      (P : A → Type 0) (lt : A → A → Bool) (a : A) (xs : List A)
      → P a
      → All P xs
      → All P (insert_by lt a xs)
  unfolding insert_by
  All-insert_by P lt a [] p h = (p, tt)
  All-insert_by P lt a (x ∷ xs) p h = elim (Bool-cases (lt x a)) [
    | inl e ↦ rw e (h.0, All-insert_by P lt a xs p h.1)
    | inr e ↦ rw e (p, h)
  ]

  pub All-sort_by :
      (P : A → Type 0) (lt : A → A → Bool) (xs : List A) → All P xs → All P (sort_by lt xs)
  unfolding sort_by
  All-sort_by P lt [] h = tt
  All-sort_by P lt (x ∷ xs) h = All-insert_by P lt x (sort_by lt xs) h.0 (All-sort_by P lt xs h.1)

abbrev pub status : Phase → AssetSettlementState → PhaseStatus
status Phase.start a = a.start
status Phase.end a = a.end

abbrev pub deadline : Phase → AssetSettlementState → ℤ
deadline Phase.start a = a.start_deadline
deadline Phase.end a = a.end_deadline

abbrev pub has_quorum : Phase → AssetSettlementState → Bool
has_quorum Phase.start a = a.start_has_compatible_quorum
has_quorum Phase.end a = a.end_has_compatible_quorum

resolved-insert :
    (a : AssetSettlementState) (xs : List AssetSettlementState)
    → all_assets_resolved (insert_by asset_lt a xs) ≡ all_assets_resolved (a ∷ xs)
unfolding insert_by all_assets_resolved
resolved-insert a [] = refl
resolved-insert a (x ∷ xs) = ground (arith, resolved-insert a xs)

pub resolved-sort :
    (xs : List AssetSettlementState)
    → all_assets_resolved (sort_by asset_lt xs) ≡ all_assets_resolved xs
unfolding sort_by all_assets_resolved
resolved-sort [] = refl
resolved-sort (x ∷ xs) = resolved-insert x (sort_by asset_lt xs) ∙ ground (arith, resolved-sort xs)

available-insert :
    (a : AssetSettlementState) (xs : List AssetSettlementState) (i : ℕ)
    → is_available (insert_by asset_lt a xs) i ≡ is_available (a ∷ xs) i
unfolding insert_by is_available
available-insert a [] i = refl
available-insert a (x ∷ xs) i = ground (arith, available-insert a xs i)

available-sort :
    (xs : List AssetSettlementState) (i : ℕ)
    → is_available (sort_by asset_lt xs) i ≡ is_available xs i
unfolding sort_by is_available
available-sort [] i = refl
available-sort (x ∷ xs) i =
    available-insert x (sort_by asset_lt xs) i ∙ ground (arith, available-sort xs i)

pub all_available-sort :
    (ids : List ℕ) (xs : List AssetSettlementState)
    → all_assets_available ids (sort_by asset_lt xs) ≡ all_assets_available ids xs
unfolding all_assets_available
all_available-sort [] xs = refl
all_available-sort (i ∷ ids) xs = ground (arith, available-sort xs i, all_available-sort ids xs)

-- A pending phase of the asset, after its deadline.
pub record IsDue (now : ℤ) (asset_id : ℕ) (phase : Phase) (quorum : Bool) (a : AssetSettlementState)
    : Type 0 where
  pub same_asset : a.asset_id ≡ asset_id
  pub open_phase : status phase a ≡ PhaseStatus.pending
  pub late : deadline phase a <ℤ now
  pub reported : has_quorum phase a ≡ quorum

-- A battle without a result, and why it may be closed.
pub record IsOpen (battle_id : ℕ) (why : BattleSettlementState → Type 0) (b : BattleSettlementState)
    : Type 0 where
  pub same_battle : b.battle_id ≡ battle_id
  pub no_result : b.result_pending ≡ true
  pub reason : why b

abbrev pub BothRevealed : BattleSettlementState → Type 0
BothRevealed b = (b.side_a_revealed ≡ true) × (b.side_b_revealed ≡ true)

module _ (s : SettlementSnapshot) where
  abbrev pub now : ℤ
  now = s.now_unix_secs

  abbrev pub IsSettled : Type 0
  IsSettled =
      (all_assets_resolved s.assets ≡ true) × (s.resolved_battle_count ≡ s.rated_battle_count)

  -- What calls for an action.
  abbrev pub CalledFor : SettlementAction → Type 0
  CalledFor SettlementAction.advance_round_to_settling = s.round_state ≡ RoundState.ended
  CalledFor (SettlementAction.finalize_jupiter_phase a p) =
      (s.source_kind ≡ SourceKind.jupiter_token_spot_v1) × Some (IsDue now a p true) s.assets
  CalledFor (SettlementAction.mark_jupiter_phase_unavailable a p) =
      (s.source_kind ≡ SourceKind.jupiter_token_spot_v1) × Some (IsDue now a p false) s.assets
  CalledFor (SettlementAction.finalize_pyth_phase a p) =
      (s.source_kind ≡ SourceKind.pyth_pro_verified_v1) × Some (IsDue now a p true) s.assets
  CalledFor (SettlementAction.mark_pyth_phase_unavailable a p) =
      (s.source_kind ≡ SourceKind.pyth_pro_verified_v1) × Some (IsDue now a p false) s.assets
  CalledFor (SettlementAction.forfeit_battle b) =
      Some
        (IsOpen b (λ x.
          ((x.side_a_revealed ≡ false) ⊎ (x.side_b_revealed ≡ false)) × (x.reveal_deadline <ℤ now)))
        s.battles
  CalledFor (SettlementAction.void_battle_price_unavailable b) =
      Some
        (IsOpen b (λ x.
          (x.selected_asset_unavailable ≡ true)
          × ((x.side_a_revealed ≡ true) ⊎ (x.side_b_revealed ≡ true))))
        s.battles
  CalledFor (SettlementAction.settle_side_score b side) =
      Some
        (IsOpen b (λ x.
          BothRevealed x
          × (all_assets_available x.selected_asset_ids s.assets ≡ true)
          × (((side ≡ 0) × (x.side_a_score_finalized ≡ false))
              ⊎ ((side ≡ 1) × (x.side_b_score_finalized ≡ false)))))
        s.battles
  CalledFor (SettlementAction.finalize_battle b) =
      Some
        (IsOpen b (λ x.
          BothRevealed x × (x.side_a_score_finalized ≡ true) × (x.side_b_score_finalized ≡ true)))
        s.battles
  CalledFor SettlementAction.finalize_market_round =
      (s.source_kind ≡ SourceKind.jupiter_token_spot_v1) × IsSettled
  CalledFor SettlementAction.finalize_pyth_market_round =
      (s.source_kind ≡ SourceKind.pyth_pro_verified_v1) × IsSettled
