-- ===== src/Backend/Settlement/Checked.antt =====
-- backend/src/settlement.rs: the snapshots that the planner accepts.
use tickersix.Base.{
  ℕ, ◌≤◌, ◌≡◌, ◌∙◌, refl, sym, Bool, true, false, not, ◌&&◌, ◌||◌, ◌==◌, ltb, List, [], ◌∷◌, ◌++◌,
  arith, All, length, contains, occurs, map, occurs-append,
}
use mathlib.Core.List.{append_assoc, append-nil}
use mathlib.Core.Path.{subst}
use tickersix.Math.{sort_unstable}
use tickersix.Outcome.{Outcome, ok, require, >>=-eq-ok}
use tickersix.Backend.Settlement.{
  AssetSettlementState, BattleSettlementState, SettlementSnapshot, SettlementAction,
  SettlementError, validate_assets, validate_battles, validate_snapshot, validate_source, is_closed,
  dedup, all_in, plan_settlement,
}
use tickersix.Backend.Settlement.Valid.{IsSelection, selection_of, contains-absent}

abbrev pub asset_ids_of : List AssetSettlementState → List ℕ
asset_ids_of = map λ a. a.asset_id

abbrev pub battle_ids_of : List BattleSettlementState → List ℕ
battle_ids_of = map λ b. b.battle_id

required : (b : Bool) (e : SettlementError) → require b e ≡ ok tt → b ≡ true
required true e h = refl
required false e h = cc

more_once :
    (seen : List ℕ) (x : ℕ)
    → contains seen x ≡ false
    → ((a : ℕ) → occurs a seen ≤ 1)
    → (a : ℕ) → occurs a (seen ++ x ∷ []) ≤ 1
unfolding occurs
more_once seen x h once a =
    ground (arith, occurs-append a seen (x ∷ []), contains-absent seen x h, once a)

none_once : (a : ℕ) → occurs a [] ≤ 1
unfolding occurs
none_once a = omega arith

ids_inj : {x y : List ℕ} → ◌≡◌ {A = Outcome SettlementError (List ℕ)} (ok x) (ok y) → x ≡ y
ids_inj h = cc

validate_assets-once :
    (seen : List ℕ) (xs : List AssetSettlementState) {ids : List ℕ}
    → validate_assets seen xs ≡ ok ids
    → ((a : ℕ) → occurs a seen ≤ 1)
    → (ids ≡ seen ++ asset_ids_of xs) × ((a : ℕ) → occurs a ids ≤ 1)
unfolding validate_assets
validate_assets-once seen [] {ids} h once =
    let e = ids_inj h in
    (sym e ∙ sym (append-nil seen), λ a. subst (λ l. occurs a l ≤ 1) e (once a))
validate_assets-once seen (x ∷ xs) {ids} h once =
    let (_, new, later) =
      >>=-eq-ok (require (not (contains seen x.asset_id)) SettlementError.duplicate_asset) _ h in
    let fresh = required _ _ new in
    let (e, o) =
      validate_assets-once (seen ++ x.asset_id ∷ []) xs later
        (more_once seen x.asset_id (ground arith) once) in
    (e ∙ append_assoc seen (x.asset_id ∷ []) (asset_ids_of xs), o)

validate_battles-once :
    (ids seen : List ℕ) (bs : List BattleSettlementState)
    → validate_battles ids seen bs ≡ ok tt
    → ((a : ℕ) → occurs a seen ≤ 1)
    → ((a : ℕ) → occurs a (seen ++ battle_ids_of bs) ≤ 1)
      × All (λ b. IsSelection ids b.selected_asset_ids) bs
unfolding validate_battles
validate_battles-once ids seen [] h once =
    (λ a. subst (λ l. occurs a l ≤ 1) (sym (append-nil seen)) (once a), tt)
validate_battles-once ids seen (b ∷ bs) h once =
    let (_, new, h1) =
      >>=-eq-ok (require (not (contains seen b.battle_id)) SettlementError.duplicate_battle) _ h in
    let (_, chosen, later) =
      >>=-eq-ok
        (require
          (not (
            not (length (dedup (sort_unstable b.selected_asset_ids)) == 6)
            || not
                (length (dedup (sort_unstable b.selected_asset_ids)) == length b.selected_asset_ids)
            || not (all_in ids (dedup (sort_unstable b.selected_asset_ids)))))
          SettlementError.invalid_battle_asset)
        _ h1 in
    let fresh = required _ _ new in
    let (o, all) =
      validate_battles-once ids (seen ++ b.battle_id ∷ []) bs later
        (more_once seen b.battle_id (ground arith) once) in
    (
      λ a.
          subst (λ l. occurs a l ≤ 1) (append_assoc seen (b.battle_id ∷ []) (battle_ids_of bs))
            (o a),
      (selection_of ids b.selected_asset_ids (required _ _ chosen), all),
    )

-- A snapshot on which a plan can be relied on.
pub record IsSnapshot (s : SettlementSnapshot) : Type 0 where
  pub assets_once : (a : ℕ) → occurs a (asset_ids_of s.assets) ≤ 1
  pub battles_once : (b : ℕ) → occurs b (battle_ids_of s.battles) ≤ 1
  pub selections : All (λ b. IsSelection (asset_ids_of s.assets) b.selected_asset_ids) s.battles
  pub counted : s.rated_battle_count ≡ length s.battles
  pub bounded : s.resolved_battle_count ≤ s.rated_battle_count
  pub closed : is_closed s.round_state ≡ true → s.resolved_battle_count ≡ s.rated_battle_count

-- The planner accepts only snapshots without a duplicate asset or battle, in which each battle has six
-- different assets of the snapshot, whose battles are as many as the round counts, with no more of
-- them resolved, and all of them where the round is closed.
pub plan_settlement-IsSnapshot :
    (s : SettlementSnapshot) {actions : List SettlementAction}
    → plan_settlement s ≡ ok actions
    → IsSnapshot s
unfolding plan_settlement validate_snapshot
plan_settlement-IsSnapshot s h =
    let (_, valid, _) = >>=-eq-ok (validate_snapshot s) _ h in
    let (_, _, h1) = >>=-eq-ok (validate_source s.source_kind s.pyth_gate_0b_verified) _ valid in
    let (ids, assets, h2) = >>=-eq-ok (validate_assets [] s.assets) _ h1 in
    let (_, battles, h3) = >>=-eq-ok (validate_battles ids [] s.battles) _ h2 in
    let (_, counts, state) =
      >>=-eq-ok
        (require
          (not (ltb s.rated_battle_count s.resolved_battle_count)
            && s.rated_battle_count == length s.battles)
          SettlementError.count_mismatch)
        _ h3 in
    let (e, once) = validate_assets-once [] s.assets assets (λ a. none_once a) in
    let (once', chosen) = validate_battles-once ids [] s.battles battles (λ a. none_once a) in
    let counts' = required _ _ counts in
    let state' = required _ _ state in
    record {
      assets_once = λ a. subst (λ l. occurs a l ≤ 1) e (once a);
      battles_once = once';
      selections = subst (λ l. All (λ b. IsSelection l b.selected_asset_ids) s.battles) e chosen;
      counted = ground arith;
      bounded = ground arith;
      closed = λ c. ground arith;
    }
