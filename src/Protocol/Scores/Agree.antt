-- ===== src/Protocol/Scores/Agree.antt =====
-- crates/protocol/src/lib.rs and programs/tickersix/src/math.rs: the services and the program compute
-- the same returns, scores and commitments.
use mathlib.Core.Path.{subst}
use tickersix.Base.{
  ℕ, ◌≡◌, refl, sym, ◌↔◌, ==_iff, Bool, true, false, not, ◌&&◌, ◌||◌, ◌==◌, List, [], ◌∷◌, arith,
  inl, inr, Bool-cases, contains, if◌then◌else◌,
}
use tickersix.Base.Int.{ℤ, pos, pos_part, ◌+ℤ◌, ◌-ℤ◌, ◌*ℤ◌, ◌/ℤ◌, leb_ℤ, ltb_ℤ}
use tickersix.Errors.{ok}
use tickersix.Runtime.{Key, Runtime}
use tickersix.State.{Bitmap}
use tickersix.Math
use tickersix.Math.Lineup.{IsDistinct, validate_lineup_iff}
use tickersix.Outcome
use tickersix.Outcome.{Outcome, outcome_of, value_of, Agree->>=}
use tickersix.Protocol.{MathError}
use tickersix.Protocol.Scores.{
  checked_i128, try_i64, return_q9, validate_ids, validate_lineup, weighted_total, lineup_score_q9,
  commitment,
}

required : (b : Bool) (c : MathError) → Outcome.require b c ≡ Outcome.ok tt → b ≡ true
required true c h = refl
required false c h = cc

checked_agree : (a : ℤ) → outcome_of (checked_i128 a) ≡ value_of (Math.checked_i128 a)
unfolding checked_i128 Math.checked_i128
checked_agree a = ground arith

try_agree : (a : ℤ) → outcome_of (try_i64 a) ≡ value_of (Math.try_i64 a)
unfolding try_i64 Math.try_i64
try_agree a = ground arith

guards_agree :
    (s e : ℤ) → not (leb_ℤ s (pos 0) || leb_ℤ e (pos 0)) ≡ (ltb_ℤ (pos 0) s && ltb_ℤ (pos 0) e)
unfolding leb_ℤ ltb_ℤ
guards_agree s e = ground arith

-- The services and the program compute the same return from the same two prices, whatever they are:
-- the same value, or a failure of both.
pub return_q9-agree :
    (start_q9 end_q9 : ℤ)
    → outcome_of (return_q9 start_q9 end_q9) ≡ value_of (Math.return_q9 start_q9 end_q9)
unfolding return_q9 Math.return_q9
return_q9-agree s e =
    rw (guards_agree s e) (elim (Bool-cases (ltb_ℤ (pos 0) s && ltb_ℤ (pos 0) e)) [
      | inr h ↦ rw h refl
      | inl h ↦ rw h (
          Agree->>= (Math.checked_i128 (e -ℤ s)) (checked_i128 (e -ℤ s)) _ _
            (checked_agree (e -ℤ s))
            (λ d.
              Agree->>= _ (checked_i128 (d *ℤ 1_000_000_000)) _ _
                (checked_agree (d *ℤ 1_000_000_000))
                (λ n.
                  Agree->>= _ (checked_i128 (n /ℤ pos_part s)) _ _ (checked_agree (n /ℤ pos_part s))
                    (λ v. try_agree v))))
    ])

weighted_agree :
    (c : ℕ) (rs : List ℤ) (ids : List ℕ) (t : ℤ)
    → outcome_of (weighted_total c rs ids t) ≡ value_of (Math.weighted_total c rs ids t)
unfolding weighted_total Math.weighted_total
weighted_agree c [] ids t = refl
weighted_agree c (r ∷ rs) [] t = refl
weighted_agree c (r ∷ rs) (a ∷ as') t =
    let term = r *ℤ (if a == c then 2 else 1) in
    Agree->>= _ (checked_i128 term) _ _ (checked_agree term) (λ x.
      Agree->>= _ (checked_i128 (t +ℤ x)) _ _ (checked_agree (t +ℤ x))
        (λ t'. weighted_agree c rs as' t'))

validate_ids-IsDistinct :
    (ids : List ℕ) (c : ℕ) → (validate_ids ids c ≡ Outcome.ok tt) ↔ IsDistinct ids
unfolding validate_ids
validate_ids-IsDistinct [] c = (λ h. tt, λ h. refl)
validate_ids-IsDistinct (x ∷ xs) c =
    let later = validate_ids-IsDistinct xs c in
    elim (Bool-cases (x == c)) [
      | inl e ↦
          let e' : x ≡ c = (==_iff x c).0 e in
          rw e (elim (Bool-cases (contains xs c)) [
            | inl k ↦
                rw (k, subst (λ y. contains xs y ≡ true) (sym e') k)
                  (λ h. absurd (cc), λ h. absurd (cc))
            | inr k ↦
                rw (k, subst (λ y. contains xs y ≡ false) (sym e') k)
                  (λ h. (refl, later.0 h), λ h. later.1 h.1)
          ])
      | inr e ↦ rw e (elim (Bool-cases (contains xs x)) [
        | inl k ↦ rw k (λ h. absurd (cc), λ h. absurd (cc))
        | inr k ↦ rw k (λ h. (refl, later.0 h), λ h. later.1 h.1)
      ])
    ]

-- The lineup check of the services passes exactly the lists that hold the captain and whose
-- identifiers are pairwise different.
pub validate_lineup-IsDistinct :
    (ids : List ℕ) (captain : ℕ)
    → (validate_lineup ids captain ≡ Outcome.ok tt)
      ↔ ((contains ids captain ≡ true) × IsDistinct ids)
unfolding validate_lineup
validate_lineup-IsDistinct ids captain =
    let each = validate_ids-IsDistinct ids captain in
    (
      λ h.
          let (_, e, k) = Outcome.>>=-eq-ok (validate_ids ids captain) _ h in
          (required (contains ids captain) MathError.captain_not_in_lineup k, each.0 e),
      λ h. rw (each.1 h.1, h.0) refl,
    )

-- A lineup that the program admits is admitted by the services, and both give it the same score, for
-- any returns of its assets, and the same commitment, for any battle, player and salt.
pub lineup-agree :
    (rt : Runtime) (ids : List ℕ) (captain : ℕ) (bitmap : Bitmap) (returns : List ℤ)
    (battle player : Key) (registry_version : ℕ) (salt : Key)
    → Math.validate_lineup ids captain bitmap ≡ ok tt
    → (validate_lineup ids captain ≡ Outcome.ok tt)
      × (outcome_of (lineup_score_q9 returns ids captain)
          ≡ value_of (Math.lineup_score_q9 returns ids captain))
      × (commitment rt.sha256 rt.program_id battle player registry_version ids captain salt
          ≡ Math.canonical_lineup_commitment rt battle player registry_version ids captain salt)
unfolding lineup_score_q9 Math.lineup_score_q9 commitment Math.canonical_lineup_commitment
lineup-agree rt ids captain bitmap returns battle player registry_version salt h =
    let (present, distinct, _) = (validate_lineup_iff ids captain bitmap).0 h in
    let valid = (validate_lineup-IsDistinct ids captain).1 (present, distinct) in
    (
      valid,
      rw (valid, present)
          (Agree->>= _ (weighted_total captain returns ids (pos 0)) _ _
            (weighted_agree captain returns ids (pos 0))
            (λ t.
              Agree->>= _ (checked_i128 (t /ℤ 7)) _ _ (checked_agree (t /ℤ 7))
                (λ score. try_agree score))),
      refl,
    )
