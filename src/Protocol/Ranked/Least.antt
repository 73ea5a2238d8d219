-- ===== src/Protocol/Ranked/Least.antt =====
-- crates/protocol/src/lib.rs: what `min_by_key` and `Vec::remove` do in `pair_ranked`.
use tickersix.Base.{
  ℕ, zero, suc, ◌+◌, ◌<◌, ◌≡◌, refl, sym, ◌⊎◌, ◌∙◌, Bool, true, false, ◌==◌, List, [], ◌∷◌, arith,
  if◌then◌else◌, get_or, length, occurs, inl, inr, Bool-cases,
}
use mathlib.Core.Path.{subst}
use tickersix.Protocol.Ranked.{min_position, min_position_of, removed}

pub min_position-lt :
    (lt : ℕ → ℕ → Bool) (best best_position position : ℕ) (xs : List ℕ)
    → best_position < position
    → min_position lt best best_position position xs < position + length xs
unfolding min_position
min_position-lt lt best best_position position [] h = omega arith
min_position-lt lt best best_position position (x ∷ xs) h =
    let later =
      min_position-lt lt (if lt x best then x else best)
        (if lt x best then position else best_position) (suc position) xs (ground arith) in
    omega arith

pub min_position_of-lt :
    (lt : ℕ → ℕ → Bool) (x : ℕ) (xs : List ℕ) → min_position_of lt (x ∷ xs) < length (x ∷ xs)
unfolding min_position_of
min_position_of-lt lt x xs = omega (arith, min_position-lt lt x 0 1 xs (omega arith))

-- No member of the list comes before `b`.
abbrev pub IsLeast : (ℕ → ℕ → Bool) → ℕ → List ℕ → Type 0
IsLeast lt b [] = Unit
IsLeast lt b (x ∷ xs) = (lt x b ≡ false) × IsLeast lt b xs

-- An element is gone, once.
pub occurs-removed :
    (a i : ℕ) (xs : List ℕ)
    → i < length xs
    → occurs a xs
      ≡ (if get_or xs i 0 == a then suc (occurs a (removed i xs)) else occurs a (removed i xs))
unfolding occurs removed
occurs-removed a i [] h = absurd (omega arith)
occurs-removed a zero (x ∷ xs) h = refl
occurs-removed a (suc i) (x ∷ xs) h = ground (arith, occurs-removed a i xs (omega arith))

pub length-removed : (i : ℕ) (xs : List ℕ) → i < length xs → length xs ≡ suc (length (removed i xs))
unfolding removed
length-removed i [] h = absurd (omega arith)
length-removed zero (x ∷ xs) h = refl
length-removed (suc i) (x ∷ xs) h = omega (arith, length-removed i xs (omega arith))

-- A strict order.
pub record IsStrict (lt : ℕ → ℕ → Bool) : Type 0 where
  pub irrefl : (a : ℕ) → lt a a ≡ false
  pub trans : (a b c : ℕ) → lt a b ≡ true → lt b c ≡ true → lt a c ≡ true

add_one_left : (i : ℕ) → 1 + i ≡ suc i
add_one_left i = omega arith

module _ (lt : ℕ → ℕ → Bool) (strict : IsStrict lt) where
  -- One that the best does not come after is not before what beats the best.
  not_before : (x b best : ℕ) → lt x best ≡ false → lt b best ≡ true → lt x b ≡ false
  not_before x b best h k = elim (Bool-cases (lt x b)) [
    | inl e ↦ absurd (ground (arith, strict.trans x b best e k))
    | inr e ↦ e
  ]

  beaten : (b best : ℕ) → lt b best ≡ true → lt best b ≡ false
  beaten b best k = not_before best b best (strict.irrefl best) k

  -- Where the scan ends: at the best so far, or at a later element that comes before it.
  abbrev Found : ℕ → ℕ → ℕ → ℕ → List ℕ → ℕ → Type 0
  Found best best_position position found xs b =
      ((found ≡ best_position) × (b ≡ best))
      ⊎ ((i : ℕ) × (found ≡ position + i)
          × (get_or xs i 0 ≡ b)
          × (i < length xs)
          × (lt b best ≡ true))

  -- No scanned element comes before the one that is found.
  scan-IsLeast :
      (best best_position position : ℕ) (xs : List ℕ)
      → (b : ℕ) × IsLeast lt b xs
        × Found best best_position position (min_position lt best best_position position xs) xs b
  unfolding min_position
  scan-IsLeast best best_position position [] = (best, tt, inl (refl, refl))
  scan-IsLeast best best_position position (x ∷ xs) = elim (Bool-cases (lt x best)) [
    | inl e ↦
        let (b, least, place) = scan-IsLeast x position (suc position) xs in
        rw e (elim place [
          | inl p ↦ (
            b,
            (rw (p.1) (strict.irrefl x), least),
            inr (0, omega (arith, p.0), sym p.1, omega arith, rw (p.1) e),
          )
          | inr (i, f, g, l, k) ↦ (
            b,
            (beaten b x k, least),
            inr (suc i, omega (arith, f), g, omega (arith, l), strict.trans b x best k e),
          )
        ])
    | inr e ↦
        let (b, least, place) = scan-IsLeast best best_position (suc position) xs in
        rw e (elim place [
          | inl p ↦ (b, (rw (p.1) e, least), inl p)
          | inr (i, f, g, l, k) ↦ (
            b,
            (not_before x b best e k, least),
            inr (suc i, omega (arith, f), g, omega (arith, l), k),
          )
        ])
  ]

  -- The element at the position of the least is in the list, and none comes before it.
  pub min_position_of-IsLeast :
      (x : ℕ) (xs : List ℕ) → IsLeast lt (get_or (x ∷ xs) (min_position_of lt (x ∷ xs)) 0) (x ∷ xs)
  unfolding min_position_of
  min_position_of-IsLeast x xs =
      let (b, least, place) = scan-IsLeast x 0 1 xs in
      elim place [
        | inl p ↦
            subst (λ n. IsLeast lt (get_or (x ∷ xs) n 0) (x ∷ xs)) (sym p.0)
              (strict.irrefl x, subst (λ c. IsLeast lt c xs) p.1 least)
        | inr (i, f, g, l, k) ↦
            subst (λ n. IsLeast lt (get_or (x ∷ xs) n 0) (x ∷ xs)) (sym (f ∙ add_one_left i))
              (subst (λ c. IsLeast lt c (x ∷ xs)) (sym g) (beaten b x k, least))
      ]
