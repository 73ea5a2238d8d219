-- ===== src/Base/Shuffle.antt =====
-- Rearrangements of a list, and sorting by a total order of keys, which forgets them.
use mathlib.Core.Path.{◌≡◌, refl, ap, ◌∙◌}
use mathlib.Core.Bool.{Bool, true, false, ◌||◌}
use mathlib.Core.List.{List, [], ◌∷◌}
use native.Mathlib.Omega.{arith}
use tickersix.Base.Occurs.{insert_by, sort_by}
use tickersix.Base.Lists.{All}

-- The second list is a rearrangement of the first.
pub data Shuffle {ℓ} {A : Type ℓ} : List A → List A → Type ℓ where
  same : {xs : List A} → Shuffle xs xs
  keep : (x : A) {xs ys : List A} → Shuffle xs ys → Shuffle (x ∷ xs) (x ∷ ys)
  swap : (x y : A) {xs : List A} → Shuffle (x ∷ y ∷ xs) (y ∷ x ∷ xs)
  after : {xs ys zs : List A} → Shuffle xs ys → Shuffle ys zs → Shuffle xs zs

-- A strict order in which two elements with the property `P` that come in neither order are the same.
pub record IsOrder {κ ℓ} {A : Type ℓ} (P : A → Type κ) (lt : A → A → Bool) : Type (ℓ ⊔ κ) where
  pub asym : (a b : A) → lt a b ≡ true → lt b a ≡ false
  pub between : (a b c : A) → lt a c ≡ true → (lt a b || lt b c) ≡ true
  pub tie : (a b : A) → P a → P b → lt a b ≡ false → lt b a ≡ false → a ≡ b

pub Shuffle-All {κ ℓ} :
    {A : Type ℓ} (P : A → Type κ) {xs ys : List A} → Shuffle xs ys → All P xs → All P ys
Shuffle-All P same h = h
Shuffle-All P (keep x s) h = (h.0, Shuffle-All P s h.1)
Shuffle-All P (swap x y) h = (h.1.0, (h.0, h.1.1))
Shuffle-All P (after s t) h = Shuffle-All P t (Shuffle-All P s h)

module _ {κ ℓ} {A : Type ℓ} (P : A → Type κ) (lt : A → A → Bool) (order : IsOrder P lt) where
  insert_by_comm :
      (a b : A) (xs : List A)
      → P a
      → P b
      → insert_by lt a (insert_by lt b xs) ≡ insert_by lt b (insert_by lt a xs)
  unfolding insert_by
  insert_by_comm a b [] p q = ground (arith, order.asym a b, order.asym b a, order.tie a b p q)
  insert_by_comm a b (x ∷ xs) p q = ground (
    arith,
    order.asym a b,
    order.asym b a,
    order.tie a b p q,
    order.between x b a,
    order.between x a b,
    insert_by_comm a b xs p q,
  )

  -- Rearranged lists are sorted to the same list.
  pub sort_by-Shuffle : {xs ys : List A} → Shuffle xs ys → All P xs → sort_by lt xs ≡ sort_by lt ys
  unfolding sort_by
  sort_by-Shuffle same h = refl
  sort_by-Shuffle (keep x s) h = ap (insert_by lt x) (sort_by-Shuffle s h.1)
  sort_by-Shuffle (swap x y {xs}) h = insert_by_comm x y (sort_by lt xs) h.0 h.1.0
  sort_by-Shuffle (after s t) h = sort_by-Shuffle s h ∙ sort_by-Shuffle t (Shuffle-All P s h)
