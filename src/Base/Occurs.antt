-- ===== src/Base/Occurs.antt =====
-- How often a number occurs in a list; two lists that agree on it are permutations of each other.
use Prim.Native.Nat.{ℕ, zero, suc, ◌+◌}
use mathlib.Core.Path.{◌≡◌, refl}
use mathlib.Core.Bool.{Bool}
use mathlib.Core.List.{List, [], ◌∷◌, ◌++◌}
use native.Mathlib.Omega.{arith}
use tickersix.Base.Tests.{◌==◌, ltb, if◌then◌else◌}
use tickersix.Base.Lists.{length}

unfoldable pub occurs : ℕ → List ℕ → ℕ
occurs a [] = 0
occurs a (x ∷ xs) = if x == a then suc (occurs a xs) else occurs a xs

-- Rust's `filter`.
unfoldable pub filter {ℓ} : {A : Type ℓ} → (A → Bool) → List A → List A
filter p [] = []
filter p (x ∷ xs) = let rest = filter p xs in if p x then x ∷ rest else rest

-- A stable sort by a strict order of keys.
module _ {ℓ} {A : Type ℓ} (lt : A → A → Bool) where
  unfoldable pub insert_by : A → List A → List A
  insert_by a [] = a ∷ []
  insert_by a (x ∷ xs) = let rest = insert_by a xs in if lt x a then x ∷ rest else a ∷ x ∷ xs

  unfoldable pub sort_by : List A → List A
  unfolding insert_by
  sort_by [] = []
  sort_by (x ∷ xs) = insert_by x (sort_by xs)

-- The numbers from `start`, `n` of them: Rust's `start..start + n`.
unfoldable pub range_from : ℕ → ℕ → List ℕ
range_from start zero = []
range_from start (suc n) = start ∷ range_from (suc start) n

pub occurs-append : (a : ℕ) (xs ys : List ℕ) → occurs a (xs ++ ys) ≡ occurs a xs + occurs a ys
unfolding occurs
occurs-append a [] ys = omega arith
occurs-append a (x ∷ xs) ys = ground (arith, occurs-append a xs ys)

pub occurs-filter :
    (p : ℕ → Bool) (a : ℕ) (xs : List ℕ) → occurs a (filter p xs) ≡ (if p a then occurs a xs else 0)
unfolding occurs filter
occurs-filter p a [] = ground arith
occurs-filter p a (x ∷ xs) = ground (arith, occurs-filter p a xs)

occurs-insert_by :
    (lt : ℕ → ℕ → Bool) (a b : ℕ) (xs : List ℕ)
    → occurs a (insert_by lt b xs) ≡ (if b == a then suc (occurs a xs) else occurs a xs)
unfolding occurs insert_by
occurs-insert_by lt a b [] = ground arith
occurs-insert_by lt a b (x ∷ xs) = ground (arith, occurs-insert_by lt a b xs)

pub occurs-sort_by :
    (lt : ℕ → ℕ → Bool) (a : ℕ) (xs : List ℕ) → occurs a (sort_by lt xs) ≡ occurs a xs
unfolding occurs sort_by
occurs-sort_by lt a [] = refl
occurs-sort_by lt a (x ∷ xs) =
    ground (arith, occurs-insert_by lt a x (sort_by lt xs), occurs-sort_by lt a xs)

pub occurs-range_from :
    (a start n : ℕ)
    → occurs a (range_from start n)
      ≡ (if ltb a start then 0 else (if ltb a (start + n) then 1 else 0))
unfolding occurs range_from
occurs-range_from a start zero = ground arith
occurs-range_from a start (suc n) = ground (arith, occurs-range_from a (suc start) n)

pub length-range_from : (start n : ℕ) → length (range_from start n) ≡ n
unfolding range_from
length-range_from start zero = refl
length-range_from start (suc n) = omega (arith, length-range_from (suc start) n)
