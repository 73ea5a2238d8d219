-- ===== src/Protocol/Swiss/Counts.antt =====
-- crates/protocol/src/lib.rs: lists of pairs as pairings of a set of indexes, for `pair_swiss`.
use tickersix.Base.{
  ℕ, suc, ◌+◌, ◌≤◌, ◌<◌, ◌≡◌, ◌≢◌, refl, Bool, ◌==◌, List, [], ◌∷◌, ◌++◌, arith, if◌then◌else◌,
  length, All, occurs, insert_by, sort_by, inl, inr, Bool-cases,
}
use tickersix.Protocol.{paired}

-- The pairs name each element of the list as often as it occurs.
abbrev pub IsPairing : List ℕ → List (ℕ × ℕ) → Type 0
IsPairing xs pairs = (a : ℕ) → occurs a (paired pairs) ≡ occurs a xs

-- No element occurs twice.
abbrev pub Once : List ℕ → Type 0
Once xs = (a : ℕ) → occurs a xs ≤ 1

pub occurs-paired_append :
    (a : ℕ) (xs ys : List (ℕ × ℕ))
    → occurs a (paired (xs ++ ys)) ≡ occurs a (paired xs) + occurs a (paired ys)
unfolding occurs paired
occurs-paired_append a [] ys = omega arith
occurs-paired_append a ((p, q) ∷ xs) ys = ground (arith, occurs-paired_append a xs ys)

-- One occurrence where the numbers are equal.
unfoldable pub hit : ℕ → ℕ → ℕ
hit a x = if x == a then 1 else 0

pub occurs-cons : (a x : ℕ) (xs : List ℕ) → occurs a (x ∷ xs) ≡ hit a x + occurs a xs
unfolding occurs hit
occurs-cons a x xs = ground arith

pub hit_self : (a : ℕ) → hit a a ≡ 1
unfolding hit
hit_self a = ground arith

pub hit-le : (a x : ℕ) → hit a x ≤ 1
unfolding hit
hit-le a x = ground arith

pub hit-one : (a x : ℕ) → 0 < hit a x → x ≡ a
unfolding hit
hit-one a x h = ground arith

pub hit-none : (a x : ℕ) → x ≢ a → hit a x ≡ 0
unfolding hit
hit-none a x h = ground arith

pub occurs-pair :
    (a p q : ℕ) (xs : List (ℕ × ℕ))
    → occurs a (paired ((p, q) ∷ xs)) ≡ hit a p + hit a q + occurs a (paired xs)
unfolding occurs paired hit
occurs-pair a p q xs = ground arith

module _ (lt : ℕ × ℕ → ℕ × ℕ → Bool) where
  occurs-paired_insert :
      (a p q : ℕ) (xs : List (ℕ × ℕ))
      → occurs a (paired (insert_by lt (p, q) xs)) ≡ hit a p + hit a q + occurs a (paired xs)
  unfolding insert_by
  occurs-paired_insert a p q [] = occurs-pair a p q []
  occurs-paired_insert a p q ((x, y) ∷ xs) = elim (Bool-cases (lt (x, y) (p, q))) [
    | inl e ↦
        rw (e, occurs-pair a x y (insert_by lt (p, q) xs), occurs-pair a x y xs)
          (omega (arith, occurs-paired_insert a p q xs))
    | inr e ↦ rw e (occurs-pair a p q ((x, y) ∷ xs))
  ]

  pub occurs-paired_sort :
      (a : ℕ) (xs : List (ℕ × ℕ)) → occurs a (paired (sort_by lt xs)) ≡ occurs a (paired xs)
  unfolding sort_by
  occurs-paired_sort a [] = refl
  occurs-paired_sort a ((p, q) ∷ xs) = omega (
    arith,
    occurs-paired_insert a p q (sort_by lt xs),
    occurs-paired_sort a xs,
    occurs-pair a p q xs,
  )

  module _ (P : ℕ × ℕ → Type 0) where
    All-insert : (x : ℕ × ℕ) (xs : List (ℕ × ℕ)) → P x → All P xs → All P (insert_by lt x xs)
    unfolding insert_by
    All-insert x [] h k = (h, tt)
    All-insert x (y ∷ ys) h k = elim (Bool-cases (lt y x)) [
      | inl e ↦ rw e (k.0, All-insert x ys h k.1)
      | inr e ↦ rw e (h, k)
    ]

    pub All-sort : (xs : List (ℕ × ℕ)) → All P xs → All P (sort_by lt xs)
    unfolding sort_by
    All-sort [] h = tt
    All-sort (x ∷ xs) h = All-insert x (sort_by lt xs) h.0 (All-sort xs h.1)

pub All-append {ℓ} :
    {A : Type ℓ} (P : A → Type 0) (xs ys : List A) → All P xs → All P ys → All P (xs ++ ys)
All-append P [] ys h k = k
All-append P (x ∷ xs) ys h k = (h.0, All-append P xs ys h.1 k)

-- One occurrence less.
remove_one : ℕ → List ℕ → List ℕ
remove_one a [] = []
remove_one a (x ∷ xs) = if x == a then xs else x ∷ remove_one a xs

length-remove_one :
    (a : ℕ) (xs : List ℕ) → 0 < occurs a xs → length xs ≡ suc (length (remove_one a xs))
unfolding occurs remove_one
length-remove_one a [] h = absurd (omega arith)
length-remove_one a (x ∷ xs) h = ground (arith, length-remove_one a xs)

occurs-remove_one :
    (a b : ℕ) (xs : List ℕ)
    → 0 < occurs a xs
    → occurs b xs
      ≡ (if a == b then suc (occurs b (remove_one a xs)) else occurs b (remove_one a xs))
unfolding occurs remove_one
occurs-remove_one a b [] h = absurd (omega arith)
occurs-remove_one a b (x ∷ xs) h = ground (arith, occurs-remove_one a b xs)

-- Lists in which everything occurs equally often are equally long.
pub same_length : (xs ys : List ℕ) → ((a : ℕ) → occurs a xs ≡ occurs a ys) → length xs ≡ length ys
unfolding occurs
same_length [] [] h = refl
same_length [] (y ∷ ys) h = absurd (ground (arith, h y))
same_length (x ∷ xs) ys h =
    let some_x : 0 < occurs x ys = ground (arith, h x) in
    omega (
      arith,
      length-remove_one x ys some_x,
      same_length xs (remove_one x ys) (λ a. ground (arith, h a, occurs-remove_one x a ys some_x)),
    )
