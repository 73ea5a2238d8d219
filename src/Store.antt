-- ===== src/Store.antt =====
-- The accounts of one type that exist on the ledger, by their addresses.
use tickersix.Base.{
  ℕ, suc, ◌+◌, ◌≤◌, ◌&&◌, ◌≡◌, ◌≢◌, refl, Bool, true, false, List, [], ◌∷◌, ◌==◌, Option, some,
  none, if◌then◌else◌, arith, All, inl, inr, Bool-cases,
}
use mathlib.Core.Path.{subst}
use tickersix.Errors.{Result, ok, err, account_not_owned}
use tickersix.Runtime.{Key, Account, NewAccount}

abbrev pub bit : Bool → ℕ
bit true = 1
bit false = 0

some_inj {ℓ} : {A : Type ℓ} {a b : A} → some a ≡ some b → a ≡ b
some_inj h = cc

module _ {ℓ} {A : Type ℓ} where
  unfoldable pub find : Key → List (Account A) → Option A
  find k [] = none
  find k (x ∷ xs) = if x.key == k then some x.account else find k xs

  -- A write to an account that exists.
  unfoldable pub update : Key → A → List (Account A) → List (Account A)
  update k v [] = []
  update k v (x ∷ xs) = if x.key == k then record x { account = v } ∷ xs else x ∷ update k v xs

  -- A closed account is gone.
  unfoldable pub remove : Key → List (Account A) → List (Account A)
  remove k [] = []
  remove k (x ∷ xs) = if x.key == k then xs else x ∷ remove k xs

  abbrev pub insert : Key → A → List (Account A) → List (Account A)
  insert k v xs = record { key = k; account = v } ∷ xs

  -- How many accounts pass a test.
  unfoldable pub count : (A → Bool) → List (Account A) → ℕ
  count p [] = 0
  count p (x ∷ xs) = if p x.account then suc (count p xs) else count p xs

  -- An account that the instruction reads must exist and belong to the program.
  abbrev load_found : Key → Option A → Result (Account A)
  load_found k (some a) = ok (record { key = k; account = a })
  load_found k none = err account_not_owned

  unfoldable pub load : Key → List (Account A) → Result (Account A)
  unfolding find
  load k xs = load_found k (find k xs)

  abbrev pub exists : Option A → Bool
  exists none = false
  exists (some _) = true

  -- An account that the instruction creates.
  unfoldable pub fresh : Key → List (Account A) → NewAccount
  unfolding find
  fresh k xs = record { key = k; in_use = exists (find k xs) }

  pub load-eq_ok :
      (k : Key) (xs : List (Account A)) (a : Account A)
      → load k xs ≡ ok a
      → (a.key ≡ k) × (find k xs ≡ some a.account)
  unfolding load
  load-eq_ok k xs a h = ground arith

  exists-none : (o : Option A) → exists o ≡ false → o ≡ none
  exists-none none h = refl
  exists-none (some a) h = cc

  pub fresh-none :
      (k : Key) (xs : List (Account A)) → (fresh k xs).in_use ≡ false → find k xs ≡ none
  unfolding fresh
  fresh-none k xs h = exists-none (find k xs) h

  pub find-update_self :
      (k : Key) (v w : A) (xs : List (Account A))
      → find k xs ≡ some w
      → find k (update k v xs) ≡ some v
  unfolding find update
  find-update_self k v w [] h = cc
  find-update_self k v w (x ∷ xs) h = ground (arith, find-update_self k v w xs)

  pub find-update_ne :
      (k j : Key) (v : A) (xs : List (Account A)) → k ≢ j → find j (update k v xs) ≡ find j xs
  unfolding find update
  find-update_ne k j v [] h = refl
  find-update_ne k j v (x ∷ xs) h = ground (arith, find-update_ne k j v xs h)

  -- An account at another address is not lost when one is created.
  pub find-insert :
      (k j : Key) (v w : A) (xs : List (Account A))
      → find k xs ≡ none
      → find j xs ≡ some w
      → find j (insert k v xs) ≡ some w
  unfolding find
  find-insert k j v w xs f h = elim (Bool-cases (k == j)) [
    | inl e ↦
        let same : k ≡ j = ground arith in
        let gone : find j xs ≡ none = subst (λ x. find x xs ≡ none) same f in absurd (cc)
    | inr e ↦ rw e h
  ]

  -- A write changes a count by the account that it replaces.
  pub count-update :
      (p : A → Bool) (k : Key) (v w : A) (xs : List (Account A))
      → find k xs ≡ some w
      → count p (update k v xs) + bit (p w) ≡ count p xs + bit (p v)
  unfolding find update count
  count-update p k v w [] h = cc
  count-update p k v w (x ∷ xs) h = ground (arith, count-update p k v w xs)

  abbrev pub AllOf {κ} : (A → Type κ) → List (Account A) → Type κ
  AllOf P = All (λ x. P x.account)

  pub AllOf-find {κ} :
      (P : A → Type κ) (k : Key) (w : A) (xs : List (Account A))
      → AllOf P xs
      → find k xs ≡ some w
      → P w
  unfolding find
  AllOf-find P k w [] a h = cc
  AllOf-find P k w (x ∷ xs) a h = elim (Bool-cases (x.key == k)) [
    | inl e ↦ subst P (some_inj (rw (e, find) at h)) a.0
    | inr e ↦ AllOf-find P k w xs a.1 (rw (e, find) at h)
  ]

  pub AllOf-update {κ} :
      (P : A → Type κ) (k : Key) (v : A) (xs : List (Account A))
      → AllOf P xs
      → P v
      → AllOf P (update k v xs)
  unfolding update
  AllOf-update P k v [] a h = tt
  AllOf-update P k v (x ∷ xs) a h = elim (Bool-cases (x.key == k)) [
    | inl e ↦ rw e (h, a.1)
    | inr e ↦ rw e (a.0, AllOf-update P k v xs a.1 h)
  ]

-- Where two counts agree, every account that passes the wider test passes the narrower.
module _ {ℓ} {A : Type ℓ} (p q : A → Bool) where
  count-le : (xs : List (Account A)) → count (λ a. p a && q a) xs ≤ count p xs
  unfolding count
  count-le [] = omega arith
  count-le (x ∷ xs) = ground (arith, count-le xs)

  pub count-eq_all :
      (xs : List (Account A))
      → count p xs ≡ count (λ a. p a && q a) xs
      → AllOf (λ a. p a ≡ true → q a ≡ true) xs
  unfolding count
  count-eq_all [] h = tt
  count-eq_all (x ∷ xs) h =
      (ground (arith, count-le xs), count-eq_all xs (ground (arith, count-le xs)))
