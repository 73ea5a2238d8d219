-- ===== src/Backend/Settlement/Valid.antt =====
-- backend/src/settlement.rs: what `validate_snapshot` makes sure of.
use tickersix.Base.{
  ℕ, suc, ◌≤◌, ◌<◌, ◌≡◌, refl, true, false, not, ◌||◌, ◌==◌, leb, List, [], ◌∷◌, if◌then◌else◌,
  arith, inl, inr, Bool-cases, length, contains, occurs, by_test,
}
use tickersix.Math.{sort_unstable, insert_sorted}
use tickersix.Backend.Settlement.{dedup, dedup_after, all_in}

-- Every element is at least the one before it, from `a` on.
abbrev Ascending : ℕ → List ℕ → Type 0
Ascending a [] = Unit
Ascending a (x ∷ xs) = (a ≤ x) × Ascending x xs

Ascending-insert :
    (a b : ℕ) (xs : List ℕ) → a ≤ b → Ascending a xs → Ascending a (insert_sorted b xs)
unfolding insert_sorted
Ascending-insert a b [] h k = (h, tt)
Ascending-insert a b (x ∷ xs) h k = elim (Bool-cases (leb b x)) [
  | inl e ↦ rw e (h, (ground arith, k.1))
  | inr e ↦ rw e (k.0, Ascending-insert x b xs (ground arith) k.1)
]

Ascending-sort : (xs : List ℕ) → Ascending 0 (sort_unstable xs)
unfolding sort_unstable
Ascending-sort [] = tt
Ascending-sort (x ∷ xs) = Ascending-insert 0 x (sort_unstable xs) (omega arith) (Ascending-sort xs)

occurs-below : (b a : ℕ) (xs : List ℕ) → b < a → Ascending a xs → occurs b xs ≡ 0
unfolding occurs
occurs-below b a [] h k = refl
occurs-below b a (x ∷ xs) h k = ground (arith, occurs-below b x xs (omega arith) k.1, k.0)

dedup_after-le : (a : ℕ) (xs : List ℕ) → length (dedup_after a xs) ≤ length xs
unfolding dedup_after
dedup_after-le a [] = omega arith
dedup_after-le a (x ∷ xs) = ground (arith, dedup_after-le x xs)

-- An ascending list from which nothing is removed has no element twice.
dedup_after-once :
    (a b : ℕ) (xs : List ℕ)
    → Ascending a xs
    → length (dedup_after a xs) ≡ length xs
    → occurs b (a ∷ xs) ≤ 1
unfolding dedup_after occurs
dedup_after-once a b [] k e = ground arith
dedup_after-once a b (x ∷ xs) k e =
    ground (arith, dedup_after-le x xs, dedup_after-once x b xs k.1, occurs-below b x xs, k.0, k.1)

occurs-insert_sorted :
    (a b : ℕ) (xs : List ℕ)
    → occurs a (insert_sorted b xs) ≡ (if b == a then suc (occurs a xs) else occurs a xs)
unfolding occurs insert_sorted
occurs-insert_sorted a b [] = refl
occurs-insert_sorted a b (x ∷ xs) = ground (arith, occurs-insert_sorted a b xs)

occurs-sort_unstable : (a : ℕ) (xs : List ℕ) → occurs a (sort_unstable xs) ≡ occurs a xs
unfolding occurs sort_unstable
occurs-sort_unstable a [] = refl
occurs-sort_unstable a (x ∷ xs) =
    ground (arith, occurs-insert_sorted a x (sort_unstable xs), occurs-sort_unstable a xs)

length-insert_sorted : (a : ℕ) (xs : List ℕ) → length (insert_sorted a xs) ≡ suc (length xs)
unfolding insert_sorted
length-insert_sorted a [] = refl
length-insert_sorted a (x ∷ xs) = ground (arith, length-insert_sorted a xs)

length-sort_unstable : (xs : List ℕ) → length (sort_unstable xs) ≡ length xs
unfolding sort_unstable
length-sort_unstable [] = refl
length-sort_unstable (x ∷ xs) =
    omega (arith, length-insert_sorted x (sort_unstable xs), length-sort_unstable xs)

dedup-once :
    (b : ℕ) (xs : List ℕ) → Ascending 0 xs → length (dedup xs) ≡ length xs → occurs b xs ≤ 1
unfolding dedup occurs
dedup-once b [] k e = omega arith
dedup-once b (x ∷ xs) k e = dedup_after-once x b xs k.1 (omega arith)

-- Six different assets of the snapshot.
pub record IsSelection (asset_ids selected : List ℕ) : Type 0 where
  pub six : length selected ≡ 6
  pub once : (a : ℕ) → occurs a selected ≤ 1
  pub known : (a : ℕ) → 0 < occurs a selected → 0 < occurs a asset_ids

contains-occurs : (xs : List ℕ) (a : ℕ) → contains xs a ≡ true → 0 < occurs a xs
unfolding contains occurs
contains-occurs [] a h = absurd (cc)
contains-occurs (x ∷ xs) a h = ground (arith, contains-occurs xs a)

pub contains-absent : (xs : List ℕ) (a : ℕ) → contains xs a ≡ false → occurs a xs ≡ 0
unfolding contains occurs
contains-absent [] a h = refl
contains-absent (x ∷ xs) a h = ground (arith, contains-absent xs a)

all_in-known : (ids xs : List ℕ) (a : ℕ) → all_in ids xs ≡ true → 0 < occurs a xs → 0 < occurs a ids
unfolding all_in occurs
all_in-known ids [] a h k = absurd (omega arith)
all_in-known ids (x ∷ xs) a h k = elim (Bool-cases (x == a)) [
  | inl e ↦ ground (arith, contains-occurs ids a)
  | inr e ↦ all_in-known ids xs a (ground arith) (ground arith)
]

dedup_after-occurs : (a b : ℕ) (xs : List ℕ) → 0 < occurs b xs → 0 < occurs b (a ∷ dedup_after a xs)
unfolding dedup_after occurs
dedup_after-occurs a b [] h = absurd (omega arith)
dedup_after-occurs a b (x ∷ xs) h = ground (arith, dedup_after-occurs x b xs)

dedup-occurs : (b : ℕ) (xs : List ℕ) → 0 < occurs b xs → 0 < occurs b (dedup xs)
unfolding dedup occurs
dedup-occurs b [] h = h
dedup-occurs b (x ∷ xs) h = ground (arith, dedup_after-occurs x b xs)

pub selection_of :
    (ids selected : List ℕ)
    → (not (
        not (length (dedup (sort_unstable selected)) == 6)
        || not (length (dedup (sort_unstable selected)) == length selected)
        || not (all_in ids (dedup (sort_unstable selected)))))
      ≡ true
    → IsSelection ids selected
selection_of ids selected h =
    let sorted = sort_unstable selected in
    let all : all_in ids (dedup sorted) ≡ true = by_test _ λ e. ground arith in
    let n : length (dedup sorted) ≡ length selected = ground arith in
    record {
      six = ground arith;
      once = λ a. omega (
        arith,
        occurs-sort_unstable a selected,
        dedup-once a sorted (Ascending-sort selected)
            (omega (arith, length-sort_unstable selected, n)),
      );
      known = λ a k.
          all_in-known ids (dedup sorted) a all
            (dedup-occurs a sorted (omega (arith, occurs-sort_unstable a selected, k)));
    }
