-- ===== src/Protocol/Swiss/Bye.antt =====
-- crates/protocol/src/lib.rs: who may have the bye of a round, and the round that `pair_swiss` makes.
use tickersix.Base.{
  ℕ, zero, suc, ◌≤◌, ◌<◌, ◌≡◌, refl, sym, Bool, true, false, ◌&&◌, ◌==◌, ltb, List, [], ◌∷◌, arith,
  if◌then◌else◌, length, occurs, filter, inl, get_or, inr, Bool-cases, occurs-filter, sort_by, ◌⊎◌,
  insert_by,
}
use tickersix.Runtime.{Key, Bytes}
use tickersix.Protocol.Swiss.{
  PairingPlayer, first_non_empty, bye_group, lowest_from, had_no_bye, player,
}

length-insert_by :
    (lt : ℕ → ℕ → Bool) (x : ℕ) (xs : List ℕ) → length (insert_by lt x xs) ≡ suc (length xs)
unfolding insert_by
length-insert_by lt x [] = refl
length-insert_by lt x (y ∷ ys) = ground (arith, length-insert_by lt x ys)

pub length-sort_by : (lt : ℕ → ℕ → Bool) (xs : List ℕ) → length (sort_by lt xs) ≡ length xs
unfolding sort_by
length-sort_by lt [] = refl
length-sort_by lt (x ∷ xs) =
    omega (arith, length-insert_by lt x (sort_by lt xs), length-sort_by lt xs)

occurs-first_non_empty :
    (a : ℕ) (xs ys : List ℕ)
    → 0 < occurs a (first_non_empty xs ys)
    → (0 < occurs a xs) ⊎ ((xs ≡ []) × (0 < occurs a ys))
occurs-first_non_empty a [] ys h = inr (refl, h)
occurs-first_non_empty a (x ∷ xs) ys h = inl h

pub length-first_non_empty : (xs ys : List ℕ) → 0 < length ys → 0 < length (first_non_empty xs ys)
length-first_non_empty [] ys h = h
length-first_non_empty (x ∷ xs) ys h = omega arith

-- The test of a member of a filtered list, and a member that passes.
filtered :
    (p : ℕ → Bool) (a : ℕ) (xs : List ℕ)
    → 0 < occurs a (filter p xs)
    → (p a ≡ true) × (0 < occurs a xs)
filtered p a xs h =
    (ground (arith, occurs-filter p a xs, h), ground (arith, occurs-filter p a xs, h))

filtered-none :
    (p : ℕ → Bool) (a : ℕ) (xs : List ℕ) → filter p xs ≡ [] → 0 < occurs a xs → p a ≡ false
unfolding occurs
filtered-none p a xs e h =
    let none_there : 0 ≡ occurs a (filter p xs) = rw e refl in
    ground (arith, occurs-filter p a xs, none_there, h)

pub lowest_from-le :
    (lowest i : ℕ) (ps : List PairingPlayer) (d : PairingPlayer)
    → (lowest_from lowest ps ≤ lowest)
      × (i < length ps → lowest_from lowest ps ≤ (get_or ps i d).league_points)
unfolding lowest_from
lowest_from-le lowest i [] d = (omega arith, λ h. absurd (omega arith))
lowest_from-le lowest zero (p ∷ ps) d =
    let next = if ltb p.league_points lowest then p.league_points else lowest in
    let later = lowest_from-le next zero ps d in (ground arith, λ h. ground arith)
lowest_from-le lowest (suc i) (p ∷ ps) d =
    let next = if ltb p.league_points lowest then p.league_points else lowest in
    let later = lowest_from-le next i ps d in (ground arith, λ h. later.1 (omega arith))

pub lowest_from-member :
    (lowest : ℕ) (ps : List PairingPlayer) (d : PairingPlayer)
    → (lowest_from lowest ps ≡ lowest)
      ⊎ ((i : ℕ) × (i < length ps) × ((get_or ps i d).league_points ≡ lowest_from lowest ps))
unfolding lowest_from
lowest_from-member lowest [] d = inl refl
lowest_from-member lowest (p ∷ ps) d = elim (Bool-cases (ltb p.league_points lowest)) [
  | inl e ↦ rw e (elim (lowest_from-member p.league_points ps d) [
    | inl q ↦ inr (0, omega arith, sym q)
    | inr (i, l, q) ↦ inr (suc i, omega (arith, l), q)
  ])
  | inr e ↦ rw e (elim (lowest_from-member lowest ps d) [
    | inl q ↦ inl q
    | inr (i, l, q) ↦ inr (suc i, omega (arith, l), q)
  ])
]

module _ (sha256 : Bytes → Key) (players : List PairingPlayer) (seed : Key) where
  abbrev the : ℕ → PairingPlayer
  the = player sha256 players seed

  abbrev no_bye : ℕ → Bool
  no_bye = had_no_bye sha256 players seed

  abbrev group : ℕ → List ℕ → List ℕ
  group = bye_group sha256 players seed

  pub group-member : (lowest b : ℕ) (cs : List ℕ) → 0 < occurs b (group lowest cs) → 0 < occurs b cs
  unfolding bye_group
  group-member lowest b cs h =
      let p = λ (i : ℕ). (the i).league_points == lowest && no_bye i in
      elim (occurs-first_non_empty b (filter p cs) (first_non_empty (filter no_bye cs) cs) h) [
        | inl k ↦ (filtered p b cs k).1
        | inr (_, k) ↦ elim (occurs-first_non_empty b (filter no_bye cs) cs k) [
          | inl l ↦ (filtered no_bye b cs l).1
          | inr (_, l) ↦ l
        ]
      ]

  -- A member of the group is fair: it had no bye, where anybody had none, and has the lowest points,
  -- where anybody with the lowest points had none.
  pub group-fair :
      (lowest b i : ℕ) (cs : List ℕ)
      → 0 < occurs b (group lowest cs)
      → 0 < occurs i cs
      → no_bye i ≡ true
      → (no_bye b ≡ true) × ((the i).league_points ≡ lowest → (the b).league_points ≡ lowest)
  unfolding bye_group
  group-fair lowest b i cs h m n =
      let p = λ (j : ℕ). (the j).league_points == lowest && no_bye j in
      elim (occurs-first_non_empty b (filter p cs) (first_non_empty (filter no_bye cs) cs) h) [
        | inl k ↦ let passed = (filtered p b cs k).0 in (ground arith, λ e. ground arith)
        | inr (e, k) ↦
            let failed = filtered-none p i cs e m in
            elim (occurs-first_non_empty b (filter no_bye cs) cs k) [
              | inl l ↦ ((filtered no_bye b cs l).0, λ q. absurd (ground arith))
              | inr (e', l) ↦ absurd (ground (arith, filtered-none no_bye i cs e' m))
            ]
      ]

  pub length-group : (lowest : ℕ) (cs : List ℕ) → 0 < length cs → 0 < length (group lowest cs)
  unfolding bye_group
  length-group lowest cs h =
      length-first_non_empty _ (first_non_empty (filter no_bye cs) cs)
        (length-first_non_empty (filter no_bye cs) cs h)
