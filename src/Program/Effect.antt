-- ===== src/Program/Effect.antt =====
-- programs/tickersix/src/lib.rs: what a call can do to the rounds' counts and to the battles. The four
-- kinds of steps are an abstract machine that the instructions implement.
use tickersix.Base.{
  ℕ, ◌==◌, ◌≡◌, ◌≢◌, ◌⊎◌, inl, inr, Bool-cases, refl, ap, List, Option, some, none, arith,
}
use mathlib.Core.Path.{subst}
use tickersix.Runtime.{Key, Account}
use tickersix.State.{MarketRound, Battle}
use tickersix.Battle.Create.{Created}
use tickersix.Battle.Effects.{IsPlay, IsClose, IsOpen}
use tickersix.Store.{find, update, insert, find-update_self, find-update_ne}
use tickersix.Program.Ledger.{Ledger}

-- The counts of a round; a round that does not exist has none.
abbrev pub rated_of : Option MarketRound → ℕ
rated_of none = 0
rated_of (some r) = r.rated_battle_count

abbrev pub resolved_of : Option MarketRound → ℕ
resolved_of none = 0
resolved_of (some r) = r.resolved_battle_count

abbrev pub SameCounts : List (Account MarketRound) → List (Account MarketRound) → Type 0
SameCounts rs rs' =
    (j : Key)
    → (rated_of (find j rs') ≡ rated_of (find j rs))
      × (resolved_of (find j rs') ≡ resolved_of (find j rs))

pub data Effect (l l' : Ledger) : Type 0 where
  -- No battle changes, and no count.
  quiet : l'.battles ≡ l.battles → SameCounts l.rounds l'.rounds → Effect l l'
  -- A battle is created, at an address where there was none.
  opened :
      (key bk : Key) (r : MarketRound) (c : Created)
      → find key l.rounds ≡ some r
      → find bk l.battles ≡ none
      → IsOpen key r c
      → l'.rounds ≡ update key c.market_round l.rounds
      → l'.battles ≡ insert bk c.battle l.battles
      → Effect l l'
  -- An open battle goes on.
  played :
      (bk : Key) (b b' : Battle)
      → find bk l.battles ≡ some b
      → IsPlay b b'
      → l'.rounds ≡ l.rounds
      → l'.battles ≡ update bk b' l.battles
      → Effect l l'
  -- An open battle of the round gets its result.
  closed :
      (key bk : Key) (r r' : MarketRound) (b b' : Battle)
      → find key l.rounds ≡ some r
      → find bk l.battles ≡ some b
      → b.market_round ≡ key
      → IsClose b r b' r'
      → l'.rounds ≡ update key r' l.rounds
      → l'.battles ≡ update bk b' l.battles
      → Effect l l'

pub SameCounts-refl : {rs rs' : List (Account MarketRound)} → rs' ≡ rs → SameCounts rs rs'
SameCounts-refl e j = (ap (λ x. rated_of (find j x)) e, ap (λ x. resolved_of (find j x)) e)

-- What a write of a round does to the rounds, at every address.
pub find-written :
    (key : Key) (r r' : MarketRound) (rs : List (Account MarketRound)) (j : Key)
    → find key rs ≡ some r
    → ((key ≡ j) × (find j rs ≡ some r) × (find j (update key r' rs) ≡ some r'))
      ⊎ ((key ≢ j) × (find j (update key r' rs) ≡ find j rs))
find-written key r r' rs j f = elim (Bool-cases (key == j)) [
  | inl e ↦
      let same : key ≡ j = ground arith in
      inl (
        same,
        subst (λ k. find k rs ≡ some r) same f,
        subst (λ k. find k (update key r' rs) ≡ some r') same (find-update_self key r' r rs f),
      )
  | inr e ↦ let other : key ≢ j = ground arith in inr (other, find-update_ne key j r' rs other)
]

pub SameCounts-update :
    (key : Key) (r r' : MarketRound) (rs : List (Account MarketRound))
    → find key rs ≡ some r
    → r'.rated_battle_count ≡ r.rated_battle_count
    → r'.resolved_battle_count ≡ r.resolved_battle_count
    → SameCounts rs (update key r' rs)
SameCounts-update key r r' rs f e e' j = elim (find-written key r r' rs j f) [
  | inl (_, old, new) ↦ (rw (old, new) e, rw (old, new) e')
  | inr (_, same) ↦ (rw same refl, rw same refl)
]

pub SameCounts-insert :
    (key : Key) (r : MarketRound) (rs : List (Account MarketRound))
    → find key rs ≡ none
    → r.rated_battle_count ≡ 0
    → r.resolved_battle_count ≡ 0
    → SameCounts rs (insert key r rs)
unfolding find
SameCounts-insert key r rs f e e' j = elim (Bool-cases (key == j)) [
  | inl k ↦
      let same : key ≡ j = ground arith in
      let none' : find j rs ≡ none = subst (λ x. find x rs ≡ none) same f in
      (rw (k, none') e, rw (k, none') e')
  | inr k ↦ (rw k refl, rw k refl)
]
