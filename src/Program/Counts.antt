-- ===== src/Program/Counts.antt =====
-- programs/tickersix/src/lib.rs: what holds of the battles and the rounds after any sequence of calls.
use tickersix.Base.{suc, ◌+◌, ◌==◌, ◌≡◌, ◌≢◌, inl, inr, Bool, true, ◌&&◌, not, List, some, arith}
use tickersix.Runtime.{Key, Account}
use tickersix.State.{MarketRound, Battle, is_pending}
use tickersix.Battle.Create.{Created}
use tickersix.Battle.Effects.{IsPlay, IsClose, IsOpen}
use tickersix.Store.{find, update, insert, count, count-update, bit}
use tickersix.Program.Ledger.{Ledger}
use tickersix.Program.Effect.{
  Effect, quiet, opened, played, closed, rated_of, resolved_of, SameCounts, find-written,
}

-- The battles of a round, and those of them that have a result.
unfoldable pub is_of_round : Key → Battle → Bool
is_of_round k b = b.market_round == k

unfoldable pub is_closed_of : Key → Battle → Bool
unfolding is_of_round
is_closed_of k b = is_of_round k b && not (is_pending b.result)

-- The rounds count their battles, at every address.
pub record IsCounted (rs : List (Account MarketRound)) (bs : List (Account Battle)) (k : Key)
    : Type 0 where
  pub rated_counts : rated_of (find k rs) ≡ count (is_of_round k) bs
  pub resolved_counts : resolved_of (find k rs) ≡ count (is_closed_of k) bs

quiet-IsCounted :
    (rs rs' : List (Account MarketRound)) (bs : List (Account Battle)) (k : Key)
    → SameCounts rs rs'
    → IsCounted rs bs k
    → IsCounted rs' bs k
quiet-IsCounted rs rs' bs k s v = record {
  rated_counts = rw (s k).0 v.rated_counts;
  resolved_counts = rw (s k).1 v.resolved_counts;
}

-- A new battle is one more in its own round, and in no other.
new_counts :
    (key bk : Key) (r : MarketRound) (c : Created) (bs : List (Account Battle)) (k : Key)
    → IsOpen key r c
    → (key ≡ k → (count (is_of_round k) (insert bk c.battle bs) ≡ count (is_of_round k) bs + 1))
      × (key ≢ k → (count (is_of_round k) (insert bk c.battle bs) ≡ count (is_of_round k) bs))
      × (count (is_closed_of k) (insert bk c.battle bs) ≡ count (is_closed_of k) bs)
unfolding count is_of_round is_closed_of
new_counts key bk r c bs k o =
    let e : c.battle.market_round ≡ key = o.opened_round in
    let p : is_pending c.battle.result ≡ true = o.opened_open in
    (λ s. ground arith, λ s. ground arith, ground arith)

opened-IsCounted :
    (key bk : Key) (r : MarketRound) (c : Created) (rs : List (Account MarketRound))
    (bs : List (Account Battle)) (k : Key)
    → find key rs ≡ some r
    → IsOpen key r c
    → IsCounted rs bs k
    → IsCounted (update key c.market_round rs) (insert bk c.battle bs) k
opened-IsCounted key bk r c rs bs k f o v =
    let (mine, other, closed') = new_counts key bk r c bs k o in
    elim (find-written key r c.market_round rs k f) [
      | inl (same, old, new) ↦
          let old_rated : r.rated_battle_count ≡ count (is_of_round k) bs =
            rw old at v.rated_counts in
          let old_resolved : r.resolved_battle_count ≡ count (is_closed_of k) bs =
            rw old at v.resolved_counts in
          record {
            rated_counts = rw (new, mine same) (omega (arith, o.opened_rated, old_rated));
            resolved_counts = rw (new, closed') (omega (arith, o.opened_resolved, old_resolved));
          }
      | inr (ne, same) ↦ record {
        rated_counts = rw (same, other ne) v.rated_counts;
        resolved_counts = rw (same, closed') v.resolved_counts;
      }
    ]

play_bits :
    (b b' : Battle) (k : Key)
    → IsPlay b b'
    → (bit (is_of_round k b) ≡ bit (is_of_round k b'))
      × (bit (is_closed_of k b) ≡ bit (is_closed_of k b'))
unfolding is_of_round is_closed_of
play_bits b b' k o =
    (ground (arith, o.play_round), ground (arith, o.play_round, o.play_before, o.play_after))

close_bits :
    (key : Key) (b b' : Battle) (r r' : MarketRound) (k : Key)
    → b.market_round ≡ key
    → IsClose b r b' r'
    → (key ≡ k → bit (is_closed_of k b') ≡ suc (bit (is_closed_of k b)))
      × (key ≢ k → bit (is_closed_of k b') ≡ bit (is_closed_of k b))
      × (bit (is_of_round k b) ≡ bit (is_of_round k b'))
unfolding is_of_round is_closed_of
close_bits key b b' r r' k m o = (
  λ s. ground (arith, o.same_round, o.open_before, o.closed_after),
  λ s. ground (arith, o.same_round, o.open_before, o.closed_after),
  ground (arith, o.same_round),
)

-- A battle that goes on is counted as before.
played-IsCounted :
    (bk : Key) (b b' : Battle) (rs : List (Account MarketRound)) (bs : List (Account Battle))
    (k : Key)
    → find bk bs ≡ some b
    → IsPlay b b'
    → IsCounted rs bs k
    → IsCounted rs (update bk b' bs) k
played-IsCounted bk b b' rs bs k f o v =
    let (round, closed') = play_bits b b' k o in
    record {
      rated_counts =
          omega (arith, v.rated_counts, round, count-update (is_of_round k) bk b' b bs f);
      resolved_counts =
          omega (arith, v.resolved_counts, closed', count-update (is_closed_of k) bk b' b bs f);
    }

-- A battle that is closed is one more with a result in its own round, and in no other.
closed-IsCounted :
    (key bk : Key) (r r' : MarketRound) (b b' : Battle) (rs : List (Account MarketRound))
    (bs : List (Account Battle)) (k : Key)
    → find key rs ≡ some r
    → find bk bs ≡ some b
    → b.market_round ≡ key
    → IsClose b r b' r'
    → IsCounted rs bs k
    → IsCounted (update key r' rs) (update bk b' bs) k
closed-IsCounted key bk r r' b b' rs bs k fr fb m o v =
    let (mine, other, round) = close_bits key b b' r r' k m o in
    let of_round = count-update (is_of_round k) bk b' b bs fb in
    let of_closed = count-update (is_closed_of k) bk b' b bs fb in
    elim (find-written key r r' rs k fr) [
      | inl (same, old, new) ↦
          let old_rated : r.rated_battle_count ≡ count (is_of_round k) bs =
            rw old at v.rated_counts in
          let old_resolved : r.resolved_battle_count ≡ count (is_closed_of k) bs =
            rw old at v.resolved_counts in
          record {
            rated_counts = rw new (omega (arith, o.rated_kept, old_rated, round, of_round));
            resolved_counts =
                rw new (omega (arith, o.one_more, old_resolved, mine same, of_closed));
          }
      | inr (ne, same) ↦ record {
        rated_counts = rw same (omega (arith, v.rated_counts, round, of_round));
        resolved_counts = rw same (omega (arith, v.resolved_counts, other ne, of_closed));
      }
    ]

-- Every step keeps the counts.
pub Effect-IsCounted :
    {l l' : Ledger}
    → Effect l l'
    → (k : Key) → IsCounted l.rounds l.battles k
    → IsCounted l'.rounds l'.battles k
Effect-IsCounted {l} {l'} (quiet eb s) k v =
    rw eb (quiet-IsCounted l.rounds l'.rounds l.battles k s v)
Effect-IsCounted {l} (opened key bk r c fr fb o er eb) k v =
    rw (er, eb) (opened-IsCounted key bk r c l.rounds l.battles k fr o v)
Effect-IsCounted {l} (played bk b b' f o er eb) k v =
    rw (er, eb) (played-IsCounted bk b b' l.rounds l.battles k f o v)
Effect-IsCounted {l} (closed key bk r r' b b' fr fb m o er eb) k v =
    rw (er, eb) (closed-IsCounted key bk r r' b b' l.rounds l.battles k fr fb m o v)
