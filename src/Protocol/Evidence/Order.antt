-- ===== src/Protocol/Evidence/Order.antt =====
-- crates/protocol/src/lib.rs: hashes that do not depend on the order in which rows arrive.
use tickersix.Base.{
  ℕ, ◌≡◌, ◌∙◌, refl, sym, ap, true, false, ltb, List, [], ◌∷◌, ◌++◌, arith, All, sort_by, insert_by,
  inl, inr, Bool-cases,
}
use tickersix.Base.Shuffle.{Shuffle, same, keep, swap, after, IsOrder, sort_by-Shuffle}
use tickersix.Base.Int.{ltb_ℤ, eqb_ℤ, eq_of_parts}
use tickersix.Math.{sort_unstable, insert_sorted}
use tickersix.Runtime.{Key, Bytes}
use tickersix.Protocol.Swiss.{PairingPlayer}
use tickersix.Protocol.Evidence.{
  PriceSample, sample_lt, wallet_lt, standing_bytes, standings_bytes, evidence_root,
  league_standings_input_hash,
}

-- The samples of one phase of one round and mint.
pub record IsOf (market_round : Key) (phase : ℕ) (mint : Key) (s : PriceSample) : Type 0 where
  pub of_round : s.market_round ≡ market_round
  pub of_phase : s.phase ≡ phase
  pub of_mint : s.scoring_mint ≡ mint

sample_lt-IsOrder : (r : Key) (p : ℕ) (m : Key) → IsOrder (IsOf r p m) sample_lt
unfolding sample_lt ltb_ℤ eqb_ℤ
sample_lt-IsOrder r p m = record {
  asym = λ a b h. ground arith;
  between = λ a b c h. ground arith;
  tie = λ a b i j h k. ground (
    arith,
    eq_of_parts a.observed_at_unix_ms b.observed_at_unix_ms,
    eq_of_parts a.price_q9 b.price_q9,
  );
}

-- The evidence root of samples of one phase of one asset in one round does not depend on the order in
-- which they arrived.
pub evidence_root-Shuffle :
    (sha256 : Bytes → Key) (market_round : Key) (phase : ℕ) (mint : Key) {xs ys : List PriceSample}
    → Shuffle xs ys
    → All (IsOf market_round phase mint) xs
    → evidence_root sha256 xs ≡ evidence_root sha256 ys
unfolding evidence_root
evidence_root-Shuffle sha256 r p m s h =
    rw (sort_by-Shuffle (IsOf r p m) sample_lt (sample_lt-IsOrder r p m) s h) refl

insert_sorted_comm :
    (a b : ℕ) (xs : List ℕ)
    → insert_sorted a (insert_sorted b xs) ≡ insert_sorted b (insert_sorted a xs)
unfolding insert_sorted
insert_sorted_comm a b [] = ground arith
insert_sorted_comm a b (x ∷ xs) = ground (arith, insert_sorted_comm a b xs)

sort_unstable-Shuffle : {xs ys : List ℕ} → Shuffle xs ys → sort_unstable xs ≡ sort_unstable ys
unfolding sort_unstable
sort_unstable-Shuffle same = refl
sort_unstable-Shuffle (keep x s) = ap (insert_sorted x) (sort_unstable-Shuffle s)
sort_unstable-Shuffle (swap x y {xs}) = insert_sorted_comm x y (sort_unstable xs)
sort_unstable-Shuffle (after s t) = sort_unstable-Shuffle s ∙ sort_unstable-Shuffle t

-- The same player in two snapshots: the rating may differ, and the order of the prior opponents.
pub record SameStanding (p q : PairingPlayer) : Type 0 where
  pub wallets : p.wallet ≡ q.wallet
  pub points : p.league_points ≡ q.league_points
  pub byes : p.bye_count ≡ q.bye_count
  pub opponents : Shuffle p.prior_opponents q.prior_opponents

standing_bytes-same : (p q : PairingPlayer) → SameStanding p q → standing_bytes p ≡ standing_bytes q
unfolding standing_bytes
standing_bytes-same p q s = rw (s.wallets, s.points, s.byes, sort_unstable-Shuffle s.opponents) refl

-- Two snapshots that list the same players, one by one.
abbrev pub SameStandings : List PairingPlayer → List PairingPlayer → Type 0
SameStandings [] [] = Unit
SameStandings (p ∷ ps) (q ∷ qs) = SameStanding p q × SameStandings ps qs
SameStandings _ _ = ⊥

insert-same :
    (p q : PairingPlayer) (ps qs : List PairingPlayer)
    → SameStanding p q
    → SameStandings ps qs
    → SameStandings (insert_by wallet_lt p ps) (insert_by wallet_lt q qs)
unfolding insert_by wallet_lt
insert-same p q [] [] s t = (s, tt)
insert-same p q [] (y ∷ ys) s t = absurd t
insert-same p q (x ∷ xs) [] s t = absurd t
insert-same p q (x ∷ xs) (y ∷ ys) s t =
    let later = insert-same p q xs ys s t.1 in
    elim (Bool-cases (ltb x.wallet p.wallet)) [
      | inl e ↦
          let e' : ltb y.wallet q.wallet ≡ true = rw (sym t.0.wallets, sym s.wallets) e in
          rw (e, e') (t.0, later)
      | inr e ↦
          let e' : ltb y.wallet q.wallet ≡ false = rw (sym t.0.wallets, sym s.wallets) e in
          rw (e, e') (s, t)
    ]

sort-same :
    (ps qs : List PairingPlayer)
    → SameStandings ps qs
    → SameStandings (sort_by wallet_lt ps) (sort_by wallet_lt qs)
unfolding sort_by
sort-same [] [] t = tt
sort-same [] (y ∷ ys) t = absurd t
sort-same (x ∷ xs) [] t = absurd t
sort-same (x ∷ xs) (y ∷ ys) t =
    insert-same x y (sort_by wallet_lt xs) (sort_by wallet_lt ys) t.0 (sort-same xs ys t.1)

standings_bytes-same :
    (ps qs : List PairingPlayer) → SameStandings ps qs → standings_bytes ps ≡ standings_bytes qs
unfolding standings_bytes
standings_bytes-same [] [] t = refl
standings_bytes-same [] (y ∷ ys) t = absurd t
standings_bytes-same (x ∷ xs) [] t = absurd t
standings_bytes-same (x ∷ xs) (y ∷ ys) t =
    ap (λ bs. bs ++ standings_bytes xs) (standing_bytes-same x y t.0)
    ∙ ap (λ bs. standing_bytes y ++ bs) (standings_bytes-same xs ys t.1)

wallet_lt-IsOrder :
    (player_of : Key → PairingPlayer) → IsOrder (λ p. player_of p.wallet ≡ p) wallet_lt
unfolding wallet_lt
wallet_lt-IsOrder player_of = record {
  asym = λ a b h. ground arith;
  between = λ a b c h. ground arith;
  tie = λ a b i j h k. let e : a.wallet ≡ b.wallet = ground arith in sym i ∙ (ap player_of e ∙ j);
}

-- The hash of a standings snapshot is the same for any order of the players and of their prior
-- opponents, and for any ratings, where no two players of the snapshot share a wallet.
pub league_standings_input_hash-Shuffle :
    (sha256 : Bytes → Key) (player_of : Key → PairingPlayer) {xs ys : List PairingPlayer}
    (zs : List PairingPlayer)
    → Shuffle xs ys
    → All (λ p. player_of p.wallet ≡ p) xs
    → SameStandings ys zs
    → league_standings_input_hash sha256 xs ≡ league_standings_input_hash sha256 zs
unfolding league_standings_input_hash
league_standings_input_hash-Shuffle sha256 player_of {xs} {ys} zs s h t =
    rw
      (
        sort_by-Shuffle _ wallet_lt (wallet_lt-IsOrder player_of) s h,
        standings_bytes-same (sort_by wallet_lt ys) (sort_by wallet_lt zs) (sort-same ys zs t),
      )
      refl
