-- ===== src/Round/Assets.antt =====
-- programs/tickersix/src/instructions/round.rs: what `validate_round_assets` establishes.
use tickersix.Base.{
  ℕ, ◌<◌, ◌≡◌, refl, sym, true, false, ◌||◌, ◌==◌, List, [], ◌∷◌, some, length, contains, arith,
  Option-cases, by_test, inl, inr,
}
use tickersix.Errors.{ok, >>=-eq-ok, Result-cases}
use tickersix.Runtime.{Key, Runtime}
use tickersix.Accounts.{AccountInfo, as_round_asset}
use tickersix.State.{MarketRound, RoundAsset, SettlementPolicy, MarketQualityPolicy}
use tickersix.Constants.{has_asset, add_asset, eq_bitmap, empty_bitmap}
use tickersix.Constants.Bits.{has_asset-empty, has_asset-add_asset, eq_bitmap→eq}
use tickersix.Math.Lineup.{IsDistinct}
use tickersix.Round.Universe.{
  Seen, validate_round_asset, validate_loop, validate_round_assets, round_asset_address,
}

abbrev pub ids_of : List RoundAsset → List ℕ
ids_of [] = []
ids_of (a ∷ as') = a.asset_id ∷ ids_of as'

abbrev pub mints_of : List RoundAsset → List Key
mints_of [] = []
mints_of (a ∷ as') = a.scoring_mint ∷ mints_of as'

module _ (rt : Runtime) (round_key : Key) (round : MarketRound) (policy : SettlementPolicy)
    (quality : MarketQualityPolicy) where
  -- An account of the universe: the program's own, of this round, at the address of its identifier.
  pub record IsMember (info : AccountInfo) (asset : RoundAsset) : Type 0 where
    pub is_asset : as_round_asset info.data_of ≡ some asset
    pub owned : info.owner ≡ rt.program_id
    pub of_round : asset.market_round ≡ round_key
    pub in_range : asset.asset_id < 256
    pub at_address : info.key ≡ round_asset_address rt round_key asset.asset_id
    pub eligible : has_asset round.eligible_asset_bitmap asset.asset_id ≡ true

  IsMember-inversion :
      (info : AccountInfo) (seen : Seen) {after : Seen}
      → validate_round_asset rt round_key round policy quality info seen ≡ ok after
      → (asset : RoundAsset) × IsMember info asset
        × (has_asset seen.asset_ids asset.asset_id ≡ false)
        × (contains seen.mints asset.scoring_mint ≡ false)
        × (after.asset_ids ≡ add_asset seen.asset_ids asset.asset_id)
        × (after.mints ≡ asset.scoring_mint ∷ seen.mints)
  unfolding validate_round_asset
  IsMember-inversion info seen h = elim (Option-cases (as_round_asset info.data_of)) [
    | inr (asset, e) ↦ (asset, ground arith, ground arith, ground arith, ground arith, ground arith)
    | inl e ↦ absurd (ground arith)
  ]

  -- The accounts are those of the assets.
  abbrev pub AreMembers : List AccountInfo → List RoundAsset → Type 0
  AreMembers [] [] = Unit
  AreMembers (i ∷ is) (a ∷ as') = IsMember i a × AreMembers is as'
  AreMembers _ _ = ⊥

  -- What the loop adds to what it has seen: new assets, with identifiers and mints all different.
  record IsScan (infos : List AccountInfo) (seen after : Seen) (assets : List RoundAsset)
      : Type 0 where
    members : AreMembers infos assets
    ids_distinct : IsDistinct (ids_of assets)
    mints_distinct : IsDistinct (mints_of assets)
    new_ids :
        (j : ℕ) → j < 256 → has_asset seen.asset_ids j ≡ true → contains (ids_of assets) j ≡ false
    new_mints : (m : Key) → contains seen.mints m ≡ true → contains (mints_of assets) m ≡ false
    bitmap :
        (j : ℕ)
        → j < 256
        → has_asset after.asset_ids j ≡ (has_asset seen.asset_ids j || contains (ids_of assets) j)

  IsScan-step :
      (info : AccountInfo) (infos : List AccountInfo) (seen mid after : Seen) (asset : RoundAsset)
      (assets : List RoundAsset)
      → IsMember info asset
      → has_asset seen.asset_ids asset.asset_id ≡ false
      → contains seen.mints asset.scoring_mint ≡ false
      → mid.asset_ids ≡ add_asset seen.asset_ids asset.asset_id
      → mid.mints ≡ asset.scoring_mint ∷ seen.mints
      → IsScan infos mid after assets
      → IsScan (info ∷ infos) seen after (asset ∷ assets)
  unfolding contains
  IsScan-step info infos seen mid after asset assets m fresh_id fresh_mint ei em v =
      let bits : (j : ℕ)
          → j < 256
          → has_asset mid.asset_ids j ≡ (asset.asset_id == j || has_asset seen.asset_ids j) =
        λ j lt. rw ei (has_asset-add_asset seen.asset_ids asset.asset_id j m.in_range lt) in
      let mints : (k : Key)
          → contains mid.mints k ≡ (asset.scoring_mint == k || contains seen.mints k) =
        λ k. rw em refl in
      record {
        members = (m, v.members);
        ids_distinct = (
          v.new_ids asset.asset_id m.in_range (ground (arith, bits asset.asset_id m.in_range)),
          v.ids_distinct,
        );
        mints_distinct = (
          v.new_mints asset.scoring_mint (ground (arith, mints asset.scoring_mint)),
          v.mints_distinct,
        );
        new_ids = λ j lt h. ground (arith, bits j lt, v.new_ids j lt);
        new_mints = λ k h. ground (arith, mints k, v.new_mints k);
        bitmap = λ j lt. ground (arith, bits j lt, v.bitmap j lt);
      }

  IsScan-nil : (seen after : Seen) → seen ≡ after → IsScan [] seen after []
  unfolding contains
  IsScan-nil seen after e = record {
    members = tt;
    ids_distinct = tt;
    mints_distinct = tt;
    new_ids = λ j lt h. refl;
    new_mints = λ m h. refl;
    bitmap = λ j lt. rw (sym e) (ground arith);
  }

  scan :
      (infos : List AccountInfo) (seen : Seen) {after : Seen}
      → validate_loop rt round_key round policy quality infos seen ≡ ok after
      → (assets : List RoundAsset) × IsScan infos seen after assets
  unfolding validate_loop
  scan [] seen {after} h = ([], IsScan-nil seen after cc)
  scan (info ∷ infos) seen {after} h =
      let (mid, e, k) =
        >>=-eq-ok (validate_round_asset rt round_key round policy quality info seen)
          (validate_loop rt round_key round policy quality infos) h in
      let (asset, m, i, n, ei, em) = IsMember-inversion info seen e in
      let (assets, v) = scan infos mid k in
      (asset ∷ assets, IsScan-step info infos seen mid after asset assets m i n ei em v)

  -- The assets that a set of accounts holds are the whole universe of the round.
  pub record IsUniverse (infos : List AccountInfo) (count : ℕ) (assets : List RoundAsset)
      : Type 0 where
    pub all_members : AreMembers infos assets
    pub counted : length infos ≡ count
    pub distinct_ids : IsDistinct (ids_of assets)
    pub distinct_mints : IsDistinct (mints_of assets)
    pub covers :
        (j : ℕ) → j < 256 → has_asset round.eligible_asset_bitmap j ≡ contains (ids_of assets) j

  validate_inversion :
      (infos : List AccountInfo) (count : ℕ) (start : Seen)
      → start ≡ record { asset_ids = empty_bitmap; mints = []; representations = [] }
      → validate_round_assets rt round_key round policy quality infos count ≡ ok tt
      → (seen : Seen) × (length infos ≡ count)
        × (validate_loop rt round_key round policy quality infos start ≡ ok seen)
        × (eq_bitmap seen.asset_ids round.eligible_asset_bitmap ≡ true)
  unfolding validate_round_assets
  validate_inversion infos count start s h =
      elim (Result-cases (
        validate_loop rt round_key round policy quality infos
          (record { asset_ids = empty_bitmap; mints = []; representations = [] }))) [
            | inl (seen, e) ↦ (seen, ground arith, rw s e, by_test _ λ k. ground arith)
            | inr e ↦ absurd (ground arith)
          ]

  -- When the check of the supplied assets succeeds, the accounts are assets of this round at their own
  -- addresses, with identifiers and mints all different, as many as expected, and the round's bitmap
  -- has exactly their identifiers: no asset of the round can be left out or repeated.
  pub validate_round_assets-IsUniverse :
      (infos : List AccountInfo) (count : ℕ)
      → validate_round_assets rt round_key round policy quality infos count ≡ ok tt
      → (assets : List RoundAsset) × IsUniverse infos count assets
  unfolding contains
  validate_round_assets-IsUniverse infos count h =
      let start : Seen = record { asset_ids = empty_bitmap; mints = []; representations = [] } in
      let (seen, n, e, b) = validate_inversion infos count start refl h in
      let (assets, v) = scan infos start e in
      let same = eq_bitmap→eq seen.asset_ids round.eligible_asset_bitmap b in
      (
        assets,
        record {
          all_members = v.members;
          counted = n;
          distinct_ids = v.ids_distinct;
          distinct_mints = v.mints_distinct;
          covers = λ j lt. rw (sym same) (rw (has_asset-empty j) at (v.bitmap j lt));
        },
      )
