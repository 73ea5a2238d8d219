-- ===== src/Round/Universe.antt =====
-- programs/tickersix/src/instructions/round.rs: `validate_round_assets`, which checks that the
-- caller supplied the complete set of a round's assets.
use tickersix.Base.{
  ℕ, true, not, ◌&&◌, ◌==◌, ltb, List, [], ◌∷◌, some, none, contains, length, if◌then◌else◌,
}
use tickersix.Errors.{Result, ok, err, custom, ErrorCode, require, ◌>>◌, ◌>>=◌}
use tickersix.Runtime.{Key, Runtime, default_key, le_bytes, key_bytes, require_keys_eq}
use tickersix.Accounts.{AccountInfo, as_round_asset}
use tickersix.Constants.{
  round_asset_seed, max_eligible_assets, has_asset, add_asset, eq_bitmap, empty_bitmap,
}
use tickersix.State.{
  Bitmap, MarketRound, SettlementPolicy, MarketQualityPolicy, RoundAsset, eq_source,
  pyth_pro_verified_v1,
}

-- `try_deserialize(...).map_err(code)`.
abbrev pub deserialize_asset : AccountInfo → ErrorCode → Result RoundAsset
deserialize_asset info code = elim (as_round_asset info.data_of) [
  | some a ↦ ok a
  | none ↦ err (custom code)
]

-- The address that the round's asset `asset_id` must have.
unfoldable pub round_asset_address : Runtime → Key → ℕ → Key
unfolding key_bytes le_bytes
round_asset_address rt round_key asset_id =
    rt.find_program_address (round_asset_seed ∷ key_bytes round_key ∷ le_bytes 2 asset_id ∷ [])

-- What the loop has seen. `push` puts a value at the end of a vector; only membership is asked for.
pub record Seen : Type 0 where
  pub asset_ids : Bitmap
  pub mints : List Key
  pub representations : List ℕ

module _ (rt : Runtime) (round_key : Key) (round : MarketRound) (price_policy : SettlementPolicy)
    (market_quality_policy : MarketQualityPolicy) where
  -- The body of the loop, for one account.
  unfoldable pub validate_round_asset : AccountInfo → Seen → Result Seen
  unfolding has_asset add_asset contains round_asset_address
  validate_round_asset info seen = do
    require_keys_eq info.owner rt.program_id ErrorCode.wrong_market_round
    asset ← deserialize_asset info ErrorCode.wrong_market_round
    require_keys_eq asset.market_round round_key ErrorCode.wrong_market_round
    require (ltb asset.asset_id max_eligible_assets) ErrorCode.invalid_asset_id
    require_keys_eq info.key (round_asset_address rt round_key asset.asset_id)
        ErrorCode.wrong_market_round
    require (has_asset round.eligible_asset_bitmap asset.asset_id) ErrorCode.invalid_round_state
    require
        (asset.price_policy_version == price_policy.version
          && eq_source asset.price_source_kind price_policy.source_kind
          && asset.settlement_policy_version == round.settlement_policy_version
          && eq_source asset.settlement_source_kind round.settlement_source_kind
          && asset.market_quality_policy_version == market_quality_policy.version)
        ErrorCode.invalid_policy_version
    require (not (asset.token_program == default_key)) ErrorCode.registry_entry_mismatch
    require
        (if eq_source asset.settlement_source_kind pyth_pro_verified_v1
          then not (asset.pyth_feed_id == 0)
          else true)
        ErrorCode.registry_entry_mismatch
    require (not (has_asset seen.asset_ids asset.asset_id)) ErrorCode.duplicate_round_asset
    require (not (contains seen.mints asset.scoring_mint)) ErrorCode.duplicate_round_asset
    require (not (contains seen.representations asset.representation_id))
        ErrorCode.duplicate_round_asset
    ok (record {
      asset_ids = add_asset seen.asset_ids asset.asset_id;
      mints = asset.scoring_mint ∷ seen.mints;
      representations = asset.representation_id ∷ seen.representations;
    })

  unfoldable pub validate_loop : List AccountInfo → Seen → Result Seen
  unfolding validate_round_asset
  validate_loop [] seen = ok seen
  validate_loop (info ∷ infos) seen = validate_round_asset info seen >>= validate_loop infos

  unfoldable pub validate_round_assets : List AccountInfo → ℕ → Result (Unit {0})
  unfolding validate_loop eq_bitmap
  validate_round_assets accounts expected_count = do
    require (length accounts == expected_count) ErrorCode.invalid_round_state
    seen ←
        validate_loop accounts
          (record { asset_ids = empty_bitmap; mints = []; representations = [] })
    require (eq_bitmap seen.asset_ids round.eligible_asset_bitmap) ErrorCode.invalid_round_state
