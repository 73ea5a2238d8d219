-- ===== src/Admin/Registry.antt =====
-- programs/tickersix/src/instructions/admin.rs: registry entries and the freeze of a registry version.
use tickersix.Base.{
  ℕ, true, false, not, ◌||◌, ◌==◌, ltb, leb, List, [], ◌∷◌, ◌++◌, ◌*◌, if◌then◌else◌, replicate,
}
use tickersix.Errors.{Result, ok, ErrorCode, require, ◌>>◌}
use tickersix.Runtime.{Key, Runtime, default_key, le_bytes}
use tickersix.Constants.{asset_seed, max_assets_per_registry}
use tickersix.Admin.{require_admin}
use tickersix.State.{
  Config, AssetRegistryEntry, LifecycleState, x_stocks, other_approved,
  tokenized_public_equity_exposure, canonically_comparable,
}

-- The arguments of `create_registry_entry`; `symbol` has eight bytes.
pub record EntryArgs : Type 0 where
  pub registry_version : ℕ  -- u32
  pub asset_id : ℕ  -- u16
  pub symbol : List ℕ
  pub scoring_mint : Key
  pub issuer_kind : ℕ  -- u8
  pub pyth_feed_id : ℕ  -- u32

-- `[1; 32]`, as a number.
abbrev pub ones_hash : Key
ones_hash = 454086624460063511464984254936031011189294057512315937409637584344757371137

-- `token_program` is the key that the text "TokenzQd…" parses to; `[issuer_kind; 32]` is a multiple
-- of `[1; 32]`.
unfoldable pub handle_create_registry_entry :
    Runtime → Key → Config → Key → EntryArgs → Result (Config × AssetRegistryEntry)
unfolding require_admin le_bytes
handle_create_registry_entry rt token_program config payer args = do
  require_admin config payer
  require (ltb 0 args.registry_version) ErrorCode.invalid_registry_version
  require (leb config.current_registry_version args.registry_version)
      ErrorCode.invalid_registry_version
  require (not config.registry_frozen || ltb config.current_registry_version args.registry_version)
      ErrorCode.registry_not_frozen
  require (ltb args.asset_id max_assets_per_registry) ErrorCode.invalid_asset_id
  require (not (args.scoring_mint == default_key)) ErrorCode.invalid_scoring_mint
  ok (
    if ltb config.current_registry_version args.registry_version
        then record config {
          current_registry_version = args.registry_version;
          registry_frozen = false;
        }
        else config,
    record {
      registry_version = args.registry_version;
      asset_id = args.asset_id;
      symbol = args.symbol ++ replicate 8 0;
      scoring_mint = args.scoring_mint;
      issuer_kind = args.issuer_kind;
      descriptor = record {
        registry_version = args.registry_version;
        asset_id = args.asset_id;
        representation_id = args.asset_id;
        provider_kind = if args.issuer_kind == 1 then x_stocks else other_approved;
        structure_kind = tokenized_public_equity_exposure;
        scoring_mint = args.scoring_mint;
        token_program = token_program;
        decimals = 9;
        lifecycle_state = LifecycleState.active;
        multiplier_policy_version = 1;
        comparability_kind = canonically_comparable;
        terms_hash = ones_hash;
        provider_metadata_hash = args.issuer_kind * ones_hash;
        pyth_feed_id = args.pyth_feed_id;
        enabled = true;
      };
      active = true;
      bump =
          rt.find_bump
            (asset_seed ∷ le_bytes 4 args.registry_version ∷ le_bytes 2 args.asset_id ∷ []);
    },
  )

unfoldable pub handle_freeze_registry_version : Config → Key → Result Config
unfolding require_admin
handle_freeze_registry_version config admin = do
  require_admin config admin
  require (ltb 0 config.current_registry_version) ErrorCode.invalid_registry_version
  ok (record config { registry_frozen = true })
