-- ===== src/Constants.antt =====
-- programs/tickersix/src/constants.rs: sizes, versions, and `asset_bit` with the words of a bitmap.
-- A seed is the list of its ASCII codes.
pub mod Bits
use tickersix.Base.{
  ℕ, zero, suc, ◌/◌, ◌%◌, Bool, List, [], ◌∷◌, ◌==◌, if◌then◌else◌, test_bit, set_bit,
}
use tickersix.Runtime.{Bytes}
use tickersix.State.{Bitmap}
use Prim.Native.String.{String}
use Prim.Native.Char.{code}

-- The bytes of an ASCII literal.
abbrev pub codes : String → Bytes
codes String.[] = []
codes (String.◌∷◌ c s) = code c ∷ codes s

abbrev pub config_seed : Bytes
config_seed = codes "config"

abbrev pub settlement_policy_seed : Bytes
settlement_policy_seed = codes "settlement-policy"

abbrev pub jupiter_source_config_seed : Bytes
jupiter_source_config_seed = codes "jupiter-source-config"

abbrev pub quality_policy_seed : Bytes
quality_policy_seed = codes "quality-policy"

abbrev pub attestor_set_seed : Bytes
attestor_set_seed = codes "attestor-set"

abbrev pub asset_seed : Bytes
asset_seed = codes "asset"

abbrev pub market_round_seed : Bytes
market_round_seed = codes "market-round"

abbrev pub round_asset_seed : Bytes
round_asset_seed = codes "round-asset"

abbrev pub price_attestation_seed : Bytes
price_attestation_seed = codes "price-attestation"

abbrev pub battle_seed : Bytes
battle_seed = codes "battle"

abbrev pub rated_slot_seed : Bytes
rated_slot_seed = codes "rated-slot"

abbrev pub league_seed : Bytes
league_seed = codes "league"

abbrev pub league_member_seed : Bytes
league_member_seed = codes "league-member"

abbrev pub protocol_version : ℕ
protocol_version = 2

abbrev pub lineup_size : ℕ
lineup_size = 6

abbrev pub max_assets_per_registry : ℕ
max_assets_per_registry = 256

abbrev pub max_eligible_assets : ℕ
max_eligible_assets = 256

abbrev pub attestor_count : ℕ
attestor_count = 3

abbrev pub attestor_quorum : ℕ
attestor_quorum = 2

abbrev pub return_scale_q9 : ℕ
return_scale_q9 = 1_000_000_000

abbrev pub rating_floor : ℕ
rating_floor = 100

abbrev pub empty_bitmap : Bitmap
empty_bitmap = record { word_0 = 0; word_1 = 0; word_2 = 0; word_3 = 0 }

-- `bitmap[word]`; the callers check that an identifier is below 256, so `word` is at most 3.
word_at : Bitmap → ℕ → ℕ
word_at b w =
    if w == 0 then b.word_0 else if w == 1 then b.word_1 else if w == 2 then b.word_2 else b.word_3

-- `bitmap[word] & bit != 0` for `(word, bit) = asset_bit(asset_id)`.
unfoldable pub has_asset : Bitmap → ℕ → Bool
unfolding word_at
has_asset b asset_id = test_bit (word_at b (asset_id / 64)) (asset_id % 64)

-- `bitmap[word] |= bit`.
unfoldable pub add_asset : Bitmap → ℕ → Bitmap
add_asset b asset_id =
    let bit = asset_id % 64 in
    if asset_id / 64 == 0
    then record b { word_0 = set_bit b.word_0 bit }
    else if asset_id / 64 == 1
    then record b { word_1 = set_bit b.word_1 bit }
    else if asset_id / 64 == 2
    then record b { word_2 = set_bit b.word_2 bit }
    else record b { word_3 = set_bit b.word_3 bit }

-- `==` of two `[u64; 4]`.
unfoldable pub eq_bitmap : Bitmap → Bitmap → Bool
eq_bitmap a b =
    if a.word_0 == b.word_0
    then if a.word_1 == b.word_1
      then if a.word_2 == b.word_2 then a.word_3 == b.word_3 else Bool.false
      else Bool.false
    else Bool.false
