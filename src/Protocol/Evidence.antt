-- ===== src/Protocol/Evidence.antt =====
-- crates/protocol/src/lib.rs: the byte strings that are hashed or signed.
pub mod Order
pub mod Signed
use tickersix.Base.{
  ℕ, ◌+◌, ◌%◌, ◌^◌, Bool, true, false, ◌&&◌, ◌||◌, ◌==◌, ltb, List, [], ◌∷◌, ◌++◌, length, sort_by,
}
use tickersix.Base.Int.{ℤ, ltb_ℤ, eqb_ℤ}
use tickersix.Constants.{codes}
use tickersix.Math.{sort_unstable}
use tickersix.Runtime.{Key, Bytes, key_bytes, le_bytes, i64_bytes}
use tickersix.Protocol.Swiss.{PairingPlayer}

unfoldable pub attestation_message :
    Key → Key → Key → ℕ → ℕ → Key → ℕ → ℕ → ℕ → ℤ → ℕ → ℕ → ℕ → ℕ → Key → ℤ → ℤ → ℤ → Bytes
unfolding key_bytes le_bytes i64_bytes
attestation_message program_id market_round round_asset asset_id phase scoring_mint
      price_policy_version market_quality_policy_version attestor_set_version median_price_q9
      accepted_observation_count unique_source_block_count first_source_block_id
      last_source_block_id evidence_root observation_window_start observation_window_end
      report_created_at =
    let counts =
      le_bytes 2 accepted_observation_count
      ++ (le_bytes 2 unique_source_block_count
          ++ (le_bytes 8 first_source_block_id
              ++ (le_bytes 8 last_source_block_id
                  ++ (key_bytes evidence_root
                      ++ (i64_bytes observation_window_start
                          ++ (i64_bytes observation_window_end
                              ++ i64_bytes report_created_at)))))) in
    let policies =
      le_bytes 2 price_policy_version
      ++ (le_bytes 2 market_quality_policy_version
          ++ (le_bytes 2 attestor_set_version ++ (i64_bytes median_price_q9 ++ counts))) in
    (codes "TICKERSIX_PRICE_ATTESTATION_V1" ++ 0 ∷ [])
    ++ (key_bytes program_id
        ++ (key_bytes market_round
            ++ (key_bytes round_asset
                ++ (le_bytes 2 asset_id
                    ++ ((phase ∷ []) ++ (key_bytes scoring_mint ++ policies))))))

pub record PriceSample : Type 0 where
  pub market_round : Key
  pub asset_id : ℕ
  pub phase : ℕ
  pub scoring_mint : Key
  pub source_block_id : ℕ
  pub observed_at_unix_ms : ℤ
  pub price_q9 : ℤ

-- The order of the keys `(asset_id, source_block_id, observed_at_unix_ms, price_q9)`.
unfoldable pub sample_lt : PriceSample → PriceSample → Bool
unfolding ltb_ℤ eqb_ℤ
sample_lt a b =
    ltb a.asset_id b.asset_id
    || (a.asset_id == b.asset_id
        && (ltb a.source_block_id b.source_block_id
            || (a.source_block_id == b.source_block_id
                && (ltb_ℤ a.observed_at_unix_ms b.observed_at_unix_ms
                    || (eqb_ℤ a.observed_at_unix_ms b.observed_at_unix_ms
                        && ltb_ℤ a.price_q9 b.price_q9)))))

-- `sort_unstable_by_key(|player| player.wallet)`.
unfoldable pub wallet_lt : PairingPlayer → PairingPlayer → Bool
wallet_lt a b = ltb a.wallet b.wallet

unfoldable pub keys_bytes : List Key → Bytes
unfolding key_bytes
keys_bytes [] = []
keys_bytes (k ∷ ks) = key_bytes k ++ keys_bytes ks

-- A player in the snapshot of the standings.
unfoldable pub standing_bytes : PairingPlayer → Bytes
unfolding key_bytes le_bytes keys_bytes sort_unstable
standing_bytes p =
    key_bytes p.wallet
    ++ (le_bytes 4 p.league_points
        ++ (le_bytes 2 p.bye_count
            ++ (le_bytes 8 (length (sort_unstable p.prior_opponents))
                ++ keys_bytes (sort_unstable p.prior_opponents))))

unfoldable pub standings_bytes : List PairingPlayer → Bytes
unfolding standing_bytes
standings_bytes [] = []
standings_bytes (p ∷ ps) = standing_bytes p ++ standings_bytes ps

-- The hash is a parameter.
module _ (sha256 : Bytes → Key) where
  unfoldable pub league_pairing_seed : Key → ℕ → Key → Key
  unfolding key_bytes le_bytes
  league_pairing_seed league_pubkey league_round_no entropy = sha256 (
      codes "TICKERSIX_PAIRING_V1"
      ++ (key_bytes league_pubkey ++ (le_bytes 2 league_round_no ++ key_bytes entropy)))

  unfoldable pub league_standings_input_hash : List PairingPlayer → Key
  unfolding standings_bytes sort_by wallet_lt
  league_standings_input_hash players = sha256 (
      (codes "TICKERSIX_STANDINGS_INPUT_V1" ++ 0 ∷ [])
      ++ standings_bytes (sort_by wallet_lt players))

  unfoldable pub price_sample_leaf : PriceSample → Key
  unfolding key_bytes le_bytes i64_bytes
  price_sample_leaf sample = sha256 (
      (codes "TICKERSIX_PRICE_SAMPLE_V1" ++ 0 ∷ [])
      ++ (key_bytes sample.market_round
          ++ (le_bytes 2 sample.asset_id
              ++ ((sample.phase ∷ [])
                  ++ (key_bytes sample.scoring_mint
                      ++ (le_bytes 8 sample.source_block_id
                          ++ (i64_bytes sample.observed_at_unix_ms
                              ++ i64_bytes sample.price_q9)))))))

  unfoldable pub leaves : List PriceSample → Bytes
  unfolding price_sample_leaf key_bytes
  leaves [] = []
  leaves (s ∷ ss) = key_bytes (price_sample_leaf s) ++ leaves ss

  -- The count is cast to a `u32`.
  unfoldable pub evidence_root : List PriceSample → Key
  unfolding leaves sort_by sample_lt le_bytes
  evidence_root samples =
      let ordered = sort_by sample_lt samples in
      sha256 (
        (codes "TICKERSIX_PRICE_EVIDENCE_LIST_V1" ++ 0 ∷ [])
        ++ (le_bytes 4 (length ordered % 2 ^ 32) ++ leaves ordered))
