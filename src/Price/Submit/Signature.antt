-- ===== src/Price/Submit/Signature.antt =====
-- programs/tickersix/src/instructions/price.rs: `canonical_attestation_message`,
-- `verify_ed25519_instruction` and `read_u16`.
use tickersix.Base.{
  ℕ, zero, suc, ◌+◌, ◌*◌, Bool, true, false, ◌&&◌, ◌||◌, ◌==◌, leb, List, [], ◌∷◌, ◌++◌, length,
  get_or,
}
use tickersix.Base.Int.{ℤ}
use tickersix.Errors.{Result, ErrorCode, require}
use tickersix.Runtime.{Key, Bytes, Runtime, le_bytes, key_bytes, i64_bytes}
use tickersix.Constants.{codes}
use tickersix.State.{RoundAsset, PricePhase, phase_code}

-- What an attestor reports.
pub record Report : Type 0 where
  pub median_price_q9 : ℤ
  pub accepted_observation_count : ℕ  -- u16
  pub unique_source_block_count : ℕ  -- u16
  pub first_source_block_id : ℕ  -- u64
  pub last_source_block_id : ℕ  -- u64
  pub evidence_root : Key
  pub report_created_at : ℤ

-- `ATTESTATION_DOMAIN`.
abbrev pub attestation_domain : Bytes
attestation_domain = codes "TICKERSIX_PRICE_ATTESTATION_V1" ++ 0 ∷ []

unfoldable pub canonical_attestation_message :
    Runtime → Key → Key → RoundAsset → ℕ → PricePhase → Report → ℤ → ℤ → Bytes
unfolding key_bytes le_bytes i64_bytes
canonical_attestation_message rt round_key asset_key asset attestor_set_version phase report
      window_start window_end =
    attestation_domain
    ++ (key_bytes rt.program_id
        ++ (key_bytes round_key
            ++ (key_bytes asset_key
                ++ (le_bytes 2 asset.asset_id
                    ++ ((phase_code phase ∷ [])
                        ++ (key_bytes asset.scoring_mint
                            ++ (le_bytes 2 asset.price_policy_version
                                ++ (le_bytes 2 asset.market_quality_policy_version
                                    ++ (le_bytes 2 attestor_set_version
                                        ++ (i64_bytes report.median_price_q9
                                            ++ (le_bytes 2 report.accepted_observation_count
                                                ++ (le_bytes 2 report.unique_source_block_count
                                                    ++ (le_bytes 8 report.first_source_block_id
                                                        ++ (le_bytes 8 report.last_source_block_id
                                                            ++ (key_bytes report.evidence_root
                                                            ++ (i64_bytes window_start
                                                            ++ (i64_bytes window_end
                                                            ++ i64_bytes
                                                            report.report_created_at)))))))))))))))))

-- An instruction of the transaction.
pub record Instruction : Type 0 where
  pub is_ed25519 : Bool
  pub payload : Bytes

-- `data[from..from + size]`.
unfoldable pub slice : Bytes → ℕ → ℕ → Bytes
slice bytes from zero = []
slice [] from (suc size) = []
slice (b ∷ bytes) zero (suc size) = b ∷ slice bytes zero size
slice (b ∷ bytes) (suc from) (suc size) = slice bytes from (suc size)

unfoldable pub eq_bytes : Bytes → Bytes → Bool
eq_bytes [] [] = true
eq_bytes (x ∷ xs) (y ∷ ys) = x == y && eq_bytes xs ys
eq_bytes _ _ = false

unfoldable pub read_u16 : Bytes → ℕ → ℕ
read_u16 bytes offset = get_or bytes offset 0 + 256 * get_or bytes (offset + 1) 0

-- Is the signature record at `offset` one of this key over this message, with all of its parts in
-- the same instruction?
unfoldable pub signature_matches : Bytes → Key → Bytes → ℕ → Bool
unfolding read_u16 slice eq_bytes key_bytes
signature_matches bytes key message offset =
    let signature_end = read_u16 bytes offset + 64 in
    let key_offset = read_u16 bytes (offset + 4) in
    let message_offset = read_u16 bytes (offset + 8) in
    let message_size = read_u16 bytes (offset + 10) in
    leb (offset + 14) (length bytes)
    && (read_u16 bytes (offset + 2) == 65535
        && read_u16 bytes (offset + 6) == 65535
        && read_u16 bytes (offset + 12) == 65535)
    && (leb signature_end (length bytes)
        && leb (key_offset + 32) (length bytes)
        && leb (message_offset + message_size) (length bytes))
    && eq_bytes (slice bytes key_offset 32) (key_bytes key)
    && eq_bytes (slice bytes message_offset message_size) message

-- The loop over the signatures of an instruction, `left` of them from number `number` on.
unfoldable pub some_signature : Bytes → Key → Bytes → ℕ → ℕ → Bool
unfolding signature_matches
some_signature bytes key message zero number = false
some_signature bytes key message (suc left) number =
    signature_matches bytes key message (2 + number * 14)
    || some_signature bytes key message left (suc number)

-- The loop over the earlier instructions.
unfoldable pub some_instruction : List Instruction → Key → Bytes → Bool
unfolding some_signature
some_instruction [] key message = false
some_instruction (i ∷ is) key message =
    (i.is_ed25519
      && leb 16 (length i.payload)
      && some_signature i.payload key message (get_or i.payload 0 0) 0)
    || some_instruction is key message

unfoldable pub verify_ed25519_instruction : List Instruction → Key → Bytes → Result (Unit {0})
unfolding some_instruction
verify_ed25519_instruction instructions key message =
    require (some_instruction instructions key message) ErrorCode.invalid_attestation_instruction
