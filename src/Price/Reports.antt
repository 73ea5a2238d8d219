-- ===== src/Price/Reports.antt =====
-- programs/tickersix/src/instructions/price.rs: reading the report accounts of a phase.
use tickersix.Base.{
  Bool, false, not, ◌&&◌, ◌||◌, ◌==◌, leb, List, [], ◌∷◌, ◌++◌, some, none, if◌then◌else◌, contains,
  length, map,
}
use tickersix.Base.Int.{pos, ltb_ℤ}
use tickersix.Errors.{Result, ok, err, custom, ErrorCode, require, ◌>>◌, ◌>>=◌}
use tickersix.Runtime.{Key, Bytes, Runtime, key_bytes, require_keys_eq, i64_bytes}
use tickersix.Accounts.{AccountInfo, as_attestation, data_is_empty}
use tickersix.Constants.{price_attestation_seed, codes}
use tickersix.State.{
  AttestorSet, JupiterSourceConfig, PriceAttestation, PricePhase, phase_code, eq_phase,
}
use tickersix.Price.Quorum.{AttestationSummary}

-- The address of the report of an attestor on a phase of an asset.
unfoldable pub report_address : Runtime → Key → PricePhase → Key → Key
unfolding key_bytes
report_address rt round_asset phase attestor = rt.find_program_address (
    price_attestation_seed
    ∷ key_bytes round_asset
    ∷ (phase_code phase ∷ [])
    ∷ key_bytes attestor
    ∷ [])

-- `system_program::ID`.
abbrev pub system_program : Key
system_program = 0

-- Is the key the address of the report of one of the attestors?
unfoldable pub is_report_address : Runtime → Key → PricePhase → List Key → Key → Bool
unfolding report_address
is_report_address rt round_asset phase [] key = false
is_report_address rt round_asset phase (attestor ∷ attestors) key =
    key == report_address rt round_asset phase attestor
    || is_report_address rt round_asset phase attestors key

abbrev pub deserialize_report : AccountInfo → Result PriceAttestation
deserialize_report info = elim (as_attestation info.data_of) [
  | some report ↦ ok report
  | none ↦ err (custom ErrorCode.invalid_attestation)
]

abbrev pub attestors_of : List AttestationSummary → List Key
attestors_of = map λ r. r.attestor

module _ (rt : Runtime) (round_asset : Key) (phase : PricePhase) (set : AttestorSet)
    (source : JupiterSourceConfig) where
  -- A report account that exists: the summary of the report.
  unfoldable pub read_report : AccountInfo → List AttestationSummary → Result AttestationSummary
  unfolding report_address contains
  read_report info reports = do
    require_keys_eq info.owner rt.program_id ErrorCode.invalid_attestation
    report ← deserialize_report info
    require_keys_eq report.round_asset round_asset ErrorCode.wrong_market_round
    require (eq_phase report.phase phase) ErrorCode.invalid_attestation
    require (ltb_ℤ (pos 0) report.median_price_q9) ErrorCode.invalid_attestation_evidence
    require
        (leb source.min_accepted_observations report.accepted_observation_count
          && leb source.min_unique_source_blocks report.unique_source_block_count
          && leb report.unique_source_block_count report.accepted_observation_count
          && leb report.first_source_block_id report.last_source_block_id)
        ErrorCode.invalid_attestation_evidence
    require (contains set.attestors report.attestor) ErrorCode.unregistered_attestor
    require_keys_eq info.key (report_address rt round_asset phase report.attestor)
        ErrorCode.invalid_attestation
    require (not (contains (attestors_of reports) report.attestor)) ErrorCode.invalid_attestation
    ok (record {
      attestor = report.attestor;
      price_q9 = report.median_price_q9;
      evidence_root = report.evidence_root;
    })

  -- The loop: `seen` holds the keys of the accounts before this one. An account of the system
  -- program with no data is a report that was never submitted.
  unfoldable pub read_loop :
      List AccountInfo → List Key → List AttestationSummary → Result (List AttestationSummary)
  unfolding read_report is_report_address contains
  read_loop [] seen reports = ok reports
  read_loop (info ∷ infos) seen reports = do
    require (not (contains seen info.key)) ErrorCode.invalid_attestation
    let missing = read_loop infos (info.key ∷ seen) reports
    let present = read_report info reports >>= λ summary.
        read_loop infos (info.key ∷ seen) (reports ++ summary ∷ [])
    let is_missing = info.owner == system_program && data_is_empty info.data_of
    let expected = is_report_address rt round_asset phase set.attestors info.key
    if is_missing then require expected ErrorCode.invalid_attestation >> missing else present

  unfoldable pub read_attestation_summaries : List AccountInfo → Result (List AttestationSummary)
  unfolding read_loop
  read_attestation_summaries accounts = do
    require (leb (length accounts) 3) ErrorCode.invalid_attestation
    read_loop accounts [] []

-- Is there an account with this key?
unfoldable pub has_account : List AccountInfo → Key → Bool
has_account [] key = false
has_account (info ∷ infos) key = info.key == key || has_account infos key

unfoldable pub require_all_report_accounts_present :
    Runtime → List AccountInfo → Key → PricePhase → List Key → Result (Unit {0})
unfolding has_account report_address
require_all_report_accounts_present rt accounts round_asset phase [] = ok tt
require_all_report_accounts_present rt accounts round_asset phase (attestor ∷ attestors) = do
  require (has_account accounts (report_address rt round_asset phase attestor))
      ErrorCode.invalid_attestation
  require_all_report_accounts_present rt accounts round_asset phase attestors

-- The bytes of the selected reports.
unfoldable pub selected_bytes : List AttestationSummary → Bytes
unfolding key_bytes i64_bytes
selected_bytes [] = []
selected_bytes (r ∷ rs) =
    key_bytes r.attestor
    ++ (i64_bytes r.price_q9 ++ (key_bytes r.evidence_root ++ selected_bytes rs))

unfoldable pub selected_evidence_commitment :
    Runtime → Key → PricePhase → List AttestationSummary → Key
unfolding selected_bytes
selected_evidence_commitment rt round_asset phase selected = rt.sha256 (
    codes "TICKERSIX_SELECTED_ATTESTATIONS_V1"
    ++ (0 ∷ [])
    ++ (key_bytes round_asset ++ (phase_code phase ∷ selected_bytes selected)))
