-- ===== src/Price/Supplied.antt =====
-- programs/tickersix/src/instructions/price.rs: what `read_attestation_summaries` takes from the
-- supplied accounts.
use tickersix.Base.{
  ◌≤◌, ◌≡◌, refl, sym, true, false, not, ◌&&◌, ◌==◌, List, [], ◌∷◌, ◌++◌, some, none, All, All-map,
  All-Some, Some, Some-map, contains, if◌then◌else◌, suc, inl, inr, Bool-cases, arith, by_test, leb,
  length,
}
use mathlib.Core.Path.{subst}
use tickersix.Errors.{ok, err, custom, >>=-eq-ok, >>-eq-ok, ErrorCode, require}
use tickersix.Runtime.{Key, Runtime, require_keys_eq}
use tickersix.Accounts.{AccountInfo, AccountData, attestation_data, as_attestation, data_is_empty}
use tickersix.State.{
  AttestorSet, JupiterSourceConfig, PriceAttestation, PricePhase, start, end, eq_phase,
}
use tickersix.Price.Quorum.{AttestationSummary}
use tickersix.Price.Quorum.Members.{count}
use tickersix.Price.Reports.{
  report_address, deserialize_report, read_report, read_loop, read_attestation_summaries,
  attestors_of, system_program, is_report_address,
}

module _ (rt : Runtime) (round_asset : Key) (phase : PricePhase) (set : AttestorSet) where
  -- The account holds the summarised report: the program owns it, it is at the address of the report
  -- of a registered attestor on this phase of this asset, and its data says so.
  pub record IsReport (info : AccountInfo) (r : AttestationSummary) : Type 0 where
    pub owned : info.owner ≡ rt.program_id
    pub address : info.key ≡ report_address rt round_asset phase r.attestor
    pub registered : contains set.attestors r.attestor ≡ true
    pub report : PriceAttestation
    pub stored : as_attestation info.data_of ≡ some report
    pub asset : report.round_asset ≡ round_asset
    pub same_phase : report.phase ≡ phase
    pub attestor : report.attestor ≡ r.attestor
    pub price : report.median_price_q9 ≡ r.price_q9
    pub evidence : report.evidence_root ≡ r.evidence_root

  -- One of the accounts holds the report.
  abbrev pub IsSupplied : List AccountInfo → AttestationSummary → Type 0
  IsSupplied infos r = Some (λ info. IsReport info r) infos

-- No attestor has two of the reports.
abbrev pub AreDistinct : List AttestationSummary → Type 0
AreDistinct reports = (key : Key) → count key reports ≤ 1

eq_phase→≡ : (p q : PricePhase) → eq_phase p q ≡ true → p ≡ q
eq_phase→≡ start start h = refl
eq_phase→≡ start end h = cc
eq_phase→≡ end start h = cc
eq_phase→≡ end end h = refl

contains-count :
    (key : Key) (rs : List AttestationSummary)
    → contains (attestors_of rs) key ≡ false
    → count key rs ≡ 0
unfolding contains count
contains-count key [] h = refl
contains-count key (r ∷ rs) h = ground (arith, contains-count key rs)

count-append :
    (key : Key) (rs : List AttestationSummary) (r : AttestationSummary)
    → count key (rs ++ r ∷ []) ≡ (if r.attestor == key then suc (count key rs) else count key rs)
unfolding count
count-append key [] r = ground arith
count-append key (x ∷ xs) r = ground (arith, count-append key xs r)

AreDistinct-append :
    (reports : List AttestationSummary) (r : AttestationSummary)
    → contains (attestors_of reports) r.attestor ≡ false
    → AreDistinct reports
    → AreDistinct (reports ++ r ∷ [])
AreDistinct-append reports r fresh d key =
    ground (arith, d key, count-append key reports r, contains-count r.attestor reports fresh)

All-append :
    {A : Type 0} (P : A → Type 0) (xs : List A) (a : A) → All P xs → P a → All P (xs ++ a ∷ [])
All-append P [] a h p = (p, tt)
All-append P (x ∷ xs) a h p = (h.0, All-append P xs a h.1 p)

deserialized :
    (contents : AccountData) {report : PriceAttestation}
    → elim (as_attestation contents) [
      | some report ↦ ok report
      | none ↦ err (custom ErrorCode.invalid_attestation)
    ]
      ≡ ok report
    → as_attestation contents ≡ some report
deserialized (attestation_data a) h = ground arith
deserialized _ h = cc

module _ (rt : Runtime) (round_asset : Key) (phase : PricePhase) (set : AttestorSet)
    (source : JupiterSourceConfig) where
  read_report-IsReport :
      (info : AccountInfo) (reports : List AttestationSummary) {r : AttestationSummary}
      → read_report rt round_asset phase set source info reports ≡ ok r
      → IsReport rt round_asset phase set info r
        × (contains (attestors_of reports) r.attestor ≡ false)
  unfolding read_report
  read_report-IsReport info reports h =
      let (owner, h1) =
        >>-eq-ok (require_keys_eq info.owner rt.program_id ErrorCode.invalid_attestation) _ h in
      let (report, e, h2) = >>=-eq-ok (deserialize_report info) _ h1 in
      (
        record {
          owned = ground arith;
          address = ground arith;
          registered = ground arith;
          report = report;
          stored = deserialized info.data_of e;
          asset = ground arith;
          same_phase = eq_phase→≡ report.phase phase (by_test _ λ f. ground arith);
          attestor = ground arith;
          price = ground arith;
          evidence = ground arith;
        },
        ground arith,
      )

  module _ (P : AttestationSummary → Type 0) where
    -- Every summary of the loop is one that was there before, or has an account.
    read_loop-All :
        (infos : List AccountInfo) (seen : List Key) (reports : List AttestationSummary)
        {out : List AttestationSummary}
        → All
            (λ info. (r : AttestationSummary) → IsReport rt round_asset phase set info r → P r)
            infos
        → All P reports
        → AreDistinct reports
        → read_loop rt round_asset phase set source infos seen reports ≡ ok out
        → All P out × AreDistinct out
    unfolding read_loop
    read_loop-All [] seen reports f p d h =
        (let e : reports ≡ _ = ground arith in subst (λ xs. All P xs × AreDistinct xs) e (p, d))
    read_loop-All (info ∷ infos) seen reports f p d h =
        let (_, h1) =
          >>-eq-ok (require (not (contains seen info.key)) ErrorCode.invalid_attestation) _ h in
        elim (Bool-cases (info.owner == system_program && data_is_empty info.data_of)) [
          | inl e ↦
              let (_, h2) =
                >>-eq-ok
                  (require (is_report_address rt round_asset phase set.attestors info.key)
                    ErrorCode.invalid_attestation)
                  _ (rw e at h1) in
              read_loop-All infos (info.key ∷ seen) reports f.1 p d h2
          | inr e ↦
              let (r, k, h2) =
                >>=-eq-ok (read_report rt round_asset phase set source info reports) _
                  (rw e at h1) in
              let (is, fresh) = read_report-IsReport info reports k in
              read_loop-All infos (info.key ∷ seen) (reports ++ r ∷ []) f.1
                (All-append P reports r p (f.0 r is)) (AreDistinct-append reports r fresh d) h2
        ]

  -- Each summary is of a report that one of the supplied accounts holds, and no two are of the same
  -- attestor.
  pub read_attestation_summaries-IsSupplied :
      (accounts : List AccountInfo) {reports : List AttestationSummary}
      → read_attestation_summaries rt round_asset phase set source accounts ≡ ok reports
      → All (IsSupplied rt round_asset phase set accounts) reports × AreDistinct reports
  unfolding read_attestation_summaries count
  read_attestation_summaries-IsSupplied accounts h =
      let (_, h1) =
        >>-eq-ok (require (leb (length accounts) 3) ErrorCode.invalid_attestation) _ h in
      read_loop-All (IsSupplied rt round_asset phase set accounts) accounts [] []
        (All-map accounts
          (λ info member r is.
            Some-map accounts (λ i e. subst (λ x. IsReport rt round_asset phase set x r) (sym e) is)
              member)
          (All-Some accounts))
        tt (λ key. omega arith) h1
