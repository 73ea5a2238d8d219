-- ===== src/Price/Quorum.antt =====
-- programs/tickersix/src/instructions/price.rs: `choose_compatible_quorum`. A subset of the reports
-- is the list of those that the mask selects, in the order of the reports.
pub mod Best
pub mod Sorts
pub mod Bounds
pub mod Members
use tickersix.Base.{
  ℕ, zero, suc, ◌+◌, ◌*◌, ◌/◌, ◌%◌, Bool, true, false, not, ◌&&◌, ◌||◌, ◌==◌, ltb, leb, List, [],
  ◌∷◌, ◌++◌, Option, some, none, if◌then◌else◌, length, map, get_or, test_bit,
}
use tickersix.Base.Int.{ℤ, pos, negsuc, pos_part, ◌+ℤ◌, ◌-ℤ◌, ◌*ℤ◌, ◌/ℤ◌, leb_ℤ, ltb_ℤ, fits_i64}
use tickersix.Errors.{Result, ok, err, custom, ErrorCode, require, ◌>>◌, ◌>>=◌}
use tickersix.Runtime.{Key}
use tickersix.Constants.{attestor_quorum}
use tickersix.Math.{checked_i128, try_i64}

pub record AttestationSummary : Type 0 where
  pub attestor : Key
  pub price_q9 : ℤ
  pub evidence_root : Key

pub record QuorumResult : Type 0 where
  pub selected : List AttestationSummary
  pub finalized_price_q9 : ℤ
  pub spread_bps : ℕ  -- u64

-- The reports whose bit the mask has.
unfoldable pub select_mask : ℕ → List AttestationSummary → List AttestationSummary
select_mask mask [] = []
select_mask mask (r ∷ rs) =
    let rest = select_mask (mask / 2) rs in if mask % 2 == 1 then r ∷ rest else rest

-- `iter().min()` and `iter().max()`, of the prices of a list that is not empty.
unfoldable pub minimum_from : ℤ → List AttestationSummary → ℤ
unfolding ltb_ℤ
minimum_from m [] = m
minimum_from m (r ∷ rs) = minimum_from (if ltb_ℤ r.price_q9 m then r.price_q9 else m) rs

unfoldable pub maximum_from : ℤ → List AttestationSummary → ℤ
unfolding ltb_ℤ
maximum_from m [] = m
maximum_from m (r ∷ rs) = maximum_from (if ltb_ℤ m r.price_q9 then r.price_q9 else m) rs

-- Sorting prices.
unfoldable pub insert_price : ℤ → List ℤ → List ℤ
unfolding leb_ℤ
insert_price a [] = a ∷ []
insert_price a (x ∷ xs) = if leb_ℤ a x then a ∷ x ∷ xs else x ∷ insert_price a xs

unfoldable pub sort_prices : List ℤ → List ℤ
unfolding insert_price
sort_prices [] = []
sort_prices (x ∷ xs) = insert_price x (sort_prices xs)

-- `sort_unstable_by_key(|report| report.attestor)`; the attestors of the reports are different.
unfoldable pub insert_by_attestor :
    AttestationSummary → List AttestationSummary → List AttestationSummary
insert_by_attestor a [] = a ∷ []
insert_by_attestor a (x ∷ xs) =
    if leb a.attestor x.attestor then a ∷ x ∷ xs else x ∷ insert_by_attestor a xs

unfoldable pub sort_by_attestor : List AttestationSummary → List AttestationSummary
unfolding insert_by_attestor
sort_by_attestor [] = []
sort_by_attestor (x ∷ xs) = insert_by_attestor x (sort_by_attestor xs)

-- `lt` of the sequences of attestors, which is lexicographic.
unfoldable pub attestors_lt : List AttestationSummary → List AttestationSummary → Bool
attestors_lt _ [] = false
attestors_lt [] (y ∷ ys) = true
attestors_lt (x ∷ xs) (y ∷ ys) =
    ltb x.attestor y.attestor || (x.attestor == y.attestor && attestors_lt xs ys)

-- The price of a subset: the midpoint of two reports, else the middle of the sorted prices.
unfoldable pub subset_price : List AttestationSummary → ℤ → Result ℤ
unfolding try_i64 sort_prices
subset_price selected midpoint =
    if length selected == 2
    then try_i64 midpoint
    else ok (get_or (sort_prices (map (λ r. r.price_q9) selected)) (length selected / 2) (pos 0))

-- `u64::try_from` of a spread.
unfoldable pub try_u64 : ℤ → Result ℕ
try_u64 (pos n) = if leb n 18446744073709551615 then ok n else err (custom ErrorCode.math_overflow)
try_u64 (negsuc n) = err (custom ErrorCode.math_overflow)

-- The body of the loop for one subset that is not empty: `none` where the loop continues. The
-- minimum is positive, so the midpoint is, and the subtraction stays within `i64`.
unfoldable pub subset_candidate : ℕ → List AttestationSummary → Result (Option QuorumResult)
unfolding minimum_from maximum_from ltb_ℤ ◌+ℤ◌ ◌-ℤ◌ ◌*ℤ◌ ◌/ℤ◌ checked_i128 try_u64
subset_candidate max_spread_bps [] = ok none
subset_candidate max_spread_bps (first ∷ others) =
    if ltb (length (first ∷ others)) attestor_quorum then ok none else do
      let minimum = minimum_from first.price_q9 others
      let maximum = maximum_from first.price_q9 others
      require (ltb_ℤ (pos 0) minimum) ErrorCode.invalid_attestation_evidence
      let midpoint = (minimum +ℤ maximum) /ℤ 2
      scaled ← checked_i128 ((maximum -ℤ minimum) *ℤ 10000)
      spread_bps ← try_u64 (scaled /ℤ pos_part midpoint)
      if ltb max_spread_bps spread_bps then ok none else do
        price ← subset_price (first ∷ others) midpoint
        ok (
            some (record {
              selected = sort_by_attestor (first ∷ others);
              finalized_price_q9 = price;
              spread_bps = spread_bps;
            }))

-- The test by which a candidate replaces the best so far.
unfoldable pub is_better : QuorumResult → QuorumResult → Bool
unfolding attestors_lt
is_better candidate current =
    ltb (length current.selected) (length candidate.selected)
    || (length candidate.selected == length current.selected
        && (ltb candidate.spread_bps current.spread_bps
            || (candidate.spread_bps == current.spread_bps
                && attestors_lt candidate.selected current.selected)))

abbrev pub keep_better : Option QuorumResult → Option QuorumResult → Option QuorumResult
keep_better none best = best
keep_better (some candidate) none = some candidate
keep_better (some candidate) (some current) =
    if is_better candidate current then some candidate else some current

-- The masks that are left, from `mask` on.
unfoldable pub quorum_loop :
    ℕ → ℕ → List AttestationSummary → ℕ → Option QuorumResult → Result (Option QuorumResult)
unfolding select_mask subset_candidate is_better
quorum_loop zero mask reports max_spread_bps best = ok best
quorum_loop (suc left) mask reports max_spread_bps best =
    subset_candidate max_spread_bps (select_mask mask reports) >>= λ candidate.
    quorum_loop left (suc mask) reports max_spread_bps (keep_better candidate best)

-- `1 << reports.len()`.
abbrev pub combinations : List AttestationSummary → ℕ
combinations [] = 1
combinations (r ∷ rs) = 2 * combinations rs

abbrev pub quorum_or_error : Option QuorumResult → Result QuorumResult
quorum_or_error (some q) = ok q
quorum_or_error none = err (custom ErrorCode.no_compatible_quorum)

unfoldable pub choose_compatible_quorum : List AttestationSummary → ℕ → Result QuorumResult
unfolding quorum_loop
choose_compatible_quorum reports max_spread_bps =
    quorum_loop (combinations reports) 0 reports max_spread_bps none >>= quorum_or_error
