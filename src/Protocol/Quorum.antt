-- ===== src/Protocol/Quorum.antt =====
-- crates/protocol/src/lib.rs: `select_compatible_quorum`. A subset of the reports is the list of those
-- that the mask selects, in the order of the reports.
pub mod Views
pub mod Steps
pub mod Agree
use tickersix.Base.{
  ℕ, zero, suc, ◌+◌, ◌*◌, ◌/◌, ◌%◌, Bool, true, false, not, ◌&&◌, ◌||◌, ◌==◌, ltb, leb, List, [],
  ◌∷◌, ◌++◌, Option, some, none, if◌then◌else◌, length, map,
}
use tickersix.Base.Int.{ℤ, pos, negsuc, pos_part, ◌+ℤ◌, ◌-ℤ◌, ◌*ℤ◌, ◌/ℤ◌, leb_ℤ, ltb_ℤ}
use tickersix.Math.{sort_unstable}
use tickersix.Outcome.{Outcome, ok, err, require, ok_or, ◌>>◌, ◌>>=◌}
use tickersix.Runtime.{Key}
use tickersix.Protocol.{MathError}
use tickersix.Protocol.Scores.{checked_i128, try_i64, median_q9}

pub record AttestorReport : Type 0 where
  pub attestor : Key
  pub median_price_q9 : ℤ

pub record QuorumSelection : Type 0 where
  pub selected_attestors : List Key
  pub finalized_price_q9 : ℤ
  pub spread_bps : ℕ

-- The reports whose bit the mask has.
unfoldable pub selected_by : ℕ → List AttestorReport → List AttestorReport
selected_by mask [] = []
selected_by mask (r ∷ rs) =
    let rest = selected_by (mask / 2) rs in if mask % 2 == 1 then r ∷ rest else rest

abbrev pub prices_of : List AttestorReport → List ℤ
prices_of = map λ r. r.median_price_q9

-- `iter().min()` and `iter().max()`.
unfoldable pub least_price : ℤ → List ℤ → ℤ
unfolding ltb_ℤ
least_price m [] = m
least_price m (p ∷ ps) = least_price (if ltb_ℤ p m then p else m) ps

unfoldable pub greatest_price : ℤ → List ℤ → ℤ
unfolding ltb_ℤ
greatest_price m [] = m
greatest_price m (p ∷ ps) = greatest_price (if ltb_ℤ m p then p else m) ps

-- `<` of sequences of keys, which is lexicographic.
unfoldable pub keys_lt : List Key → List Key → Bool
keys_lt _ [] = false
keys_lt [] (y ∷ ys) = true
keys_lt (x ∷ xs) (y ∷ ys) = ltb x y || (x == y && keys_lt xs ys)

unfoldable pub try_u64 : ℤ → Outcome MathError ℕ
try_u64 (pos n) = if leb n 18446744073709551615 then ok n else err MathError.overflow
try_u64 (negsuc n) = err MathError.overflow

-- The body of the loop for one subset: `none` where the loop continues. The prices are positive, so
-- the midpoint is.
unfoldable pub candidate : ℕ → List AttestorReport → Outcome MathError (Option QuorumSelection)
unfolding least_price greatest_price ◌+ℤ◌ ◌-ℤ◌ ◌*ℤ◌ ◌/ℤ◌ checked_i128 try_i64 try_u64 median_q9
    sort_unstable
candidate max_spread_bps [] = ok none
candidate max_spread_bps (first ∷ others) = if ltb (length (first ∷ others)) 2 then ok none else do
  let minimum = least_price first.median_price_q9 (prices_of others)
  let maximum = greatest_price first.median_price_q9 (prices_of others)
  let midpoint = (minimum +ℤ maximum) /ℤ 2
  difference ← checked_i128 (maximum -ℤ minimum)
  scaled ← checked_i128 (difference *ℤ 10000)
  spread ← checked_i128 (scaled /ℤ pos_part midpoint)
  spread_bps ← try_u64 spread
  if ltb max_spread_bps spread_bps then ok none else do
    price ←
        (if length (first ∷ others) == 2
          then try_i64 midpoint
          else median_q9 (prices_of (first ∷ others)))
    ok (
        some (record {
          selected_attestors = sort_unstable (map (λ r. r.attestor) (first ∷ others));
          finalized_price_q9 = price;
          spread_bps = spread_bps;
        }))

-- The test by which a candidate replaces the best so far.
unfoldable pub improves : QuorumSelection → QuorumSelection → Bool
unfolding keys_lt
improves candidate current =
    ltb (length current.selected_attestors) (length candidate.selected_attestors)
    || (length candidate.selected_attestors == length current.selected_attestors
        && (ltb candidate.spread_bps current.spread_bps
            || (candidate.spread_bps == current.spread_bps
                && keys_lt candidate.selected_attestors current.selected_attestors)))

abbrev pub better_of : Option QuorumSelection → Option QuorumSelection → Option QuorumSelection
better_of none best = best
better_of (some candidate) none = some candidate
better_of (some candidate) (some current) =
    if improves candidate current then some candidate else some current

-- The masks that are left, from `mask` on.
unfoldable pub select_loop :
    ℕ
    → ℕ
    → List AttestorReport
    → ℕ
    → Option QuorumSelection
    → Outcome MathError (Option QuorumSelection)
unfolding selected_by candidate improves
select_loop zero mask reports max_spread_bps best = ok best
select_loop (suc left) mask reports max_spread_bps best =
    candidate max_spread_bps (selected_by mask reports) >>= λ c.
    select_loop left (suc mask) reports max_spread_bps (better_of c best)

-- `1 << reports.len()`.
abbrev pub masks : List AttestorReport → ℕ
masks [] = 1
masks (r ∷ rs) = 2 * masks rs

unfoldable pub has_attestor : Key → List AttestorReport → Bool
has_attestor key [] = false
has_attestor key (r ∷ rs) = r.attestor == key || has_attestor key rs

unfoldable pub has_duplicate : List AttestorReport → Bool
unfolding has_attestor
has_duplicate [] = false
has_duplicate (r ∷ rs) = has_attestor r.attestor rs || has_duplicate rs

unfoldable pub any_not_positive : List AttestorReport → Bool
unfolding leb_ℤ
any_not_positive [] = false
any_not_positive (r ∷ rs) = leb_ℤ r.median_price_q9 (pos 0) || any_not_positive rs

unfoldable pub select_compatible_quorum :
    List AttestorReport → ℕ → Outcome MathError QuorumSelection
unfolding any_not_positive has_duplicate select_loop
select_compatible_quorum reports max_spread_bps = do
  require (leb (length reports) 3) MathError.too_many_attestors
  require (not (any_not_positive reports)) MathError.non_positive_price
  require (not (has_duplicate reports)) MathError.duplicate_attestor
  best ← select_loop (masks reports) 0 reports max_spread_bps none
  ok_or best MathError.no_compatible_quorum
