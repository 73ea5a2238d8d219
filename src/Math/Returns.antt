-- ===== src/Math/Returns.antt =====
-- What `return_q9` of math.rs computes.
use tickersix.Base.{ℕ, ◌-◌, ◌*◌, ◌/◌, ◌<◌, ◌≤◌, ◌≡◌, leb, arith, if◌then◌else◌}
use tickersix.Base.Int.{pos, sub_ℕ, fits_i64, fits_i128, i64_max}
use tickersix.Errors.{ok, err, custom, ErrorCode}
use tickersix.Math.{return_q9}

-- a bound that keeps the intermediate product within `i128`
quotient-le : (a s : ℕ) → 0 < s → a / s ≤ a
quotient-le a s h = grind arith

loss-le : (d s : ℕ) → 0 < s → d ≤ s → (d * 1000000000) / s ≤ 1000000000
loss-le d s h k = grind arith

-- two prices of type `i64`, both positive
module _ (s e : ℕ) (s_pos : 0 < s) (s_fits : s ≤ i64_max) (e_pos : 0 < e)
    (e_fits : e ≤ i64_max) where
  -- The return is the truncated quotient (end - start) * 10^9 / start. A gain beyond `i64` is
  -- refused as an overflow; a loss is never refused, and no intermediate step overflows.
  pub return_q9-exact : return_q9 (pos s) (pos e) ≡ (
      if leb s e
      then (if leb ((e - s) * 1000000000 / s) i64_max
          then ok (pos ((e - s) * 1000000000 / s))
          else err (custom ErrorCode.math_overflow))
      else ok (sub_ℕ 0 ((s - e) * 1000000000 / s)))
  unfolding return_q9 fits_i64 fits_i128
  return_q9-exact = ground (arith, quotient-le ((e - s) * 1000000000) s, loss-le (s - e) s)
