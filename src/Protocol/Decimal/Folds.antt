-- ===== src/Protocol/Decimal/Folds.antt =====
-- crates/protocol/src/lib.rs: the value of a string of digits, and powers of ten.
use tickersix.Base.{
  ℕ, zero, suc, ◌+◌, ◌*◌, ◌-◌, ◌/◌, ◌^◌, ◌≤◌, ◌<◌, ◌≡◌, ◌==◌, refl, true, false, leb, ltb, [], ◌∷◌,
  some, none, arith, inl, inr, Bool-cases, if◌then◌else◌,
}
use mathlib.Core.Path.{subst}
use tickersix.Base.Int.{ℤ, pos, negsuc, i64_max}
use tickersix.Outcome.{Outcome, ok, err, require, ◌>>=◌, ◌>>◌}
use tickersix.Runtime.{Bytes}
use tickersix.Protocol.{MathError}
use tickersix.Protocol.Decimal.{digits_fold, power_of_ten, scale_q9, i128_max}

-- The number that digits write, after a number that was read.
unfoldable pub value_from : ℕ → Bytes → ℕ
value_from value [] = value
value_from value (b ∷ bs) = value_from (value * 10 + (b - 48)) bs

value_from-le : (value : ℕ) (bs : Bytes) → value ≤ value_from value bs
unfolding value_from
value_from-le value [] = omega arith
value_from-le value (b ∷ bs) = omega (arith, value_from-le (value * 10 + (b - 48)) bs)

-- The fold gives the number, unless that leaves the type.
pub digits_fold-value :
    (max value : ℕ) (bs : Bytes)
    → value ≤ max
    → digits_fold max value bs
      ≡ (if leb (value_from value bs) max then ok (value_from value bs) else err MathError.overflow)
unfolding digits_fold value_from
digits_fold-value max value [] h = ground arith
digits_fold-value max value (b ∷ bs) h = elim (Bool-cases (leb (value * 10 + (b - 48)) max)) [
  | inl e ↦
      let fits : value * 10 + (b - 48) ≤ max = ground arith in
      let ten : leb (value * 10) max ≡ true = ground arith in
      rw (ten, e) (digits_fold-value max (value * 10 + (b - 48)) bs fits)
  | inr e ↦
      let above : leb (value_from (value * 10 + (b - 48)) bs) max ≡ false =
        ground (arith, value_from-le (value * 10 + (b - 48)) bs) in
      elim (Bool-cases (leb (value * 10) max)) [
        | inl t ↦ rw (t, e, above) refl
        | inr t ↦ rw (t, above) refl
      ]
]

pow-suc : (n : ℕ) → 10 ^ suc n ≡ 10 ^ n * 10
pow-suc n = grind arith

pow-pos : (n : ℕ) → 0 < 10 ^ n
pow-pos zero = omega arith
pow-pos (suc n) = omega (arith, pow-suc n, pow-pos n)

ten_more :
    (p : ℕ)
    → (elim (if leb p i128_max then some p else none) [
      | some value ↦ if leb (value * 10) i128_max then some (value * 10) else none
      | none ↦ none
    ])
      ≡ (if leb (p * 10) i128_max then some (p * 10) else none)
ten_more p = ground arith

pub power_of_ten-value :
    (n : ℕ) → power_of_ten n ≡ (if leb (10 ^ n) i128_max then some (10 ^ n) else none)
unfolding power_of_ten
power_of_ten-value zero = refl
power_of_ten-value (suc n) = rw (power_of_ten-value n, pow-suc n) (ten_more (10 ^ n))

plus_zero : (m : ℕ) → m ≡ m + 0
plus_zero m = omega arith

plus_suc : (m k : ℕ) → suc (m + k) ≡ m + suc k
plus_suc m k = omega arith

pow-le : (m k : ℕ) → 10 ^ m ≤ 10 ^ (m + k)
pow-le m zero = subst (λ n. 10 ^ m ≤ 10 ^ n) (plus_zero m) (omega arith)
pow-le m (suc k) =
    subst (λ n. 10 ^ m ≤ 10 ^ n) (plus_suc m k) (omega (arith, pow-suc (m + k), pow-le m k))

beyond : (n : ℕ) → 38 < suc n → 10 ^ 39 ≤ 10 ^ suc n
beyond n h =
    let e : 39 + (n - 38) ≡ suc n = omega arith in
    subst (λ k. 10 ^ 39 ≤ 10 ^ k) e (pow-le 39 (n - 38))

within : (n : ℕ) → suc n ≤ 38 → 10 ^ suc n ≤ 10 ^ 38
within n h =
    let e : suc n + (37 - n) ≡ 38 = omega arith in
    subst (λ k. 10 ^ suc n ≤ 10 ^ k) e (pow-le (suc n) (37 - n))

-- A coefficient moved by decimal places, truncated.
unfoldable pub moved_by : ℕ → ℤ → ℕ
moved_by c (pos n) = c * 10 ^ n
moved_by c (negsuc n) = c / 10 ^ suc n

-- A price in Q9: positive, and an `i64`.
abbrev pub priced : ℕ → Outcome MathError ℕ
priced v =
    if v == 0
    then err MathError.non_positive_price
    else (if leb v i64_max then ok v else err MathError.overflow)

quotient-zero : (a b : ℕ) → a < b → a / b ≡ 0
quotient-zero a b h = grind arith

-- a power that leaves `i128` leaves it with any positive factor
product-more : (c p : ℕ) → p ≤ suc c * p
product-more c p = grind arith

product-above : (c p m : ℕ) → 0 < c → m < p → m < c * p
product-above zero p m h k = absurd (omega arith)
product-above (suc c) p m h k = omega (arith, product-more c p)

abbrev finish : Outcome MathError ℕ → Outcome MathError ℕ
finish scaled = do
  v ← scaled
  require (ltb 0 v) MathError.non_positive_price
  require (leb v i64_max) MathError.overflow
  ok v

pub scale_q9-priced :
    (c : ℕ) (scale : ℤ)
    → 0 < c
    → c ≤ i128_max
    → finish (scale_q9 c scale) ≡ priced (moved_by c scale)
unfolding scale_q9 moved_by
scale_q9-priced c (pos n) h k = elim (Bool-cases (leb (10 ^ n) i128_max)) [
  | inl e ↦ rw (power_of_ten-value n, e) (ground arith)
  | inr e ↦ rw (power_of_ten-value n, e) (ground (arith, product-above c (10 ^ n) i128_max h))
]
scale_q9-priced c (negsuc n) h k = elim (Bool-cases (ltb 38 (suc n))) [
  | inl e ↦
      let big : 10 ^ 39 ≤ 10 ^ suc n = beyond n (ground arith) in
      let none_left = quotient-zero c (10 ^ suc n) (omega (arith, big)) in rw (e, none_left) refl
  | inr e ↦
      let small : 10 ^ suc n ≤ 10 ^ 38 = within n (ground arith) in
      let fits : leb (10 ^ suc n) i128_max ≡ true = ground arith in
      rw (e, power_of_ten-value (suc n), fits) (ground arith)
]
