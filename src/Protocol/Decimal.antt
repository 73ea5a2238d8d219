-- ===== src/Protocol/Decimal.antt =====
-- crates/protocol/src/lib.rs: `parse_decimal_q9`. A text is the list of its UTF-8 bytes.
pub mod Folds
pub mod Splits
pub mod Numerals
pub mod Exact
use tickersix.Base.{
  ℕ, zero, suc, ◌+◌, ◌*◌, ◌-◌, ◌/◌, Bool, true, false, not, ◌&&◌, ◌||◌, ◌==◌, ltb, leb, List, [],
  ◌∷◌, ◌++◌, Option, some, none, if◌then◌else◌, contains, length,
}
use tickersix.Base.Int.{ℤ, pos, negsuc, ◌+ℤ◌, ◌-ℤ◌, fits_i64, sub_ℕ, i64_max}
use tickersix.Outcome.{Outcome, ok, err, require, ok_or, ◌>>◌, ◌>>=◌}
use tickersix.Runtime.{Bytes}
use tickersix.Protocol.{MathError}

-- The greatest `i128`.
abbrev pub i128_max : ℕ
i128_max = 170141183460469231731687303715884105727

unfoldable pub is_ascii_whitespace : ℕ → Bool
is_ascii_whitespace b = b == 32 || b == 9 || b == 10 || b == 12 || b == 13

unfoldable pub is_ascii_digit : ℕ → Bool
is_ascii_digit b = leb 48 b && leb b 57

unfoldable pub any_byte : (ℕ → Bool) → Bytes → Bool
any_byte p [] = false
any_byte p (b ∷ bs) = p b || any_byte p bs

unfoldable pub all_bytes : (ℕ → Bool) → Bytes → Bool
all_bytes p [] = true
all_bytes p (b ∷ bs) = p b && all_bytes p bs

unfoldable pub is_exponent_mark : ℕ → Bool
is_exponent_mark b = b == b'e' || b == b'E'

-- `find(['e', 'E'])`: what is before the first mark, and what is after it.
abbrev pub before : ℕ → Bytes × Option Bytes → Bytes × Option Bytes
before b (mantissa, exponent) = (b ∷ mantissa, exponent)

unfoldable pub split_exponent : Bytes → Bytes × Option Bytes
unfolding is_exponent_mark
split_exponent [] = ([], none)
split_exponent (b ∷ bs) =
    let rest = split_exponent bs in if is_exponent_mark b then ([], some bs) else before b rest

-- A sign in front: is it a minus, and what follows.
unfoldable pub split_sign : Bytes → Bool × Bytes
split_sign [] = (false, [])
split_sign (b ∷ bs) =
    if b == b'-' then (true, bs) else (if b == b'+' then (false, bs) else (false, b ∷ bs))

-- `split('.')`.
abbrev pub in_first : ℕ → List Bytes → List Bytes
in_first b [] = (b ∷ []) ∷ []
in_first b (part ∷ parts) = (b ∷ part) ∷ parts

unfoldable pub split_dots : Bytes → List Bytes
split_dots [] = [] ∷ []
split_dots (b ∷ bs) = let rest = split_dots bs in if b == b'.' then [] ∷ rest else in_first b rest

-- `try_fold` over the digits, in an integer type with the maximum `max`.
unfoldable pub digits_fold : ℕ → ℕ → Bytes → Outcome MathError ℕ
digits_fold max value [] = ok value
digits_fold max value (b ∷ bs) = do
  require (leb (value * 10) max) MathError.overflow
  require (leb (value * 10 + (b - 48)) max) MathError.overflow
  digits_fold max (value * 10 + (b - 48)) bs

unfoldable pub is_empty : Bytes → Bool
is_empty [] = true
is_empty (b ∷ bs) = false

unfoldable pub parse_exponent : Bytes → Outcome MathError ℤ
unfolding split_sign all_bytes is_ascii_digit digits_fold is_empty
parse_exponent input = do
  require (not (is_empty input)) MathError.invalid_decimal
  let sign = split_sign input
  require (not (is_empty sign.1) && all_bytes is_ascii_digit sign.1) MathError.invalid_decimal
  magnitude ← digits_fold i64_max 0 sign.1
  ok (if sign.0 then sub_ℕ 0 magnitude else pos magnitude)

-- `checked_mul` by ten, so many times.
unfoldable pub power_of_ten : ℕ → Option ℕ
power_of_ten zero = some 1
power_of_ten (suc n) = elim (power_of_ten n) [
  | some value ↦ if leb (value * 10) i128_max then some (value * 10) else none
  | none ↦ none
]

-- `checked_sub` and `checked_add` on `i64`.
unfoldable pub checked_i64 : ℤ → Outcome MathError ℤ
unfolding fits_i64
checked_i64 a = if fits_i64 a then ok a else err MathError.overflow

-- The coefficient, moved by so many decimal places and truncated.
unfoldable pub scale_q9 : ℕ → ℤ → Outcome MathError ℕ
unfolding power_of_ten
scale_q9 coefficient (pos n) = do
  power ← ok_or (power_of_ten n) MathError.overflow
  require (leb (coefficient * power) i128_max) MathError.overflow
  ok (coefficient * power)
scale_q9 coefficient (negsuc n) =
    if ltb 38 (suc n)
    then ok 0
    else (ok_or (power_of_ten (suc n)) MathError.overflow >>= λ power. ok (coefficient / power))

abbrev pub optional_exponent : Option Bytes → Outcome MathError ℤ
optional_exponent none = ok (pos 0)
optional_exponent (some text) =
    if any_byte is_exponent_mark text then err MathError.invalid_decimal else parse_exponent text

-- The integer and the fractional digits.
unfoldable pub digit_parts : List Bytes → Outcome MathError (Bytes × Bytes)
unfolding is_empty all_bytes is_ascii_digit
digit_parts [] = err MathError.invalid_decimal
digit_parts (integer ∷ []) = do
  require (not (is_empty integer) && all_bytes is_ascii_digit integer) MathError.invalid_decimal
  ok (integer, [])
digit_parts (integer ∷ fraction ∷ []) = do
  require
      (not (is_empty integer && is_empty fraction)
        && all_bytes is_ascii_digit integer
        && all_bytes is_ascii_digit fraction)
      MathError.invalid_decimal
  ok (integer, fraction)
digit_parts (integer ∷ fraction ∷ third ∷ rest) = err MathError.invalid_decimal

unfoldable pub parse_decimal_q9 : Bytes → Outcome MathError ℕ
unfolding any_byte is_ascii_whitespace split_exponent parse_exponent split_sign split_dots
    digit_parts digits_fold checked_i64 scale_q9 is_empty ◌+ℤ◌ ◌-ℤ◌ is_exponent_mark
parse_decimal_q9 input = do
  require (not (is_empty input) && not (any_byte is_ascii_whitespace input))
      MathError.invalid_decimal
  let marked = split_exponent input
  exponent ← optional_exponent marked.1
  let sign = split_sign marked.0
  parts ← digit_parts (split_dots sign.1)
  coefficient ← digits_fold i128_max 0 (parts.0 ++ parts.1)
  require (not (coefficient == 0 || sign.0)) MathError.non_positive_price
  require (leb (length parts.1) i64_max) MathError.overflow
  moved ← checked_i64 (exponent -ℤ pos (length parts.1))
  scale ← checked_i64 (moved +ℤ pos 9)
  scaled ← scale_q9 coefficient scale
  require (ltb 0 scaled) MathError.non_positive_price
  require (leb scaled i64_max) MathError.overflow
  ok scaled
