-- ===== src/Protocol/Decimal/Numerals.antt =====
-- crates/protocol/src/lib.rs: decimal numerals, their texts and their meaning, for `parse_decimal_q9`.
use tickersix.Base.{
  ℕ, ◌≤◌, ◌≡◌, refl, sym, Bool, true, false, ◌&&◌, ◌||◌, ◌==◌, leb, [], ◌∷◌, ◌++◌, Option, some,
  none, arith, if◌then◌else◌, length,
}
use tickersix.Base.Int.{ℤ, pos, ◌+ℤ◌, ◌-ℤ◌, sub_ℕ, i64_max}
use tickersix.Outcome.{Outcome, ok, err}
use tickersix.Runtime.{Bytes}
use tickersix.Protocol.{MathError}
use tickersix.Protocol.Decimal.{
  parse_exponent, optional_exponent, i128_max, any_byte, all_bytes, is_ascii_digit,
  is_ascii_whitespace, is_exponent_mark, is_empty,
}
use tickersix.Protocol.Decimal.Folds.{value_from, digits_fold-value, moved_by, priced}
use tickersix.Protocol.Decimal.Splits.{
  Sign, sign_bytes, is_minus, NoSign, any_byte-append, digits_no_mark, split_sign-signed,
}

pub record Exponent : Type 0 where
  pub upper : Bool
  pub sign : Sign
  pub digits : Bytes

-- A decimal numeral in its parts: `fraction` is what follows a dot.
pub record Numeral : Type 0 where
  pub sign : Sign
  pub integer : Bytes
  pub fraction : Option Bytes
  pub exponent : Option Exponent

abbrev pub fraction_digits : Option Bytes → Bytes
fraction_digits none = []
fraction_digits (some digits) = digits

abbrev pub fraction_text : Option Bytes → Bytes
fraction_text none = []
fraction_text (some digits) = b'.' ∷ digits

abbrev pub mark : Bool → ℕ
mark true = b'E'
mark false = b'e'

abbrev pub exponent_text : Option Exponent → Bytes
exponent_text none = []
exponent_text (some e) = mark e.upper ∷ sign_bytes e.sign ++ e.digits

-- The text of a numeral.
abbrev pub text : Numeral → Bytes
text n = (sign_bytes n.sign ++ (n.integer ++ fraction_text n.fraction)) ++ exponent_text n.exponent

abbrev pub AreDigits : Bytes → Type 0
AreDigits bs = all_bytes is_ascii_digit bs ≡ true

abbrev pub IsExponent : Option Exponent → Type 0
IsExponent none = Unit
IsExponent (some e) =
    AreDigits e.digits
    × (is_empty e.digits ≡ false)
    × (value_from 0 e.digits ≤ 1_000_000_000_000_000_000)

-- Its parts are digits, there are some, and neither the exponent nor the fraction is astronomic.
pub record IsNumeral (n : Numeral) : Type 0 where
  pub integer_digits : AreDigits n.integer
  pub fraction_is_digits : AreDigits (fraction_digits n.fraction)
  pub some_digit : (is_empty n.integer && is_empty (fraction_digits n.fraction)) ≡ false
  pub exponent_digits : IsExponent n.exponent
  pub fraction_short : length (fraction_digits n.fraction) ≤ 1_000_000_000_000_000_000

abbrev pub exponent_value : Option Exponent → ℤ
exponent_value none = pos 0
exponent_value (some e) =
    if is_minus e.sign then sub_ℕ 0 (value_from 0 e.digits) else pos (value_from 0 e.digits)

-- The digits as one number, moved by the exponent and to Q9, truncated.
abbrev pub meaning : Numeral → Outcome MathError ℕ
meaning n =
    let coefficient = value_from 0 (n.integer ++ fraction_digits n.fraction) in
    let places = exponent_value n.exponent -ℤ pos (length (fraction_digits n.fraction)) +ℤ pos 9 in
    if leb coefficient i128_max
    then (if coefficient == 0 || is_minus n.sign
        then err MathError.non_positive_price
        else priced (moved_by coefficient places))
    else err MathError.overflow

pub mark-is_mark : (upper : Bool) → is_exponent_mark (mark upper) ≡ true
unfolding is_exponent_mark
mark-is_mark true = refl
mark-is_mark false = refl

pub sign_no_mark : (s : Sign) → any_byte is_exponent_mark (sign_bytes s) ≡ false
unfolding any_byte is_exponent_mark
sign_no_mark Sign.unsigned = refl
sign_no_mark Sign.plus = refl
sign_no_mark Sign.minus = refl

pub sign_no_space : (s : Sign) → any_byte is_ascii_whitespace (sign_bytes s) ≡ false
unfolding any_byte is_ascii_whitespace
sign_no_space Sign.unsigned = refl
sign_no_space Sign.plus = refl
sign_no_space Sign.minus = refl

pub NoSign-alone : (xs : Bytes) → AreDigits xs → NoSign xs
unfolding all_bytes is_ascii_digit
NoSign-alone [] h = tt
NoSign-alone (x ∷ xs) h = ground arith

pub not_empty :
    (s : Sign) (bs : Bytes) → is_empty bs ≡ false → is_empty (sign_bytes s ++ bs) ≡ false
unfolding is_empty
not_empty Sign.unsigned bs h = h
not_empty Sign.plus bs h = refl
not_empty Sign.minus bs h = refl

parse_exponent-value :
    (sign : Sign) (digits : Bytes)
    → AreDigits digits
    → is_empty digits ≡ false
    → value_from 0 digits ≤ 1_000_000_000_000_000_000
    → parse_exponent (sign_bytes sign ++ digits)
      ≡ ok (if is_minus sign then sub_ℕ 0 (value_from 0 digits) else pos (value_from 0 digits))
unfolding parse_exponent
parse_exponent-value sign digits d n small =
    let fits : leb (value_from 0 digits) i64_max ≡ true = ground arith in
    rw
      (
        not_empty sign digits n,
        split_sign-signed sign digits (NoSign-alone digits d),
        n,
        d,
        digits_fold-value i64_max 0 digits (omega arith),
        fits,
      )
      refl

abbrev pub exponent_bytes : Option Exponent → Option Bytes
exponent_bytes none = none
exponent_bytes (some e) = some (sign_bytes e.sign ++ e.digits)

pub optional_exponent-value :
    (e : Option Exponent)
    → IsExponent e
    → (bytes : Option Bytes) → exponent_bytes e ≡ bytes
    → optional_exponent bytes ≡ ok (exponent_value e)
optional_exponent-value none d bytes h = rw (sym h) refl
optional_exponent-value (some e) d bytes h =
    rw
      (
        sym h,
        any_byte-append is_exponent_mark (sign_bytes e.sign) e.digits,
        sign_no_mark e.sign,
        digits_no_mark e.digits d.0,
      )
      (parse_exponent-value e.sign e.digits d.0 d.1 d.2)
