-- ===== src/Protocol/Decimal/Exact.antt =====
-- crates/protocol/src/lib.rs: `parse_decimal_q9` gives a decimal numeral its exact value in Q9.
use tickersix.Base.{
  ℕ, zero, suc, ◌≤◌, ◌≡◌, refl, Bool, true, false, not, ◌&&◌, ◌||◌, ◌==◌, leb, [], ◌∷◌, ◌++◌,
  Option, some, none, arith, inl, inr, Bool-cases, if◌then◌else◌, length,
}
use mathlib.Core.List.{append-nil}
use tickersix.Base.Int.{ℤ, pos, negsuc, ◌+ℤ◌, ◌-ℤ◌, sub_ℕ, i64_max, fits_i64}
use tickersix.Outcome.{ok}
use tickersix.Runtime.{Bytes}
use tickersix.Protocol.Decimal.{
  parse_decimal_q9, digit_parts, checked_i64, i128_max, any_byte, is_ascii_whitespace,
  is_exponent_mark, is_empty, split_exponent, split_dots,
}
use tickersix.Protocol.Decimal.Folds.{value_from, digits_fold-value, scale_q9-priced}
use tickersix.Protocol.Decimal.Splits.{
  sign_bytes, is_minus, NoSign, NoSign-digits, any_byte-append, digits_no_mark, digits_no_space,
  split_exponent-mark, split_exponent-none, split_dots-one, split_dots-two, split_sign-signed,
}
use tickersix.Protocol.Decimal.Numerals.{
  Numeral, Exponent, IsNumeral, IsExponent, AreDigits, text, meaning, fraction_digits,
  fraction_text, exponent_text, mark, exponent_bytes, exponent_value, mark-is_mark, sign_no_mark,
  sign_no_space, optional_exponent-value,
}

fraction_no_mark :
    (f : Option Bytes)
    → AreDigits (fraction_digits f)
    → any_byte is_exponent_mark (fraction_text f) ≡ false
unfolding any_byte is_exponent_mark
fraction_no_mark none h = refl
fraction_no_mark (some f) h = digits_no_mark f h

fraction_no_space :
    (f : Option Bytes)
    → AreDigits (fraction_digits f)
    → any_byte is_ascii_whitespace (fraction_text f) ≡ false
unfolding any_byte is_ascii_whitespace
fraction_no_space none h = refl
fraction_no_space (some f) h = digits_no_space f h

fraction_NoSign : (f : Option Bytes) → NoSign (fraction_text f)
fraction_NoSign none = tt
fraction_NoSign (some f) = refl

mark_no_space :
    (upper : Bool) (rest : Bytes)
    → any_byte is_ascii_whitespace rest ≡ false
    → any_byte is_ascii_whitespace (mark upper ∷ rest) ≡ false
unfolding any_byte is_ascii_whitespace
mark_no_space true rest h = h
mark_no_space false rest h = h

exponent_no_space :
    (e : Option Exponent) → IsExponent e → any_byte is_ascii_whitespace (exponent_text e) ≡ false
unfolding any_byte is_ascii_whitespace
exponent_no_space none h = refl
exponent_no_space (some e) h = mark_no_space e.upper (sign_bytes e.sign ++ e.digits) (
    rw (any_byte-append is_ascii_whitespace (sign_bytes e.sign) e.digits, sign_no_space e.sign)
      (digits_no_space e.digits h.0))

-- The text falls into the mantissa and the exponent.
split-text :
    (m : Bytes) (e : Option Exponent)
    → any_byte is_exponent_mark m ≡ false
    → split_exponent (m ++ exponent_text e) ≡ (m, exponent_bytes e)
split-text m none h = rw (append-nil m) (split_exponent-none m h)
split-text m (some e) h =
    split_exponent-mark m (sign_bytes e.sign ++ e.digits) (mark e.upper) h (mark-is_mark e.upper)

-- and the mantissa into the digits.
no_fraction : (xs : Bytes) → (is_empty xs && is_empty []) ≡ false → is_empty xs ≡ false
unfolding is_empty
no_fraction xs h = ground arith

digit_parts-digits :
    (integer : Bytes) (f : Option Bytes)
    → AreDigits integer
    → AreDigits (fraction_digits f)
    → (is_empty integer && is_empty (fraction_digits f)) ≡ false
    → digit_parts (split_dots (integer ++ fraction_text f)) ≡ ok (integer, fraction_digits f)
unfolding digit_parts
digit_parts-digits integer none i f s =
    let e : is_empty integer ≡ false = no_fraction integer s in
    rw (append-nil integer, split_dots-one integer i) (rw (e, i) refl)
digit_parts-digits integer (some f) i d s = rw (split_dots-two integer f i d) (rw (s, i, d) refl)

-- No more than 10 ^ 18, either way.
abbrev IsModest : ℤ → Type 0
IsModest (pos n) = n ≤ 1_000_000_000_000_000_000
IsModest (negsuc n) = n ≤ 1_000_000_000_000_000_000

IsModest-signed :
    (negative : Bool) (n : ℕ)
    → n ≤ 1_000_000_000_000_000_000
    → IsModest (if negative then sub_ℕ 0 n else pos n)
IsModest-signed true zero h = omega arith
IsModest-signed true (suc n) h = ground arith
IsModest-signed false n h = h

exponent_value-IsModest : (e : Option Exponent) → IsExponent e → IsModest (exponent_value e)
exponent_value-IsModest none h = omega arith
exponent_value-IsModest (some e) h = IsModest-signed (is_minus e.sign) (value_from 0 e.digits) h.2

places-fit :
    (a : ℤ) (n : ℕ)
    → IsModest a
    → n ≤ 1_000_000_000_000_000_000
    → (checked_i64 (a -ℤ pos n) ≡ ok (a -ℤ pos n))
      × (checked_i64 (a -ℤ pos n +ℤ pos 9) ≡ ok (a -ℤ pos n +ℤ pos 9))
unfolding checked_i64 fits_i64 ◌-ℤ◌ ◌+ℤ◌
places-fit (pos k) n m h = (ground arith, ground arith)
places-fit (negsuc k) n m h = (ground arith, ground arith)

is_empty-append : (xs ys : Bytes) → is_empty (xs ++ ys) ≡ (is_empty xs && is_empty ys)
unfolding is_empty
is_empty-append [] ys = refl
is_empty-append (x ∷ xs) ys = refl

digit_there :
    (integer : Bytes) (f : Option Bytes)
    → (is_empty integer && is_empty (fraction_digits f)) ≡ false
    → (is_empty integer && is_empty (fraction_text f)) ≡ false
unfolding is_empty
digit_there [] none h = cc
digit_there [] (some f) h = refl
digit_there (x ∷ xs) f h = refl

text-not_empty : (n : Numeral) → IsNumeral n → is_empty (text n) ≡ false
text-not_empty n h =
    let m = sign_bytes n.sign ++ (n.integer ++ fraction_text n.fraction) in
    rw
      (
        is_empty-append m (exponent_text n.exponent),
        is_empty-append (sign_bytes n.sign) (n.integer ++ fraction_text n.fraction),
        is_empty-append n.integer (fraction_text n.fraction),
        digit_there n.integer n.fraction h.some_digit,
      )
      (ground arith)

-- The text is not empty, and holds no space.
text-plain :
    (n : Numeral)
    → IsNumeral n
    → (not (is_empty (text n)) && not (any_byte is_ascii_whitespace (text n))) ≡ true
text-plain n h =
    let m = sign_bytes n.sign ++ (n.integer ++ fraction_text n.fraction) in
    rw
      (
        any_byte-append is_ascii_whitespace m (exponent_text n.exponent),
        any_byte-append is_ascii_whitespace (sign_bytes n.sign)
            (n.integer ++ fraction_text n.fraction),
        any_byte-append is_ascii_whitespace n.integer (fraction_text n.fraction),
        sign_no_space n.sign,
        digits_no_space n.integer h.integer_digits,
        fraction_no_space n.fraction h.fraction_is_digits,
        exponent_no_space n.exponent h.exponent_digits,
        text-not_empty n h,
      )
      refl

mantissa_no_mark :
    (n : Numeral)
    → IsNumeral n
    → any_byte is_exponent_mark (sign_bytes n.sign ++ (n.integer ++ fraction_text n.fraction))
      ≡ false
mantissa_no_mark n h =
    rw
      (
        any_byte-append is_exponent_mark (sign_bytes n.sign)
            (n.integer ++ fraction_text n.fraction),
        any_byte-append is_exponent_mark n.integer (fraction_text n.fraction),
        sign_no_mark n.sign,
        digits_no_mark n.integer h.integer_digits,
        fraction_no_mark n.fraction h.fraction_is_digits,
      )
      refl

-- The text of a numeral is parsed to its value in Q9: its digits as one number, moved by the exponent
-- and by nine places, and truncated. A minus, the coefficient 0 and a value below one unit are
-- refused as not positive, a coefficient beyond `i128` or a value beyond `i64` as an overflow. The
-- exponent and the length of the fraction are at most 10^18.
pub parse_decimal_q9-exact : (n : Numeral) → IsNumeral n → parse_decimal_q9 (text n) ≡ meaning n
unfolding parse_decimal_q9
parse_decimal_q9-exact n h =
    let fraction = fraction_digits n.fraction in
    let coefficient = value_from 0 (n.integer ++ fraction) in
    let (moved, placed) =
      places-fit (exponent_value n.exponent) (length fraction)
        (exponent_value-IsModest n.exponent h.exponent_digits) h.fraction_short in
    let short : leb (length fraction) i64_max ≡ true = ground (arith, h.fraction_short) in
    rw
      (
        text-plain n h,
        split-text (sign_bytes n.sign ++ (n.integer ++ fraction_text n.fraction)) n.exponent
            (mantissa_no_mark n h),
        optional_exponent-value n.exponent h.exponent_digits (exponent_bytes n.exponent) refl,
        split_sign-signed n.sign (n.integer ++ fraction_text n.fraction) (
            NoSign-digits n.integer (fraction_text n.fraction) h.integer_digits
              (fraction_NoSign n.fraction)),
        digit_parts-digits n.integer n.fraction h.integer_digits h.fraction_is_digits h.some_digit,
        digits_fold-value i128_max 0 (n.integer ++ fraction) (omega arith),
      )
      (elim (Bool-cases (leb coefficient i128_max)) [
        | inr big ↦ rw big refl
        | inl fits ↦ elim (Bool-cases (coefficient == 0 || is_minus n.sign)) [
          | inl bad ↦ rw (fits, bad) refl
          | inr good ↦
              rw (fits, good, short, moved, placed)
                (scale_q9-priced coefficient _ (ground arith) (ground arith))
        ]
      ])
