-- ===== src/Protocol/Decimal/Splits.antt =====
-- crates/protocol/src/lib.rs: how a decimal text falls into its parts.
use tickersix.Base.{ℕ, ◌≡◌, refl, Bool, true, false, ◌||◌, ◌==◌, [], ◌∷◌, ◌++◌, some, none, arith}
use tickersix.Runtime.{Bytes}
use tickersix.Protocol.Decimal.{
  any_byte, all_bytes, is_ascii_digit, is_ascii_whitespace, is_exponent_mark, split_exponent,
  split_sign, split_dots,
}

pub any_byte-append :
    (p : ℕ → Bool) (xs ys : Bytes) → any_byte p (xs ++ ys) ≡ (any_byte p xs || any_byte p ys)
unfolding any_byte
any_byte-append p [] ys = refl
any_byte-append p (x ∷ xs) ys = ground (arith, any_byte-append p xs ys)

-- Digits are no mark, no dot and no space.
pub digits_no_mark :
    (bs : Bytes) → all_bytes is_ascii_digit bs ≡ true → any_byte is_exponent_mark bs ≡ false
unfolding any_byte all_bytes is_ascii_digit is_exponent_mark
digits_no_mark [] h = refl
digits_no_mark (b ∷ bs) h = ground (arith, digits_no_mark bs)

pub digits_no_space :
    (bs : Bytes) → all_bytes is_ascii_digit bs ≡ true → any_byte is_ascii_whitespace bs ≡ false
unfolding any_byte all_bytes is_ascii_digit is_ascii_whitespace
digits_no_space [] h = refl
digits_no_space (b ∷ bs) h = ground (arith, digits_no_space bs)

pub split_exponent-mark :
    (xs ys : Bytes) (mark : ℕ)
    → any_byte is_exponent_mark xs ≡ false
    → is_exponent_mark mark ≡ true
    → split_exponent (xs ++ mark ∷ ys) ≡ (xs, some ys)
unfolding split_exponent any_byte
split_exponent-mark [] ys mark h m = rw m refl
split_exponent-mark (x ∷ xs) ys mark h m =
    let e : is_exponent_mark x ≡ false = ground arith in
    rw (split_exponent-mark xs ys mark (ground arith) m, e) refl

pub split_exponent-none :
    (xs : Bytes) → any_byte is_exponent_mark xs ≡ false → split_exponent xs ≡ (xs, none)
unfolding split_exponent any_byte
split_exponent-none [] h = refl
split_exponent-none (x ∷ xs) h =
    let e : is_exponent_mark x ≡ false = ground arith in
    rw (split_exponent-none xs (ground arith), e) refl

pub split_dots-one : (xs : Bytes) → all_bytes is_ascii_digit xs ≡ true → split_dots xs ≡ xs ∷ []
unfolding split_dots all_bytes is_ascii_digit
split_dots-one [] h = refl
split_dots-one (x ∷ xs) h =
    let e : (x == b'.') ≡ false = ground arith in rw (split_dots-one xs (ground arith), e) refl

pub split_dots-two :
    (xs ys : Bytes)
    → all_bytes is_ascii_digit xs ≡ true
    → all_bytes is_ascii_digit ys ≡ true
    → split_dots (xs ++ b'.' ∷ ys) ≡ xs ∷ ys ∷ []
unfolding split_dots all_bytes is_ascii_digit
split_dots-two [] ys h k = rw (split_dots-one ys k) refl
split_dots-two (x ∷ xs) ys h k =
    let e : (x == b'.') ≡ false = ground arith in rw (split_dots-two xs ys (ground arith) k, e) refl

-- A sign, as it is written.
pub data Sign : Type 0 where
  unsigned plus minus : Sign

abbrev pub sign_bytes : Sign → Bytes
sign_bytes unsigned = []
sign_bytes plus = b'+' ∷ []
sign_bytes minus = b'-' ∷ []

abbrev pub is_minus : Sign → Bool
is_minus minus = true
is_minus _ = false

-- No sign is in front of a text that starts with a digit or a dot.
abbrev pub NoSign : Bytes → Type 0
NoSign [] = Unit
NoSign (b ∷ bs) = (b == b'-' || b == b'+') ≡ false

pub split_sign-signed :
    (sign : Sign) (bs : Bytes)
    → NoSign bs
    → split_sign (sign_bytes sign ++ bs) ≡ (is_minus sign, bs)
unfolding split_sign
split_sign-signed unsigned [] h = refl
split_sign-signed unsigned (b ∷ bs) h = ground arith
split_sign-signed plus bs h = refl
split_sign-signed minus bs h = refl

pub NoSign-digits :
    (xs ys : Bytes) → all_bytes is_ascii_digit xs ≡ true → NoSign ys → NoSign (xs ++ ys)
unfolding all_bytes is_ascii_digit
NoSign-digits [] ys h k = k
NoSign-digits (x ∷ xs) ys h k = ground arith
