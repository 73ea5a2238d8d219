-- ===== src/Price/Signed.antt =====
-- programs/tickersix/src/instructions/price.rs: what `verify_ed25519_instruction` finds in the
-- instructions of the transaction. `IsSignature` says it by the parts of the payload.
use tickersix.Base.{
  ℕ, zero, suc, ◌+◌, ◌*◌, ◌≤◌, ◌<◌, ◌≡◌, refl, ap, true, List, [], ◌∷◌, ◌++◌, arith, length, get_or,
  Some, inl, inr, Bool-cases, leb, ◌&&◌,
}
use mathlib.Core.Path.{subst}
use tickersix.Runtime.{Key, Bytes, key_bytes}
use tickersix.Price.Submit.{
  Instruction, slice, eq_bytes, read_u16, signature_matches, some_signature, some_instruction,
}

-- Two bytes, the lower first.
abbrev pub word_at : Bytes → ℕ → ℕ
word_at bytes offset = get_or bytes offset 0 + 256 * get_or bytes (suc offset) 0

-- The bytes have this part at this offset.
pub record IsAt (offset : ℕ) (part bytes : Bytes) : Type 0 where
  pub before : Bytes
  pub after : Bytes
  pub split : bytes ≡ before ++ (part ++ after)
  pub position : length before ≡ offset

-- The entry at `offset`, of seven words: where the signature, the key and the message are, and that
-- all of them are in this same instruction.
pub record IsSignature (bytes : Bytes) (key : Key) (message : Bytes) (offset : ℕ) : Type 0 where
  pub entry : offset + 14 ≤ length bytes
  pub signature_here : word_at bytes (offset + 2) ≡ 65535
  pub key_here : word_at bytes (offset + 6) ≡ 65535
  pub message_here : word_at bytes (offset + 12) ≡ 65535
  pub signature_inside : word_at bytes offset + 64 ≤ length bytes
  pub key_at : IsAt (word_at bytes (offset + 4)) (key_bytes key) bytes
  pub message_at : IsAt (word_at bytes (offset + 8)) message bytes
  pub message_size : length message ≡ word_at bytes (offset + 10)

-- An instruction of the Ed25519 program with a signature of the key over the message.
pub record IsSigned (key : Key) (message : Bytes) (i : Instruction) : Type 0 where
  pub native : i.is_ed25519 ≡ true
  pub number : ℕ
  pub counted : number < get_or i.payload 0 0
  pub signature : IsSignature i.payload key message (2 + number * 14)

eq_bytes→≡ : (xs ys : Bytes) → eq_bytes xs ys ≡ true → xs ≡ ys
unfolding eq_bytes
eq_bytes→≡ [] [] h = refl
eq_bytes→≡ [] (y ∷ ys) h = cc
eq_bytes→≡ (x ∷ xs) [] h = cc
eq_bytes→≡ (x ∷ xs) (y ∷ ys) h = ground (arith, eq_bytes→≡ xs ys)

slice-first :
    (bytes : Bytes) (size : ℕ)
    → size ≤ length bytes
    → (after : Bytes) × (bytes ≡ slice bytes 0 size ++ after) × (length (slice bytes 0 size) ≡ size)
unfolding slice
slice-first bytes zero h = (bytes, refl, refl)
slice-first [] (suc size) h = absurd (omega arith)
slice-first (b ∷ bytes) (suc size) h =
    let (after, e, l) = slice-first bytes size (omega arith) in
    (after, ap (λ xs. b ∷ xs) e, omega (arith, l))

-- The same part, one byte later.
later :
    {from : ℕ} {part bytes : Bytes} (b : ℕ)
    → IsAt from part bytes
    → IsAt (suc from) part (b ∷ bytes)
later b p = record {
  before = b ∷ p.before;
  after = p.after;
  split = ap (λ xs. b ∷ xs) p.split;
  position = ap suc p.position;
}

slice-parts :
    (bytes : Bytes) (from size : ℕ)
    → from + size ≤ length bytes
    → IsAt from (slice bytes from size) bytes × (length (slice bytes from size) ≡ size)
unfolding slice
slice-parts bytes zero size h =
    let (after, e, l) = slice-first bytes size (omega arith) in
    (record { before = []; after = after; split = e; position = refl }, l)
slice-parts [] (suc from) size h = absurd (omega arith)
slice-parts (b ∷ bytes) (suc from) zero h =
    let (p, l) = slice-parts bytes from zero (omega arith) in (later b p, refl)
slice-parts (b ∷ bytes) (suc from) (suc size) h =
    let (p, l) = slice-parts bytes from (suc size) (omega arith) in (later b p, l)

-- A slice that equals a part.
part-at :
    (bytes : Bytes) (from size : ℕ) (part : Bytes)
    → from + size ≤ length bytes
    → eq_bytes (slice bytes from size) part ≡ true
    → IsAt from part bytes × (length part ≡ size)
part-at bytes from size part h e =
    subst (λ p. IsAt from p bytes × (length p ≡ size)) (eq_bytes→≡ (slice bytes from size) part e)
      (slice-parts bytes from size h)

signature_matches-IsSignature :
    (bytes : Bytes) (key : Key) (message : Bytes) (offset : ℕ)
    → signature_matches bytes key message offset ≡ true
    → IsSignature bytes key message offset
unfolding signature_matches read_u16
signature_matches-IsSignature bytes key message offset h =
    let at =
      part-at bytes (word_at bytes (offset + 4)) 32 (key_bytes key) (ground arith) (ground arith) in
    let said =
      part-at bytes (word_at bytes (offset + 8)) (word_at bytes (offset + 10)) message
        (ground arith) (ground arith) in
    record {
      entry = ground arith;
      signature_here = ground arith;
      key_here = ground arith;
      message_here = ground arith;
      signature_inside = ground arith;
      key_at = at.0;
      message_at = said.0;
      message_size = said.1;
    }

some_signature-number :
    (bytes : Bytes) (key : Key) (message : Bytes) (left number : ℕ)
    → some_signature bytes key message left number ≡ true
    → (n : ℕ) × (n < number + left) × (signature_matches bytes key message (2 + n * 14) ≡ true)
unfolding some_signature
some_signature-number bytes key message zero number h = cc
some_signature-number bytes key message (suc left) number h =
    elim (Bool-cases (signature_matches bytes key message (2 + number * 14))) [
      | inl e ↦ (number, omega arith, e)
      | inr e ↦
          let (n, below, m) =
            some_signature-number bytes key message left (suc number) (ground arith) in
          (n, omega arith, m)
    ]

-- The search finds an instruction that holds the signature.
pub some_instruction-IsSigned :
    (instructions : List Instruction) (key : Key) (message : Bytes)
    → some_instruction instructions key message ≡ true
    → Some (IsSigned key message) instructions
unfolding some_instruction
some_instruction-IsSigned [] key message h = cc
some_instruction-IsSigned (i ∷ is) key message h =
    elim (Bool-cases (
      i.is_ed25519
      && leb 16 (length i.payload)
      && some_signature i.payload key message (get_or i.payload 0 0) 0)) [
        | inl e ↦
            let (n, below, m) =
              some_signature-number i.payload key message (get_or i.payload 0 0) 0 (ground arith) in
            inl (record {
              native = ground arith;
              number = n;
              counted = omega arith;
              signature = signature_matches-IsSignature i.payload key message (2 + n * 14) m;
            })
        | inr e ↦ inr (some_instruction-IsSigned is key message (ground arith))
      ]
