-- ===== src/Net/Frames.antt =====
-- rkvm-net/src/message.rs: `encode_with_buffer` and `decode_with_buffer`. The serializer (bincode with
-- a limit) is a parameter; a byte is a number below 256.
use rkvm.Prelude.{
  ℕ, zero, suc, ◌≡◌, refl, List, [], ◌∷◌, ◌++◌, Option, none, some, arith, length, ltb, ◌*◌, ◌+◌,
  ◌/◌, ◌%◌, if◌then◌else◌, ap, ◌∙◌, inl, inr, Option-cases,
}

pub data WireError : Type 0 where
  unexpected_eof invalid_data invalid_input : WireError

pub data Wire {ℓ} (A : Type ℓ) : Type ℓ where
  ok : A → Wire A
  err : WireError → Wire A

-- `read_exact`: the bytes and what is left of the stream.
unfoldable pub read_exact : ℕ → List ℕ → Wire (List ℕ × List ℕ)
read_exact zero stream = ok ([], stream)
read_exact (suc n) [] = err unexpected_eof
read_exact (suc n) (b ∷ stream) = elim (read_exact n stream) [
  | err e ↦ err e
  | ok (bytes, rest) ↦ ok (b ∷ bytes, rest)
]

-- `read_u16`, most significant byte first.
unfoldable pub read_u16 : List ℕ → Wire (ℕ × List ℕ)
read_u16 (high ∷ low ∷ stream) = ok (high * 256 + low, stream)
read_u16 stream = err unexpected_eof

module _ {A : Type 0} (serialize : A → Option (List ℕ)) where
  unfoldable pub encode : A → Wire (List ℕ)
  encode message = elim (serialize message) [
    | none ↦ err invalid_input
    | some bytes ↦
        if ltb (length bytes) 65536
        then ok (length bytes / 256 ∷ length bytes % 256 ∷ bytes)
        else err invalid_input
  ]

module _ {A : Type 0} (deserialize : List ℕ → Option A) where
  unfoldable pub decode : List ℕ → Wire (A × List ℕ)
  decode stream = elim (read_u16 stream) [
    | err e ↦ err e
    | ok (n, stream') ↦ elim (read_exact n stream') [
      | err e ↦ err e
      | ok (bytes, rest) ↦ elim (deserialize bytes) [
        | none ↦ err invalid_data
        | some message ↦ ok (message, rest)
      ]
    ]
  ]

read_exact-append :
    (bytes rest : List ℕ) → read_exact (length bytes) (bytes ++ rest) ≡ ok (bytes, rest)
unfolding read_exact
read_exact-append [] rest = refl
read_exact-append (b ∷ bytes) rest = rw (read_exact-append bytes rest) refl

big_endian : (n : ℕ) → n / 256 * 256 + n % 256 ≡ n
big_endian n = omega arith

-- A message that is encoded is its length, in two bytes, and its bytes.
encode_shape :
    {A : Type 0} (serialize : A → Option (List ℕ)) (message : A) (wire : List ℕ)
    → encode serialize message ≡ ok wire
    → (bytes : List ℕ) × (serialize message ≡ some bytes)
      × (wire ≡ length bytes / 256 ∷ length bytes % 256 ∷ bytes)
unfolding encode
encode_shape serialize message wire h = elim (Option-cases (serialize message)) [
  | inl e ↦ absurd (ground arith)
  | inr (bytes, e) ↦ (bytes, e, ground arith)
]

-- Where the deserializer reads back what the serializer wrote, a message that is encoded is decoded
-- again from the beginning of the stream, and what follows it there is left.
pub decode-encode :
    {A : Type 0} (serialize : A → Option (List ℕ)) (deserialize : List ℕ → Option A)
    → ((message : A) (bytes : List ℕ)
        → serialize message ≡ some bytes
        → deserialize bytes ≡ some message)
    → (message : A) (wire rest : List ℕ) → encode serialize message ≡ ok wire
    → decode deserialize (wire ++ rest) ≡ ok (message, rest)
unfolding decode read_u16
decode-encode serialize deserialize reads message wire rest h =
    let (bytes, e, shape) = encode_shape serialize message wire h in
    ap (λ w. decode deserialize (w ++ rest)) shape
    ∙ rw (decode, big_endian (length bytes), read_exact-append bytes rest, reads message bytes e)
        refl
