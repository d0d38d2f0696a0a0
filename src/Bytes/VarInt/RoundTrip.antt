-- ===== src/Bytes/VarInt/RoundTrip.antt =====
-- Integers of variable length: what is written in front of a message is read back.
use cjdns_route_server.Base.{
  ℕ, ◌-◌, ◌>>=◌, ◌^◌, ◌<◌, ◌≤◌, ◌≡◌, refl, ap, ◌∙◌, subst, arith, List, [], ◌∷◌, ◌++◌, be_bytes,
  length-be_bytes, ltb, if◌then◌else◌, Result, ok, lt→ltb, ge→ltb, ne→==, ◌⊎◌, inl, inr,
}
use native.Mathlib.Decide.{dec_le}
use cjdns_route_server.Bytes.Message.{Message, as_vec, write}
use cjdns_route_server.Bytes.Message.Stack.Reads.{IsMessage}
use cjdns_route_server.Bytes.Message.Stack.Writes.{write-as_vec}
use cjdns_route_server.Bytes.VarInt.{
  VarInt, u8, u16, u32, u64, bits, IoError, ByteOrder, IsByteOrder, read_marked, read_var_int,
  write_var_int,
}

-- The bytes of a number, without the messages.
unfoldable pub var_int_bytes : ℕ → List ℕ
var_int_bytes v =
    if ltb (2 ^ 32 - 1) v
    then 0xff ∷ be_bytes 8 v
    else if ltb (2 ^ 16 - 1) v
    then 0xfe ∷ be_bytes 4 v
    else if ltb 0xfc v
    then 0xfd ∷ be_bytes 2 v
    else v ∷ []

byte_bytes : (b : ℕ) → b < 256 → be_bytes 1 b ≡ b ∷ []
unfolding be_bytes
byte_bytes b h = ap (λ x. x ∷ []) (omega arith)

bits-le : (t : VarInt) (v : ℕ) → v < 2 ^ bits t → v < 2 ^ 64
bits-le u8 v h = omega arith
bits-le u16 v h = omega arith
bits-le u32 v h = omega arith
bits-le u64 v h = h

-- The four ranges of numbers, by the bytes that they take.
width-cases :
    (v : ℕ)
    → v < 2 ^ 64
    → ((v ≤ 0xfc) ⊎ ((0xfc < v) × (v < 2 ^ 16)))
      ⊎ (((2 ^ 16 - 1 < v) × (v < 2 ^ 32)) ⊎ ((2 ^ 32 - 1 < v) × (v < 2 ^ 64)))
width-cases v h = elim (dec_le v 0xfc) [
  | yes p ↦ inl (inl p)
  | no p ↦ elim (dec_le v (2 ^ 16 - 1)) [
    | yes q ↦ inl (inr (omega arith, omega arith))
    | no q ↦ elim (dec_le v (2 ^ 32 - 1)) [
      | yes r ↦ inr (inl (omega arith, omega arith))
      | no r ↦ inr (inr (omega arith, h))
    ]
  ]
]

abbrev Wrote : Result IoError Message → Message → List ℕ → Type 0
Wrote out m bytes = (m' : Message) × (out ≡ ok m') × (as_vec m' ≡ bytes ++ as_vec m) × IsMessage m'

module _ (o : ByteOrder) (laws : IsByteOrder o) where
  read_byte : (b : ℕ) (rest : List ℕ) → b < 256 → o.read_uint 1 (b ∷ rest) ≡ ok (b, rest)
  read_byte b rest h =
      subst (λ bs. o.read_uint 1 (bs ++ rest) ≡ ok (b, rest)) (byte_bytes b h)
        (laws.read_number 1 b rest h)

  read_marked-bytes :
      (t : VarInt) (k v byte : ℕ) (rest : List ℕ)
      → v < 2 ^ bits t
      → v < 256 ^ k
      → read_marked o t k byte (be_bytes k v ++ rest) ≡ ok (v, rest)
  unfolding read_marked
  read_marked-bytes t k v byte rest h fits =
      rw (laws.read_number k v rest fits, lt→ltb v (2 ^ bits t) h) refl

  -- A number that fits its type is read from its bytes, and what follows them is left.
  pub read_var_int-bytes :
      (t : VarInt) (v : ℕ) (rest : List ℕ)
      → v < 2 ^ bits t
      → read_var_int o t (var_int_bytes v ++ rest) ≡ ok (v, rest)
  unfolding read_var_int var_int_bytes
  read_var_int-bytes t v rest h =
      elim (width-cases v (bits-le t v h))
        as (λ _. read_var_int o t (var_int_bytes v ++ rest) ≡ ok (v, rest)) [
          | inl (inl one) ↦
              rw
                (
                  ge→ltb (2 ^ 32 - 1) v (omega arith),
                  ge→ltb (2 ^ 16 - 1) v (omega arith),
                  ge→ltb 0xfc v one,
                  read_byte v rest (omega arith),
                  ne→== v 0xff (λ e. omega arith),
                  ne→== v 0xfe (λ e. omega arith),
                  ne→== v 0xfd (λ e. omega arith),
                  lt→ltb v (2 ^ bits t) h,
                )
                refl
          | inl (inr (more, two)) ↦
              rw
                (
                  ge→ltb (2 ^ 32 - 1) v (omega arith),
                  ge→ltb (2 ^ 16 - 1) v (omega arith),
                  lt→ltb 0xfc v more,
                  read_byte 0xfd (be_bytes 2 v ++ rest) (omega arith),
                  read_marked-bytes t 2 v 0xfd rest h two,
                )
                refl
          | inr (inl (more, four)) ↦
              rw
                (
                  ge→ltb (2 ^ 32 - 1) v (omega arith),
                  lt→ltb (2 ^ 16 - 1) v more,
                  read_byte 0xfe (be_bytes 4 v ++ rest) (omega arith),
                  read_marked-bytes t 4 v 0xfe rest h four,
                )
                refl
          | inr (inr (more, eight)) ↦
              rw
                (
                  lt→ltb (2 ^ 32 - 1) v more,
                  read_byte 0xff (be_bytes 8 v ++ rest) (omega arith),
                  read_marked-bytes t 8 v 0xff rest h eight,
                )
                refl
        ]

  write_number-as_vec :
      (k v : ℕ) (m : Message) → IsMessage m → Wrote (o.write_uint k v m) m (be_bytes k v)
  write_number-as_vec k v m p =
      let (m', wrote, holds, valid) = write-as_vec m (be_bytes k v) p in
      let n = length-be_bytes k v in
      (
        m',
        laws.write_number k v m m' (subst (λ n. write m (be_bytes k v) ≡ ok (n, m')) n wrote),
        holds,
        valid,
      )

  write_marked :
      (k v marker : ℕ) (m : Message)
      → marker < 256
      → IsMessage m
      → Wrote (o.write_uint k v m >>= o.write_uint 1 marker) m (marker ∷ be_bytes k v)
  write_marked k v marker m h p =
      let (m1, wrote1, holds1, valid1) = write_number-as_vec k v m p in
      let (m2, wrote2, holds2, valid2) = write_number-as_vec 1 marker m1 valid1 in
      (m2, rw wrote1 wrote2, holds2 ∙ rw (holds1, byte_bytes marker h) refl, valid2)

  write_var_int-as_vec :
      (v : ℕ) (m : Message)
      → v < 2 ^ 64
      → IsMessage m
      → Wrote (write_var_int o v m) m (var_int_bytes v)
  unfolding write_var_int var_int_bytes
  write_var_int-as_vec v m h p =
      elim (width-cases v h) as (λ _. Wrote (write_var_int o v m) m (var_int_bytes v)) [
        | inl (inl one) ↦
            rw
              (
                ge→ltb (2 ^ 32 - 1) v (omega arith),
                ge→ltb (2 ^ 16 - 1) v (omega arith),
                ge→ltb 0xfc v one,
              )
              (subst (λ bs. Wrote (o.write_uint 1 v m) m bs) (byte_bytes v (omega arith))
                (write_number-as_vec 1 v m p))
        | inl (inr (more, two)) ↦
            rw
              (
                ge→ltb (2 ^ 32 - 1) v (omega arith),
                ge→ltb (2 ^ 16 - 1) v (omega arith),
                lt→ltb 0xfc v more,
              )
              (write_marked 2 v 0xfd m (omega arith) p)
        | inr (inl (more, four)) ↦
            rw (ge→ltb (2 ^ 32 - 1) v (omega arith), lt→ltb (2 ^ 16 - 1) v more)
              (write_marked 4 v 0xfe m (omega arith) p)
        | inr (inr (more, eight)) ↦
            rw (lt→ltb (2 ^ 32 - 1) v more) (write_marked 8 v 0xff m (omega arith) p)
      ]

  -- A number that fits its type is written in front of a message in order without a panic, and the
  -- new message is in order and gives the number and the bytes of the old message back.
  pub read_var_int-write_var_int :
      (t : VarInt) (v : ℕ) (m : Message)
      → v < 2 ^ bits t
      → IsMessage m
      → (m' : Message) × (write_var_int o v m ≡ ok m')
        × IsMessage m'
        × (read_var_int o t (as_vec m') ≡ ok (v, as_vec m))
  read_var_int-write_var_int t v m h p =
      let (m', wrote, holds, valid) = write_var_int-as_vec v m (bits-le t v h) p in
      (m', wrote, valid, rw holds (read_var_int-bytes t v (as_vec m) h))
