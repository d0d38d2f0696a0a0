-- ===== src/Bytes/VarInt/Safe.antt =====
-- Reading an integer of variable length from any bytes: an error, or a number that fits its type.
use cjdns_route_server.Base.{
  ℕ, ◌*◌, ◌^◌, ◌<◌, ◌≡◌, ◌⊎◌, inl, inr, refl, ap, ◌∙◌, arith, List, length, take, drop, length-drop,
  be_value, front-be_bytes, IsBytes, All-drop, Result, ok, err, lt→ltb, ge→ltb, ne→==,
}
use native.Mathlib.Decide.{dec_le, ℕ_discrete}
use cjdns_route_server.Bytes.VarInt.{
  VarInt, u8, u16, u32, u64, bits, malformed_encoding, unexpected_end_of_data, value_too_big,
  io_error, ByteOrder, IsByteOrder, read_marked, read_var_int,
}

-- The outcome of a reader on the bytes `r`: an error, or a value and fewer bytes, without a panic.
abbrev pub Reads : {E A : Type 0} → (A → Type 0) → List ℕ → Result E (A × List ℕ) → Type 0
Reads {E = E} {A = A} P r out =
    ((e : E) × (out ≡ err e))
    ⊎ ((a : A) × (r' : List ℕ) × (out ≡ ok (a, r')) × P a × IsBytes r' × (length r' < length r))

pub Reads-later :
    {E A : Type 0} (P : A → Type 0) (r1 r : List ℕ) (out : Result E (A × List ℕ))
    → length r1 < length r
    → Reads P r1 out
    → Reads P r out
Reads-later P r1 r out h (inl failed) = inl failed
Reads-later P r1 r out h (inr (a, r', got, p, bytes, less)) =
    inr (a, r', got, p, bytes, omega arith)

byte-fits : (t : VarInt) (b : ℕ) → b < 256 → b < 2 ^ bits t
byte-fits u8 b h = h
byte-fits u16 b h = omega arith
byte-fits u32 b h = omega arith
byte-fits u64 b h = omega arith

module _ (o : ByteOrder) (laws : IsByteOrder o) where
  read_uint-Reads :
      (k : ℕ) (r : List ℕ) → 0 < k → IsBytes r → Reads (λ v. v < 256 ^ k) r (o.read_uint k r)
  read_uint-Reads k r positive bytes = elim (dec_le k (length r)) [
    | yes h ↦
        let (split, fits) = front-be_bytes k r bytes h in
        let v = be_value (take k r) in
        let got : o.read_uint k r ≡ ok (v, drop k r) =
          ap (o.read_uint k) split ∙ laws.read_number k v (drop k r) fits in
        inr (v, drop k r, got, fits, All-drop _ k r bytes, omega (arith, length-drop k r))
    | no h ↦ inl (io_error, laws.read_short k r (omega arith))
  ]

  read_marked-Reads :
      (t : VarInt) (k byte : ℕ) (r : List ℕ)
      → 0 < k
      → IsBytes r
      → Reads (λ v. v < 2 ^ bits t) r (read_marked o t k byte r)
  unfolding read_marked
  read_marked-Reads t k byte r positive bytes =
      elim (read_uint-Reads k r positive bytes)
        as (λ _. Reads (λ v. v < 2 ^ bits t) r (read_marked o t k byte r)) [
          | inl (e, failed) ↦ inl (malformed_encoding k byte, rw failed refl)
          | inr (v, r', got, fits, bytes', less) ↦
              elim (dec_le (2 ^ bits t) v)
                as (λ _. Reads (λ v. v < 2 ^ bits t) r (read_marked o t k byte r)) [
                  | yes h ↦
                      inl (value_too_big v (bits t) (k * 8), rw (got, ge→ltb v (2 ^ bits t) h) refl)
                  | no h ↦ inr (
                    v,
                    r',
                    rw (got, lt→ltb v (2 ^ bits t) (omega arith)) refl,
                    omega arith,
                    bytes',
                    less,
                  )
                ]
        ]

  abbrev Safe : VarInt → List ℕ → Type 0
  Safe t r = Reads (λ v. v < 2 ^ bits t) r (read_var_int o t r)

  -- The four cases behind the first byte.
  read_var_int-byte :
      (t : VarInt) (b : ℕ) (r r' : List ℕ)
      → o.read_uint 1 r ≡ ok (b, r')
      → b < 256
      → IsBytes r'
      → length r' < length r
      → Safe t r
  unfolding read_var_int
  read_var_int-byte t b r r' got fits bytes less =
      let later : (k marker : ℕ)
          → 0 < k
          → Reads (λ v. v < 2 ^ bits t) r (read_marked o t k marker r') =
        λ k marker positive.
          Reads-later (λ v. v < 2 ^ bits t) r' r (read_marked o t k marker r') less
            (read_marked-Reads t k marker r' positive bytes) in
      elim (ℕ_discrete b 0xff) as (λ _. Safe t r) [
        | yes e ↦ rw (got, e) (later 8 0xff (omega arith))
        | no a ↦ elim (ℕ_discrete b 0xfe) as (λ _. Safe t r) [
          | yes e ↦ rw (got, e) (later 4 0xfe (omega arith))
          | no c ↦ elim (ℕ_discrete b 0xfd) as (λ _. Safe t r) [
            | yes e ↦ rw (got, e) (later 2 0xfd (omega arith))
            | no d ↦ inr (
              b,
              r',
              rw
                  (
                    got,
                    ne→== b 0xff a,
                    ne→== b 0xfe c,
                    ne→== b 0xfd d,
                    lt→ltb b (2 ^ bits t) (byte-fits t b fits),
                  )
                  refl,
              byte-fits t b fits,
              bytes,
              less,
            )
          ]
        ]
      ]

  -- Reading an integer from any bytes ends with an error, or with a number that fits its type and
  -- fewer bytes than there were; it never panics.
  pub read_var_int-Reads : (t : VarInt) (r : List ℕ) → IsBytes r → Safe t r
  unfolding read_var_int
  read_var_int-Reads t r bytes = elim (read_uint-Reads 1 r (omega arith) bytes) as (λ _. Safe t r) [
    | inl (e, failed) ↦ inl (unexpected_end_of_data, rw failed refl)
    | inr (b, r', got, fits, bytes', less) ↦ read_var_int-byte t b r r' got fits bytes' less
  ]
