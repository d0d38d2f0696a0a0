-- ===== src/Hdr/DataHeader/RoundTrip.antt =====
-- Data headers survive the wire, and the headers that cannot be written are refused.
use cjdns_route_server.Base.{
  ℕ, ◌*◌, ◌/◌, ◌^◌, ◌≤◌, ◌<◌, ◌≡◌, refl, sym, ◌∙◌, arith, true, false, some, none, List, [], ◌∷◌,
  length, be_bytes, length-be_bytes, ok, err, ltb, ◌==◌, if◌then◌else◌, ge→ltb, lt→ltb, Bool-cases,
  ◌⊎◌, inl, inr,
}
use cjdns_route_server.Bytes.Errors.{SerializeError}
use cjdns_route_server.Bytes.Reader.Laws.{
  read_u8-cons, skip-append, read_u16_be-last, read_exact-ok,
}
use cjdns_route_server.Bytes.Writer.{with_capacity, into_vec, write_slice, write_u8, write_u16_be}
use cjdns_route_server.Hdr.ContentType.{
  ContentType, ctrl, other, from_u16, try_to_u16, to_u32, is_other, from_u16-try_to_u16,
  try_to_u16-lt,
}
use cjdns_route_server.Hdr.DataHeader.{
  DataHeader, read_fields, parse, version_byte, serialize, version_too_wide, type_not_recognized,
  type_too_long,
}

unfoldable pub frame : ℕ → ℕ → List ℕ
frame v c = v ∷ 0 ∷ be_bytes 2 c

length-frame : (v c : ℕ) → 4 ≡ length (frame v c)
unfolding frame
length-frame v c = omega (arith, length-be_bytes 2 c)

parse-frame :
    (v c : ℕ)
    → c < 2 ^ 16
    → parse (frame v c) ≡ ok (record { version = v / 16; content_type = from_u16 c })
unfolding parse
parse-frame v c h = rw (read_exact-ok 4 read_fields (frame v c) (v, c) (length-frame v c) fields)
  where
    fields : read_fields (frame v c) ≡ ok ((v, c), [])
    fields =
        unfold read_fields frame in
        rw (read_u8-cons, skip-append 1 (0 ∷ []) (be_bytes 2 c) refl, read_u16_be-last c h)

-- The version that a header is written with.
abbrev pub written_version : ℕ → ℕ
written_version v = if v == 0 then 1 else v

is_other-none : (t : ContentType) → is_other t ≡ true → try_to_u16 t ≡ none
unfolding is_other try_to_u16 to_u32
is_other-none ctrl e = cc
is_other-none other e = refl
is_other-none t e = cc

some-not_other : (t : ContentType) (c : ℕ) → try_to_u16 t ≡ some c → is_other t ≡ false
some-not_other t c e = elim (Bool-cases (is_other t)) [
  | inl yes_other ↦ cc (is_other-none t yes_other, e)
  | inr not_other ↦ not_other
]

version_byte-eq :
    (h : DataHeader) → h.version ≤ 15 → version_byte h ≡ written_version h.version * 16
unfolding version_byte
version_byte-eq h small = ground arith

serialize-frame :
    (h : DataHeader) (code : ℕ)
    → h.version ≤ 15
    → try_to_u16 h.content_type ≡ some code
    → serialize h ≡ ok (frame (written_version h.version * 16) code)
unfolding serialize frame with_capacity into_vec write_slice write_u8 write_u16_be
serialize-frame h code small found = rw (
  ge→ltb 15 h.version small,
  some-not_other h.content_type code found,
  found,
  version_byte-eq h small,
)

-- A header whose version fits four bits and whose type has a 16-bit number is written as four
-- bytes, and these are read as the same header, with the current version filled in where it
-- was left 0.
pub parse_header-serialize_header :
    (h : DataHeader) (code : ℕ)
    → h.version ≤ 15
    → try_to_u16 h.content_type ≡ some code
    → (bytes : List ℕ) × (serialize h ≡ ok bytes)
      × (length bytes ≡ 4)
      × (parse bytes ≡ ok (record h { version = written_version h.version }))
parse_header-serialize_header h code small found =
    let v = written_version h.version in
    let high : v * 16 / 16 ≡ v = omega arith in
    (
      frame (v * 16) code,
      serialize-frame h code small found,
      sym (length-frame (v * 16) code),
      parse-frame (v * 16) code (try_to_u16-lt h.content_type code found)
          ∙ rw (high, from_u16-try_to_u16 h.content_type code found),
    )

-- `serialize` refuses every other header: a version of more than four bits, or else a content
-- type without a 16-bit number.
serialize-refused :
    (h : DataHeader)
    → (15 < h.version) ⊎ (try_to_u16 h.content_type ≡ none)
    → (e : SerializeError) × (serialize h ≡ err e)
serialize-refused h (inl big) = (version_too_wide, unfold serialize in rw (lt→ltb 15 h.version big))
serialize-refused h (inr unnumbered) = elim (Bool-cases (ltb 15 h.version)) [
  | inl big ↦ (version_too_wide, unfold serialize in rw big)
  | inr small ↦ elim (Bool-cases (is_other h.content_type)) [
    | inl yes_other ↦ (type_not_recognized, unfold serialize in rw (small, yes_other))
    | inr not_other ↦ (type_too_long, unfold serialize in rw (small, not_other, unnumbered))
  ]
]
