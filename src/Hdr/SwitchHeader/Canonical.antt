-- ===== src/Hdr/SwitchHeader/Canonical.antt =====
-- What `parse` accepts: only valid headers, and those of the current version in one form only.
use cjdns_route_server.Base.{
  ℕ, ◌+◌, ◌*◌, ◌^◌, ◌<◌, ◌≡◌, sym, ap, ◌∙◌, arith, List, [], ◌∷◌, ◌++◌, length, drop, length-drop,
  All-drop, IsBytes, be_bytes, be_value, front-be_bytes, all-be_bytes, take, ok,
}
use native.Mathlib.Decide.{ℕ_discrete}
use cjdns_route_server.Base.Bits.{bit_and_mask}
use cjdns_route_server.Bytes.Reader.Laws.{read_exact-length}
use cjdns_route_server.Core.Label.{try_new}
use cjdns_route_server.Hdr.SwitchHeader.{
  SwitchHeader, read_fields, from_fields, parse, flag, serialize,
}
use cjdns_route_server.Hdr.SwitchHeader.RoundTrip.{
  IsSwitchHeader, frame, parse-frame, wire, serialize-wire,
}

-- Twelve bytes, taken apart as `parse` does.
record IsFrame (bytes : List ℕ) : Type 0 where
  l : ℕ
  a : ℕ
  b : ℕ
  p : ℕ
  same : bytes ≡ frame l a b p
  l_fits : l < 2 ^ 64
  a_fits : a < 256
  b_fits : b < 256
  p_fits : p < 2 ^ 16

tail-IsFrame :
    (l : ℕ) (rest bytes : List ℕ)
    → l < 2 ^ 64
    → IsBytes rest
    → length rest ≡ 4
    → bytes ≡ be_bytes 8 l ++ rest
    → IsFrame bytes
tail-IsFrame l [] bytes hl h e same = absurd (omega arith)
tail-IsFrame l (a ∷ []) bytes hl h e same = absurd (omega arith)
tail-IsFrame l (a ∷ b ∷ xs) bytes hl (ha, (hb, hs)) e same =
    let (two, bound) = all-be_bytes 2 xs hs (omega arith) in
    record {
      l = l;
      a = a;
      b = b;
      p = be_value xs;
      same = same ∙ unfold frame in ap (λ ys. be_bytes 8 l ++ (a ∷ b ∷ ys)) two;
      l_fits = hl;
      a_fits = ha;
      b_fits = hb;
      p_fits = bound;
    }

bytes-IsFrame : (bytes : List ℕ) → IsBytes bytes → length bytes ≡ 12 → IsFrame bytes
bytes-IsFrame bytes h e =
    let (same, bound) = front-be_bytes 8 bytes h (omega arith) in
    tail-IsFrame (be_value (take 8 bytes)) (drop 8 bytes) bytes bound (All-drop _ 8 bytes h)
      (omega (arith, length-drop 8 bytes)) same

-- The header that the fields give, field by field.
record IsFrom (l a b p : ℕ) (h : SwitchHeader) : Type 0 where
  valid : IsSwitchHeader h
  label : h.label.bits ≡ l
  congestion : h.congestion * 2 + flag h.suppress_errors ≡ a
  version : h.version * 64 + h.label_shift ≡ b
  penalty : h.penalty ≡ p

from_fields-IsFrom :
    (l a b p : ℕ) (h : SwitchHeader)
    → l < 2 ^ 64
    → a < 256
    → b < 256
    → p < 2 ^ 16
    → from_fields l a b p ≡ ok h
    → IsFrom l a b p h
unfolding from_fields try_new
from_fields-IsFrom l a b p h hl ha hb hp e = ground (arith, bit_and_mask 1 a, bit_and_mask 6 b)

parse-length : (bytes : List ℕ) (h : SwitchHeader) → parse bytes ≡ ok h → length bytes ≡ 12
unfolding parse
parse-length bytes h e = elim (ℕ_discrete 12 (length bytes)) [
  | yes same ↦ sym same
  | no other ↦ cc (rw (read_exact-length 12 read_fields bytes other, parse) at e)
]

parse-IsFrom :
    (bytes : List ℕ) (h : SwitchHeader) (f : IsFrame bytes)
    → parse bytes ≡ ok h
    → IsFrom f.l f.a f.b f.p h
parse-IsFrom bytes h f e =
    from_fields-IsFrom f.l f.a f.b f.p h f.l_fits f.a_fits f.b_fits f.p_fits
      (sym (parse-frame f.l f.a f.b f.p f.l_fits f.p_fits) ∙ ap parse (sym f.same) ∙ e)

-- Whatever `parse` accepts is twelve bytes long, and every field of the header fits its bits.
pub parse-IsSwitchHeader :
    (bytes : List ℕ) (h : SwitchHeader)
    → IsBytes bytes
    → parse bytes ≡ ok h
    → (length bytes ≡ 12) × IsSwitchHeader h
parse-IsSwitchHeader bytes h hb e =
    let size = parse-length bytes h e in
    (size, (parse-IsFrom bytes h (bytes-IsFrame bytes hb size) e).valid)

-- Where the bytes that `parse` accepts name the current version, `serialize` writes the same
-- bytes again.
pub serialize_switch-parse_switch :
    (bytes : List ℕ) (h : SwitchHeader)
    → IsBytes bytes
    → parse bytes ≡ ok h
    → h.version ≡ 1
    → serialize h ≡ ok bytes
serialize_switch-parse_switch bytes h hb e current =
    let f = bytes-IsFrame bytes hb (parse-length bytes h e) in
    let fields = parse-IsFrom bytes h f e in
    let version : 1 * 2 ^ 6 + h.label_shift ≡ f.b = omega (arith, fields.version, current) in
    serialize-wire h fields.valid
    ∙ ap ok
        (unfold wire in rw (fields.label, fields.congestion, version, fields.penalty) (sym f.same))
