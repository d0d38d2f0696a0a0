-- ===== src/Core/Splice/ReEncode.antt =====
-- `re_encode` as arithmetic: which parts of a label it keeps and which it writes anew.
use cjdns_route_server.Base.{
  ℕ, ◌+◌, ◌*◌, ◌^◌, ◌≤◌, ◌<◌, ◌≡◌, refl, arith, Option, some, ok, false, ge→ltb, lt→ltb, gt→leb,
  ne→==, length, get_elem?, get_elem?-lt,
}
use cjdns_route_server.Base.Bits.{bit_or_fields}
use native.Mathlib.Nat.{mod-eq_of_lt}
use cjdns_route_server.Core.Label.{LabelBits, RoutingLabel, bit_size, max_payload_bits, try_new}
use cjdns_route_server.Core.Label.Bits.{top_bit, top_bit_lem}
use cjdns_route_server.Core.Scheme.{EncodingScheme, EncodingSchemeForm, scheme_eq, v358}
use cjdns_route_server.Core.Splice.{
  get_encoding_form, desired_form, legacy_director, rest_bit_length, re_encode,
}
use cjdns_route_server.Core.Splice.Laws.{max_payload-le}
use cjdns_route_server.Core.Splice.Paths.{label}
use cjdns_route_server.Core.Splice.Layout.{
  laid_out, IsWritten, used_bits, laid_out-above, laid_out-room, get_director-laid_out, laid_out-lt,
  rest-lt, parts-lt, laid_out-ne,
}

module _ (L : LabelBits) where
  rest_bit_length-eq :
      (rest : ℕ) → 1 ≤ rest → rest < 2 ^ bit_size L → rest_bit_length L rest ≡ top_bit L rest + 1
  unfolding rest_bit_length
  rest_bit_length-eq rest pos fits = rw ((top_bit_lem L rest pos fits).0, rest_bit_length)

  -- `re_encode` with its steps done: the form found, the director translated.
  pub re_encode-steps :
      (rest dir dir' i : ℕ) (scheme : EncodingScheme) (num : Option ℕ) (f g : EncodingSchemeForm)
      → IsWritten dir f
      → IsWritten dir' g
      → 1 ≤ rest
      → laid_out rest dir f < 2 ^ bit_size L
      → used_bits L rest g ≤ max_payload_bits L
      → get_encoding_form L (label L (laid_out rest dir f)) scheme ≡ ok (f, i)
      → desired_form L dir scheme num ≡ ok g
      → legacy_director L dir scheme f g ≡ ok dir'
      → re_encode L (label L (laid_out rest dir f)) scheme num ≡ ok (label L (laid_out rest dir' g))
  unfolding re_encode try_new
  re_encode-steps rest dir dir' i scheme num f g wf wg pos fits short found desired legacy =
      let rest_fits = rest-lt L rest dir f wf fits in
      let written = laid_out-lt L rest dir' g wg pos rest_fits short in
      let (upper, lower) = parts-lt L rest dir' g written in
      rw
        (
          found,
          get_director-laid_out rest dir f wf L pos fits,
          desired,
          legacy,
          lt→ltb (f.bit_count + f.prefix_len) (bit_size L) (laid_out-room rest dir f wf L pos fits),
          laid_out-above rest dir f wf,
          rest_bit_length-eq rest pos rest_fits,
          ge→ltb (max_payload_bits L) (used_bits L rest g) short,
          lt→ltb g.bit_count (bit_size L) (omega (arith, max_payload-le L)),
          mod-eq_of_lt upper,
          lt→ltb g.prefix_len (bit_size L) (omega (arith, max_payload-le L)),
          bit_or_fields g.bit_count rest dir' wg.director_fits,
          mod-eq_of_lt lower,
          bit_or_fields g.prefix_len (rest * 2 ^ g.bit_count + dir') g.prefix wg.prefix_fits,
          ne→== _ 0 (laid_out-ne L rest dir' g pos),
        )
        (unfold laid_out in refl)

  -- In every scheme but 358, `re_encode` writes the same director in the form asked for, and
  -- keeps what lies above it: where the label has a bit above its director (the self route has none),
  -- its form is found, the director fits both forms, the new form is one of the scheme, and the
  -- result fits the payload of the type.
  pub re_encode_lem :
      (rest dir i num : ℕ) (scheme : EncodingScheme) (f g : EncodingSchemeForm)
      → scheme_eq scheme v358 ≡ false
      → IsWritten dir f
      → IsWritten dir g
      → 1 ≤ rest
      → laid_out rest dir f < 2 ^ bit_size L
      → used_bits L rest g ≤ max_payload_bits L
      → get_encoding_form L (label L (laid_out rest dir f)) scheme ≡ ok (f, i)
      → num < length scheme
      → get_elem? scheme num ≡ some g
      → re_encode L (label L (laid_out rest dir f)) scheme (some num)
        ≡ ok (label L (laid_out rest dir g))
  re_encode_lem rest dir i num scheme f g other wf wg pos fits short found in_range form =
      re_encode-steps rest dir dir i scheme (some num) f g wf wg pos fits short found
        (unfold desired_form in rw (gt→leb (length scheme) num in_range, form))
        (unfold legacy_director in rw other)

  -- In every scheme but 358, re-encoding a label and then re-encoding the result to the first form
  -- gives the label back, if the label has a bit above its director, the forms are found in both
  -- labels, the director fits both and both labels fit the payload of their type.
  pub re_encode_back :
      (rest dir i num : ℕ) (scheme : EncodingScheme) (f g : EncodingSchemeForm) (l : RoutingLabel L)
      → scheme_eq scheme v358 ≡ false
      → IsWritten dir f
      → IsWritten dir g
      → 1 ≤ rest
      → laid_out rest dir f < 2 ^ bit_size L
      → used_bits L rest f ≤ max_payload_bits L
      → used_bits L rest g ≤ max_payload_bits L
      → get_encoding_form L (label L (laid_out rest dir f)) scheme ≡ ok (f, i)
      → get_encoding_form L (label L (laid_out rest dir g)) scheme ≡ ok (g, num)
      → get_elem? scheme i ≡ some f
      → get_elem? scheme num ≡ some g
      → re_encode L (label L (laid_out rest dir f)) scheme (some num) ≡ ok l
      → re_encode L l scheme (some i) ≡ ok (label L (laid_out rest dir f))
  re_encode_back rest dir i num scheme f g l other wf wg pos fits short_f short_g found_f found_g
        at_f at_g e =
      let there =
        re_encode_lem rest dir i num scheme f g other wf wg pos fits short_g found_f
          (get_elem?-lt scheme num g at_g) at_g in
      let same : label L (laid_out rest dir g) ≡ l = cc (there, e) in
      let written = laid_out-lt L rest dir g wg pos (rest-lt L rest dir f wf fits) short_g in
      rw (← same) (
        re_encode_lem rest dir num i scheme g f other wg wf pos written short_f found_g
          (get_elem?-lt scheme i f at_f) at_f)
