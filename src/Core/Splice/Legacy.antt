-- ===== src/Core/Splice/Legacy.antt =====
-- `re_encode` in the legacy scheme 358, whose first form counts directors from 1.
use cjdns_route_server.Base.{ℕ, ◌+◌, ◌%◌, ◌^◌, ◌≤◌, ◌<◌, ◌≡◌, refl, arith, some, ok}
use cjdns_route_server.Base.Bits.{bit_and_mask}
use cjdns_route_server.Core.Label.{LabelBits, bit_size, max_payload_bits}
use cjdns_route_server.Core.Scheme.{EncodingSchemeForm, v358, v358_0, v358_1, form_eq, scheme_eq}
use cjdns_route_server.Core.Splice.{
  get_encoding_form, get_encoding_form_from, desired_form, legacy_director, director_358,
  is_358_zero_form, re_encode,
}
use cjdns_route_server.Core.Splice.Paths.{label}
use cjdns_route_server.Core.Splice.Layout.{laid_out, IsWritten, used_bits, laid_out-lt}
use cjdns_route_server.Core.Splice.ReEncode.{re_encode-steps}

module _ (L : LabelBits) where
  found_0 :
      (rest dir : ℕ)
      → get_encoding_form L (label L (laid_out rest dir v358_0)) v358 ≡ ok (v358_0, 0)
  unfolding get_encoding_form get_encoding_form_from laid_out
  found_0 rest dir =
      let n = laid_out rest dir v358_0 in
      let low : n % 2 ≡ 1 = omega arith in rw (bit_and_mask 1 n, low)

  found_1 :
      (rest dir : ℕ)
      → get_encoding_form L (label L (laid_out rest dir v358_1)) v358 ≡ ok (v358_1, 1)
  unfolding get_encoding_form get_encoding_form_from laid_out
  found_1 rest dir =
      let n = laid_out rest dir v358_1 in
      let low : n % 2 ≡ 0 = omega arith in
      let two : n % 4 ≡ 2 = omega arith in rw (bit_and_mask 1 n, low, bit_and_mask 2 n, two)

  -- `rest` is what lies above the first director, with room for the wider of the two forms.
  module _ (rest : ℕ) (pos : 1 ≤ rest) (rest_fits : rest < 2 ^ bit_size L)
      (short : used_bits L rest v358_1 ≤ max_payload_bits L) where
    to_0 :
        (dir dir' : ℕ)
        → dir < 32
        → dir' < 8
        → legacy_director L dir v358 v358_1 v358_0 ≡ ok dir'
        → re_encode L (label L (laid_out rest dir v358_1)) v358 (some 0)
          ≡ ok (label L (laid_out rest dir' v358_0))
    to_0 dir dir' h h' legacy =
        let w : IsWritten dir v358_1 = omega arith in
        re_encode-steps L rest dir dir' 1 v358 (some 0) v358_1 v358_0 w (omega arith) pos
          (laid_out-lt L rest dir v358_1 w pos rest_fits short) (omega arith) (found_1 rest dir)
          (unfold desired_form in refl) legacy

    from_0 :
        (dir dir' num : ℕ) (g : EncodingSchemeForm)
        → dir < 8
        → IsWritten dir' g
        → used_bits L rest g ≤ max_payload_bits L
        → desired_form L dir v358 (some num) ≡ ok g
        → legacy_director L dir v358 v358_0 g ≡ ok dir'
        → re_encode L (label L (laid_out rest dir v358_0)) v358 (some num)
          ≡ ok (label L (laid_out rest dir' g))
    from_0 dir dir' num g h w' short' desired legacy =
        let w : IsWritten dir v358_0 = omega arith in
        re_encode-steps L rest dir dir' 0 v358 (some num) v358_0 g w w' pos
          (laid_out-lt L rest dir v358_0 w pos rest_fits (omega arith)) short' (found_0 rest dir)
          desired legacy

    -- In scheme 358, going from the first form to the second takes 1 from the director, and
    -- going back adds it, for every director of the second form below 7, where what lies above the
    -- director leaves room for the second form.
    pub re_encode-358 :
        (dir : ℕ)
        → dir < 7
        → (re_encode L (label L (laid_out rest (dir + 1) v358_0)) v358 (some 1)
            ≡ ok (label L (laid_out rest dir v358_1)))
          × (re_encode L (label L (laid_out rest dir v358_1)) v358 (some 0)
              ≡ ok (label L (laid_out rest (dir + 1) v358_0)))
    re_encode-358 dir h = (
      from_0 (dir + 1) dir 1 v358_1 (omega arith) (omega arith) short (unfold desired_form in refl)
          (unfold legacy_director director_358 is_358_zero_form form_eq scheme_eq in ground arith),
      to_0 dir (dir + 1) (omega arith) (omega arith)
          (unfold legacy_director director_358 is_358_zero_form form_eq scheme_eq in ground arith),
    )

    -- In scheme 358, the directors 6 and 7 of the second form are re-encoded to the same label in
    -- the first form, and re-encoding director 7 of the first form to the form that it has gives
    -- director 6, where what lies above the director leaves room for the second form.
    pub re_encode-358_collision :
        (re_encode L (label L (laid_out rest 6 v358_1)) v358 (some 0)
          ≡ ok (label L (laid_out rest 7 v358_0)))
        × (re_encode L (label L (laid_out rest 7 v358_1)) v358 (some 0)
            ≡ ok (label L (laid_out rest 7 v358_0)))
        × (re_encode L (label L (laid_out rest 7 v358_0)) v358 (some 0)
            ≡ ok (label L (laid_out rest 6 v358_0)))
    unfolding legacy_director director_358 is_358_zero_form form_eq scheme_eq desired_form
    re_encode-358_collision = (
      to_0 6 7 (omega arith) (omega arith) refl,
      to_0 7 7 (omega arith) (omega arith) refl,
      from_0 7 6 0 v358_0 (omega arith) (omega arith) (omega arith) refl refl,
    )
