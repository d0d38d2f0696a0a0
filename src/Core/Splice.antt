-- ===== src/Core/Splice.antt =====
-- cjdns-core/src/splice.rs: splicing, unsplicing and re-encoding of routing labels. A panic stands
-- for an `expect` on a zero label, a shift by the width of the type, or a `u32` below zero.
pub mod Laws
pub mod Paths
pub mod Inverse
pub mod Layout
pub mod Forms
pub mod ReEncode
pub mod Legacy
mod Tests
mod Examples
use cjdns_route_server.Base.{
  ℕ, ◌+◌, ◌-◌, ◌*◌, ◌/◌, ◌%◌, ◌^◌, Bool, false, not, ◌&&◌, Option, none, some, List, [], ◌∷◌, ◌++◌,
  reverse, length, get_elem?, take, drop, ltb, leb, ◌==◌, if◌then◌else◌,
}
use cjdns_route_server.Base.{Result, ok, err, panic, ◌>>=◌, ◌>>◌, fail_if, assert, ok_or, expect}
use Prim.Native.Nat.{bit_and, bit_or, bit_xor}
use cjdns_route_server.Core.Label.{
  LabelBits, RoutingLabel, bit_size, max_payload_bits, highest_set_bit, try_new,
}
use cjdns_route_server.Core.Scheme.{
  EncodingScheme, EncodingSchemeForm, form_eq, scheme_eq, v358, v358_0, v358_1,
}
use cjdns_route_server.Core.PathHop.{PathHop}

-- The value that `RoutingLabel::try_new` refused stands for its text.
pub data SpliceError : Type 0 where
  label_too_long not_enough_arguments bad_argument cannot_unsplice cannot_find_form : SpliceError
  cannot_reencode routes_through_failed highest_set_bit_is_broken : SpliceError
  routing_label_try_new_failed : ℕ → SpliceError

module _ (L : LabelBits) where
  -- `<<` and `>>` of the label's type.
  abbrev pub shl : ℕ → ℕ → Result SpliceError ℕ
  shl x n = if ltb n (bit_size L) then ok (x * 2 ^ n % 2 ^ bit_size L) else panic

  abbrev pub shr : ℕ → ℕ → Result SpliceError ℕ
  shr x n = if ltb n (bit_size L) then ok (x / 2 ^ n) else panic

  -- `-` on unsigned numbers.
  abbrev pub sub : ℕ → ℕ → Result SpliceError ℕ
  sub x y = if ltb x y then panic else ok (x - y)

  unfoldable pub label_highest_set_bit : RoutingLabel L → Result SpliceError ℕ
  label_highest_set_bit label = expect (highest_set_bit L label.bits)

  -- The loop of `splice` over the labels that are left.
  unfoldable pub splice_loop : ℕ → List (RoutingLabel L) → Result SpliceError ℕ
  splice_loop result_bits [] = ok result_bits
  splice_loop result_bits (addon ∷ rest) = do
    addon_bitlen ← label_highest_set_bit addon
    result_hsb ← expect (highest_set_bit L result_bits)
    fail_if (ltb (max_payload_bits L - 1) (result_hsb + addon_bitlen)) label_too_long
    shifted ← shl (bit_xor result_bits 1) addon_bitlen
    splice_loop (bit_xor shifted addon.bits) rest

  unfoldable pub splice : List (RoutingLabel L) → Result SpliceError (RoutingLabel L)
  splice labels = do
    fail_if (ltb (length labels) 2) not_enough_arguments
    first ← expect (get_elem? labels 0)
    result_bits ← splice_loop first.bits (drop 1 labels)
    ok_or (try_new L result_bits) (routing_label_try_new_failed result_bits)

  -- The loop of `get_encoding_form` from form number `i` on.
  unfoldable pub get_encoding_form_from :
      RoutingLabel L → ℕ → EncodingScheme → Result SpliceError (EncodingSchemeForm × ℕ)
  get_encoding_form_from label i [] = err cannot_find_form
  get_encoding_form_from label i (form ∷ forms) =
      let rest = get_encoding_form_from label (i + 1) forms in
      if form.prefix_len == 0
      then ok (form, i)
      else (assert (ltb form.prefix_len 32)
          >> (let mask = 2 ^ form.prefix_len - 1 in
              if bit_and label.bits mask == form.prefix then ok (form, i) else rest))

  unfoldable pub get_encoding_form :
      RoutingLabel L → EncodingScheme → Result SpliceError (EncodingSchemeForm × ℕ)
  get_encoding_form label scheme = get_encoding_form_from label 0 scheme

  unfoldable pub get_director : RoutingLabel L → EncodingSchemeForm → Result SpliceError ℕ
  get_director label form = do
    room ← sub (bit_size L) form.bit_count
    padding ← sub room form.prefix_len
    shifted ← shl label.bits padding
    shr shifted (padding + form.prefix_len)

  unfoldable pub director_bit_length : ℕ → ℕ
  director_bit_length dir = elim (highest_set_bit L dir) [ none ↦ 0 + 1 | some h ↦ h + 1 ]

  -- `filter` and `min_by_key`, which keeps the first of equal keys.
  unfoldable pub shortest_from : ℕ → EncodingScheme → Option EncodingSchemeForm
  shortest_from dir_bits [] = none
  shortest_from dir_bits (form ∷ forms) =
      let rest = shortest_from dir_bits forms in
      if leb dir_bits form.bit_count
      then elim rest [
        | none ↦ some form
        | some best ↦ if ltb best.bit_count form.bit_count then some best else some form
      ]
      else rest

  unfoldable pub find_shortest_form : ℕ → EncodingScheme → Result SpliceError EncodingSchemeForm
  find_shortest_form dir scheme =
      ok_or (shortest_from (director_bit_length dir) scheme) cannot_find_form

  unfoldable pub is_358_zero_form : EncodingSchemeForm → Bool
  is_358_zero_form f = form_eq f v358_0

  -- The form that `re_encode` is asked for, or the shortest that holds the director.
  unfoldable pub desired_form :
      ℕ → EncodingScheme → Option ℕ → Result SpliceError EncodingSchemeForm
  desired_form dir scheme none = find_shortest_form dir scheme
  desired_form dir scheme (some num) = do
    fail_if (leb (length scheme) num) bad_argument
    expect (get_elem? scheme num)

  -- The directors of the legacy scheme 358 count from 1 in its first form. `form` is the label's
  -- own form and `desired` the form asked for.
  unfoldable pub director_358 : ℕ → EncodingSchemeForm → EncodingSchemeForm → Result SpliceError ℕ
  director_358 dir form desired = do
    let desired' = if is_358_zero_form desired && dir == 0b111 then v358_1 else desired
    fail_if (is_358_zero_form form && dir == 0) cannot_reencode
    let dir' = if is_358_zero_form form then dir - 1 else dir
    ok (if is_358_zero_form desired' then dir' + 1 else dir')

  unfoldable pub legacy_director :
      ℕ → EncodingScheme → EncodingSchemeForm → EncodingSchemeForm → Result SpliceError ℕ
  legacy_director dir scheme form desired =
      if scheme_eq scheme v358 then director_358 dir form desired else ok dir

  -- `highest_set_bit` with its two cases: the number of bits of the label above its first director.
  unfoldable pub rest_bit_length : ℕ → ℕ
  rest_bit_length bits = elim (highest_set_bit L bits) [ none ↦ 0 | some len ↦ len + 1 ]

  unfoldable pub re_encode :
      RoutingLabel L → EncodingScheme → Option ℕ → Result SpliceError (RoutingLabel L)
  re_encode label scheme desired_form_num = do
    (form, i) ← get_encoding_form label scheme
    dir ← get_director label form
    desired ← desired_form dir scheme desired_form_num
    dir' ← legacy_director dir scheme form desired
    rest ← shr label.bits (form.bit_count + form.prefix_len)
    let used_bits = rest_bit_length rest + desired.bit_count + desired.prefix_len
    fail_if (ltb (max_payload_bits L) used_bits) label_too_long
    with_room ← shl rest desired.bit_count
    with_dir ← shl (bit_or with_room dir') desired.prefix_len
    let result_bits = bit_or with_dir desired.prefix
    ok_or (try_new L result_bits) (routing_label_try_new_failed result_bits)

  unfoldable pub is_one_hop : RoutingLabel L → EncodingScheme → Result SpliceError Bool
  is_one_hop label scheme = do
    (form, i) ← get_encoding_form label scheme
    let form_bits = form.bit_count + form.prefix_len
    h ← label_highest_set_bit label
    ok (h == form_bits)

  unfoldable pub routes_through : RoutingLabel L → RoutingLabel L → Result SpliceError Bool
  routes_through destination mid_path = do
    dest_highest_set_bit ← label_highest_set_bit destination
    mid_path_highest_set_bit ← label_highest_set_bit mid_path
    one ← shl 1 mid_path_highest_set_bit
    let mask = one - 1
    ok (
        if ltb dest_highest_set_bit mid_path_highest_set_bit
        then false
        else bit_and destination.bits mask == bit_and mid_path.bits mask)

  unfoldable pub unsplice : RoutingLabel L → RoutingLabel L → Result SpliceError (RoutingLabel L)
  unsplice destination mid_path = do
    through ← routes_through destination mid_path
    fail_if (not through) routes_through_failed
    h ← label_highest_set_bit mid_path
    bits ← shr destination.bits h
    ok_or (try_new L bits) highest_set_bit_is_broken

  -- The hop of a middle node: its next label, re-encoded where the way back is wider.
  unfoldable pub hop_label : PathHop L → Result SpliceError (RoutingLabel L)
  hop_label hop = elim hop.label_p [
    | none ↦ err bad_argument
    | some label_p ↦ elim hop.label_n [
      | none ↦ err bad_argument
      | some label_n ↦ do
        (form_p, form_idx) ← get_encoding_form label_p hop.encoding_scheme
        (form_n, i) ← get_encoding_form label_n hop.encoding_scheme
        let narrower =
            ltb (form_n.bit_count + form_n.prefix_len) (form_p.bit_count + form_p.prefix_len)
        if narrower then re_encode label_n hop.encoding_scheme (some form_idx) else ok label_n
    ]
  ]

  -- The loop over the middle hops: it pushes their labels to the path.
  unfoldable pub build_path :
      List (RoutingLabel L) → List (PathHop L) → Result SpliceError (List (RoutingLabel L))
  build_path ret_path [] = ok ret_path
  build_path ret_path (hop ∷ hops) = do
    label_n ← hop_label hop
    build_path (ret_path ++ (label_n ∷ [])) hops

  -- `map_or(Ok(()), |_| Err(BadArgument))`
  abbrev must_be_none : Option (RoutingLabel L) → Result SpliceError (Unit {0})
  must_be_none none = ok tt
  must_be_none (some l) = err bad_argument

  unfoldable pub build_label_impl :
      PathHop L
      → List (PathHop L)
      → PathHop L
      → Result SpliceError (RoutingLabel L × List (RoutingLabel L))
  build_label_impl first_hop mid_hops last_hop = do
    first_hop_label_n ← ok_or first_hop.label_n bad_argument
    last_hop_label_p ← ok_or last_hop.label_p bad_argument
    must_be_none first_hop.label_p
    must_be_none last_hop.label_n
    ret_path ← build_path (first_hop_label_n ∷ []) mid_hops
    ret_label ←
        (if ltb 1 (length ret_path) then splice (reverse ret_path) else ok first_hop_label_n)
    ok (ret_label, ret_path)

  unfoldable pub build_label :
      List (PathHop L) → Result SpliceError (RoutingLabel L × List (RoutingLabel L))
  build_label path_hops = do
    fail_if (ltb (length path_hops) 2) not_enough_arguments
    first_hop ← expect (get_elem? path_hops 0)
    last_hop ← expect (get_elem? path_hops (length path_hops - 1))
    build_label_impl first_hop (take (length path_hops - 2) (drop 1 path_hops)) last_hop
