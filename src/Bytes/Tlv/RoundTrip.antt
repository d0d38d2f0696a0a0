-- ===== src/Bytes/Tlv/RoundTrip.antt =====
-- Encoded items are parsed back, and parsing always ends without a panic.
use native.Mathlib.Decide.{dec_le}
use cjdns_route_server.Base.{
  ℕ, zero, suc, ◌+◌, ◌-◌, ◌%◌, ◌^◌, ◌≤◌, ◌<◌, ◌≡◌, refl, sym, ap, ◌∙◌, subst, arith, some, List, [],
  ◌∷◌, ◌++◌, append_assoc, append-nil, length, length-append, get_elem?, take, drop, drop-append,
  take-append, All, Result, ok, err, lt→ltb, ge→ltb, ◌⊎◌, inl, inr,
}
use cjdns_route_server.Bytes.Tlv.{
  TlvError, invalid_item_length, truncated, Item, slice, parse_item, parse_loop, parse_tlv,
  item_length, encode_loop, encode_tlv,
}

-- The item fits its length byte.
abbrev pub IsItem : Item → Type 0
IsItem item = length item.1 ≤ 253

-- The bytes of the items, one after the other.
unfoldable wire : List Item → List ℕ
wire [] = []
wire (item ∷ items) = item.0 ∷ (length item.1 + 2) ∷ (item.1 ++ wire items)

encode_loop-wire :
    (items : List Item) (out : List ℕ)
    → All IsItem items
    → encode_loop items out ≡ ok (out ++ wire items)
unfolding encode_loop item_length wire
encode_loop-wire [] out v = rw (append-nil out) refl
encode_loop-wire (item ∷ items) out (v, vs) =
    let small : length item.1 % 2 ^ 8 ≡ length item.1 = omega arith in
    rw
      (
        small,
        lt→ltb (length item.1 + 2) (2 ^ 8) (omega arith),
        encode_loop-wire items (out ++ (item.0 ∷ (length item.1 + 2) ∷ item.1)) vs,
        append_assoc out (item.0 ∷ (length item.1 + 2) ∷ item.1) (wire items),
      )
      refl

-- What stands at the seam of an append, and behind it.
get-seam :
    (pre : List ℕ) (x : ℕ) (rest : List ℕ) → get_elem? (pre ++ (x ∷ rest)) (length pre) ≡ some x
get-seam [] x rest = refl
get-seam (p ∷ pre) x rest = get-seam pre x rest

get-behind :
    (pre : List ℕ) (x y : ℕ) (rest : List ℕ)
    → get_elem? (pre ++ (x ∷ y ∷ rest)) (length pre + 1) ≡ some y
get-behind pre x y rest =
    let same : length (pre ++ (x ∷ [])) ≡ length pre + 1 = length-append pre (x ∷ []) in
    subst (λ n. get_elem? (pre ++ (x ∷ y ∷ rest)) n ≡ some y) same
      (subst (λ xs. get_elem? xs (length (pre ++ (x ∷ []))) ≡ some y)
        (append_assoc pre (x ∷ []) (y ∷ rest)) (get-seam (pre ++ (x ∷ [])) y rest))

slice-seam :
    (front v rest : List ℕ) (first last : ℕ)
    → length front ≡ first
    → first + length v ≡ last
    → slice {E = TlvError} (front ++ (v ++ rest)) first last ≡ ok v
unfolding slice
slice-seam front v rest first last e l =
    let width : last - first ≡ length v = omega arith in
    let cut : drop first (front ++ (v ++ rest)) ≡ v ++ rest =
      subst (λ n. drop n (front ++ (v ++ rest)) ≡ v ++ rest) e (drop-append front (v ++ rest)) in
    rw
      (
        ge→ltb last first (omega arith),
        ge→ltb (length (front ++ (v ++ rest))) last
            (omega (arith, length-append front (v ++ rest), length-append v rest)),
        cut,
        width,
        take-append v rest,
      )
      refl

parse_item-seam :
    (pre : List ℕ) (t : ℕ) (v rest : List ℕ)
    → parse_item (pre ++ (t ∷ (length v + 2) ∷ (v ++ rest))) (length pre)
      ≡ ok ((t, v), length pre + (length v + 2))
unfolding parse_item
parse_item-seam pre t v rest =
    let bytes = pre ++ (t ∷ (length v + 2) ∷ (v ++ rest)) in
    let total : length bytes ≡ length pre + (2 + (length v + length rest)) =
      omega (arith, length-append pre (t ∷ (length v + 2) ∷ (v ++ rest)), length-append v rest) in
    let front = pre ++ (t ∷ (length v + 2) ∷ []) in
    let cut : slice {E = TlvError} bytes (length pre + 2) (length pre + (length v + 2)) ≡ ok v =
      subst (λ xs. slice {E = TlvError} xs (length pre + 2) (length pre + (length v + 2)) ≡ ok v)
        (append_assoc pre (t ∷ (length v + 2) ∷ []) (v ++ rest))
        (slice-seam front v rest _ _ (length-append pre (t ∷ (length v + 2) ∷ [])) (omega arith)) in
    rw
      (
        get-seam pre t ((length v + 2) ∷ (v ++ rest)),
        get-behind pre t (length v + 2) (v ++ rest),
        ge→ltb (length v + 2) 2 (omega arith),
        ge→ltb (length bytes) (length v + 2 + length pre) (omega (arith, total)),
        cut,
      )
      refl

length-wire : (items : List Item) → length items ≤ length (wire items)
unfolding wire
length-wire [] = omega arith
length-wire (item ∷ items) = omega (arith, length-append item.1 (wire items), length-wire items)

parse_loop-end :
    (fuel : ℕ) (bytes : List ℕ) (out : List Item)
    → parse_loop fuel bytes (length bytes) out ≡ ok out
unfolding parse_loop
parse_loop-end zero bytes out = rw (ge→ltb (length bytes + 1) (length bytes) (omega arith)) refl
parse_loop-end (suc fuel) bytes out =
    rw (ge→ltb (length bytes + 1) (length bytes) (omega arith)) refl

parse_loop-wire :
    (fuel : ℕ) (pre : List ℕ) (items out : List Item)
    → length items ≤ fuel
    → parse_loop fuel (pre ++ wire items) (length pre) out ≡ ok (out ++ items)
unfolding wire parse_loop
parse_loop-wire fuel pre [] out enough =
    subst (λ xs. parse_loop fuel xs (length pre) out ≡ ok (out ++ [])) (sym (append-nil pre))
      (parse_loop-end fuel pre out ∙ ap ok (sym (append-nil out)))
parse_loop-wire zero pre (item ∷ items) out enough = absurd (omega arith)
parse_loop-wire (suc fuel) pre ((t, v) ∷ items) out enough =
    let head = t ∷ (length v + 2) ∷ v in
    let total = length-append pre (t ∷ (length v + 2) ∷ (v ++ wire items)) in
    let seam : length (pre ++ head) ≡ length pre + (length v + 2) =
      omega (arith, length-append pre head) in
    let rest = parse_loop-wire fuel (pre ++ head) items (out ++ ((t, v) ∷ [])) (omega arith) in
    rw
      (
        lt→ltb (length pre + 1) (length (pre ++ (t ∷ (length v + 2) ∷ (v ++ wire items))))
            (omega (arith, total)),
        parse_item-seam pre t v (wire items),
        sym seam,
        sym (append_assoc pre head (wire items)),
        rest,
        append_assoc out ((t, v) ∷ []) items,
      )
      refl

-- Items whose values are at most 253 bytes long are encoded, and parsed back as they were.
pub parse_tlv-encode_tlv :
    (items : List Item)
    → All IsItem items
    → (bytes : List ℕ) × (encode_tlv items ≡ ok bytes) × (parse_tlv bytes ≡ ok items)
unfolding encode_tlv parse_tlv
parse_tlv-encode_tlv items v = (
  wire items,
  encode_loop-wire items [] v,
  parse_loop-wire (length (wire items)) [] items [] (length-wire items),
)

get_elem?-within : (xs : List ℕ) (i : ℕ) → i < length xs → (x : ℕ) × (get_elem? xs i ≡ some x)
get_elem?-within [] i h = absurd (omega arith)
get_elem?-within (x ∷ xs) zero h = (x, refl)
get_elem?-within (x ∷ xs) (suc i) h = get_elem?-within xs i (omega arith)

abbrev Progress : List ℕ → ℕ → Type 0
Progress bytes cursor =
    ((e : TlvError) × (parse_item bytes cursor ≡ err e))
    ⊎ ((item : Item) × (next : ℕ) × (parse_item bytes cursor ≡ ok (item, next))
        × (cursor + 2 ≤ next))

parse_item-Progress :
    (bytes : List ℕ) (cursor : ℕ) → cursor + 1 < length bytes → Progress bytes cursor
unfolding parse_item slice
parse_item-Progress bytes cursor h =
    let (t, first) = get_elem?-within bytes cursor (omega arith) in
    let (l, second) = get_elem?-within bytes (cursor + 1) h in
    elim (dec_le 2 l) [
      | no small ↦ inl (invalid_item_length l, rw (first, second, lt→ltb l 2 (omega arith)) refl)
      | yes enough ↦ elim (dec_le (l + cursor) (length bytes)) [
        | no long ↦ inl (
          truncated,
          rw (first, second, ge→ltb l 2 enough, lt→ltb (length bytes) (l + cursor) (omega arith))
              refl,
        )
        | yes within ↦ inr (
          (t, take (cursor + l - (cursor + 2)) (drop (cursor + 2) bytes)),
          cursor + l,
          rw
              (
                first,
                second,
                ge→ltb l 2 enough,
                ge→ltb (length bytes) (l + cursor) within,
                ge→ltb (cursor + l) (cursor + 2) (omega arith),
                ge→ltb (length bytes) (cursor + l) (omega arith),
              )
              refl,
          omega arith,
        )
      ]
    ]

-- A result, or an error that the code names.
abbrev pub Ends : Result TlvError (List Item) → Type 0
Ends r = ((e : TlvError) × (r ≡ err e)) ⊎ ((items : List Item) × (r ≡ ok items))

parse_loop-Ends :
    (fuel : ℕ) (bytes : List ℕ) (cursor : ℕ) (out : List Item)
    → length bytes ≤ cursor + fuel
    → Ends (parse_loop fuel bytes cursor out)
unfolding parse_loop
parse_loop-Ends zero bytes cursor out enough =
    inr (out, rw (ge→ltb (cursor + 1) (length bytes) (omega arith)) refl)
parse_loop-Ends (suc fuel) bytes cursor out enough = elim (dec_le (length bytes) (cursor + 1)) [
  | yes done ↦ inr (out, rw (ge→ltb (cursor + 1) (length bytes) done) refl)
  | no more ↦ elim (parse_item-Progress bytes cursor (omega arith)) [
    | inl (e, failed) ↦ inl (e, rw (lt→ltb (cursor + 1) (length bytes) (omega arith), failed) refl)
    | inr (item, next, parsed, further) ↦
        rw (lt→ltb (cursor + 1) (length bytes) (omega arith), parsed)
          (parse_loop-Ends fuel bytes next (out ++ (item ∷ [])) (omega arith))
  ]
]

-- Parsing any bytes ends, with the items or with an error of `TlvError`, never with a panic: the
-- loop moves on in every round, and no index is out of range.
pub parse_tlv-Ends : (bytes : List ℕ) → Ends (parse_tlv bytes)
unfolding parse_tlv
parse_tlv-Ends bytes = parse_loop-Ends (length bytes) bytes 0 [] (omega arith)
