-- ===== src/Bytes/Tlv.antt =====
-- cjdns-bytes/src/tlv.rs: lists of items with a type and a length. The length of an item counts its
-- type and its length too.
pub mod RoundTrip
use Prim.Native.String.{String}
use cjdns_route_server.Base.{
  ℕ, zero, suc, ◌+◌, ◌-◌, ◌%◌, ◌^◌, Bool, true, false, List, [], ◌∷◌, ◌++◌, length, get_elem?, take,
  drop, ltb, if◌then◌else◌, Result, ok, err, panic, ◌>>=◌, ◌>>◌, fail_if, assert, expect,
}

pub data TlvError : Type 0 where
  invalid_item_length : ℕ → TlvError
  truncated : TlvError

-- `&bytes[first .. last]`
unfoldable pub slice {ℓ} : {E : Type ℓ} → List ℕ → ℕ → ℕ → Result E (List ℕ)
slice bytes first last =
    if ltb last first
    then panic
    else if ltb (length bytes) last
    then panic
    else ok (take (last - first) (drop first bytes))

abbrev pub Item : Type 0
Item = ℕ × List ℕ

-- One round of the loop: the item at the cursor, and the cursor behind it.
unfoldable pub parse_item : List ℕ → ℕ → Result TlvError (Item × ℕ)
parse_item bytes cursor = do
  t ← expect (get_elem? bytes cursor)
  l ← expect (get_elem? bytes (cursor + 1))
  fail_if (ltb l 2) (invalid_item_length l)
  fail_if (ltb (length bytes) (l + cursor)) truncated
  item ← slice bytes (cursor + 2) (cursor + l)
  ok ((t, item), cursor + l)

-- The loop, on fuel: each round moves the cursor by at least two.
unfoldable pub parse_loop : ℕ → List ℕ → ℕ → List Item → Result TlvError (List Item)
parse_loop zero bytes cursor out = if ltb (cursor + 1) (length bytes) then panic else ok out
parse_loop (suc fuel) bytes cursor out =
    if ltb (cursor + 1) (length bytes)
    then (parse_item bytes cursor >>= λ p. parse_loop fuel bytes p.1 (out ++ (p.0 ∷ [])))
    else ok out

unfoldable pub parse_tlv : List ℕ → Result TlvError (List Item)
parse_tlv bytes = parse_loop (length bytes) bytes 0 []

-- `v.len() as u8 + 2`, with the cast that wraps and the addition that is checked.
unfoldable pub item_length : List ℕ → Result TlvError ℕ
item_length v = let l = length v % 2 ^ 8 in if ltb (l + 2) (2 ^ 8) then ok (l + 2) else panic

unfoldable pub encode_loop : List Item → List ℕ → Result TlvError (List ℕ)
encode_loop [] out = ok out
encode_loop (item ∷ items) out = do
  l ← item_length item.1
  encode_loop items (out ++ ((item.0 ∷ l ∷ []) ++ item.1))

unfoldable pub encode_tlv : List Item → Result TlvError (List ℕ)
encode_tlv items = encode_loop items []
