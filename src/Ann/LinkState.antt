-- ===== src/Ann/LinkState.antt =====
-- cjdns-ann/src/serialized_ann.rs, `parse_link_state`: samples of the quality of a link, in rings of
-- eighteen slots.
pub mod Safe
use cjdns_route_server.Base.{
  ℕ, zero, suc, ◌+◌, ◌%◌, not, some, List, [], ◌∷◌, length, set_elem?, leb, ◌==◌, if◌then◌else◌,
  Result, ok, panic, ◌>>=◌, ◌>>◌, fail_if, expect, map_err,
}
use cjdns_route_server.Bytes.Reader.{Reader, read_u8, read_slice, is_empty}
use cjdns_route_server.Bytes.VarInt.{u8, u16, u32, ByteOrder, read_var_int}
use cjdns_route_server.Ann.Models.{
  EntityParserError, insufficient_data, bad_data, link_state_slots, LinkStateSlots, default_slots,
  Entity, link_state,
}

abbrev Parsing : Type 0 → Type 0
Parsing A = Result EntityParserError A

-- `filter(|&&x| x == 0).count()`
unfoldable pub count_zeros : List ℕ → ℕ
count_zeros [] = 0
count_zeros (b ∷ bs) = if b == 0 then 1 + count_zeros bs else count_zeros bs

unfoldable pub read_pads : Reader → Result EntityParserError Reader
read_pads r = do
  (pads_amount, r1) ← map_err (read_u8 r) insufficient_data
  (pads, r2) ← map_err (read_slice pads_amount r1) insufficient_data
  fail_if (not (count_zeros pads == pads_amount)) (bad_data "non zero pad")
  ok r2

-- The three arrays.
pub record Slots : Type 0 where
  pub lag_slots : LinkStateSlots
  pub drop_slots : LinkStateSlots
  pub kb_recv_slots : LinkStateSlots

abbrev pub empty_slots : Slots
empty_slots = record {
  lag_slots = default_slots;
  drop_slots = default_slots;
  kb_recv_slots = default_slots;
}

module _ (o : ByteOrder) where
  -- One round: a sample for each of the arrays.
  unfoldable pub read_sample : ℕ → Slots → Reader → Result EntityParserError (Slots × Reader)
  read_sample i s r = do
    (lag, r1) ←
        map_err (read_var_int o u16 r)
          (bad_data "can't create log_slots sample from received bytes")
    lag_slots ← expect (set_elem? s.lag_slots i (some lag))
    (dropped, r2) ←
        map_err (read_var_int o u16 r1)
          (bad_data "can't create drop_slots sample from received bytes")
    drop_slots ← expect (set_elem? s.drop_slots i (some dropped))
    (kb_recv, r3) ←
        map_err (read_var_int o u32 r2)
          (bad_data "cant create kb_recv_slots sample from received bytes")
    kb_recv_slots ← expect (set_elem? s.kb_recv_slots i (some kb_recv))
    ok (
      record { lag_slots = lag_slots; drop_slots = drop_slots; kb_recv_slots = kb_recv_slots },
      r3,
    )

  -- The loop, on fuel: every sample takes three bytes at least.
  unfoldable pub read_samples : ℕ → ℕ → Slots → Reader → Result EntityParserError Slots
  read_samples zero i s r = if is_empty r then ok s else panic
  read_samples (suc fuel) i s r =
      if is_empty r
      then ok s
      else (do (s', r') ← read_sample i s r; read_samples fuel ((i + 1) % link_state_slots) s' r')

  unfoldable pub parse_link_state : List ℕ → Result EntityParserError Entity
  parse_link_state link_state_data = do
    r1 ← read_pads link_state_data
    (node_id, r2) ←
        map_err (read_var_int o u16 r1) (bad_data "can't create node id from received bytes")
    (slots_start_idx, r3) ←
        map_err (read_var_int o u8 r2) (bad_data "can't create slots idx from received bytes")
    fail_if (leb link_state_slots slots_start_idx) (bad_data "slots index out of bounds")
    fail_if (is_empty r3) (bad_data "empty slots")
    s ← read_samples (length r3) slots_start_idx empty_slots r3
    ok (
        link_state (record {
          node_id = node_id;
          starting_point = slots_start_idx;
          lag_slots = s.lag_slots;
          drop_slots = s.drop_slots;
          kb_recv_slots = s.kb_recv_slots;
        }))
