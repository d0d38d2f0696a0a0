-- ===== src/Ctrl/Message/RoundTrip.antt =====
-- Control messages survive the wire: the checksum that is written is the one that is accepted.
use cjdns_route_server.Base.{
  ℕ, ◌+◌, ◌^◌, ◌≤◌, ◌<◌, ◌≡◌, ◌≢◌, refl, arith, List, [], ◌++◌, length, length-append, some,
  be_bytes, length-be_bytes, IsBytes, All-append, be_bytes-IsBytes, ok, eq→==, ◌>>=◌, ◌∙◌,
}
use cjdns_route_server.Bytes.Reader.{peek_remainder}
use cjdns_route_server.Bytes.Reader.Laws.{
  read_u16_be-bytes, read_remainder-all, read_not_less_than-ok,
}
use cjdns_route_server.Bytes.Writer.{with_capacity, into_vec, write_slice, write_u16_be}
use cjdns_route_server.Checksum.{cksum_raw}
use cjdns_route_server.Checksum.Laws.{cksum_raw-ok}
use cjdns_route_server.Ctrl.MessageType.{
  CtrlMessageType, error, ping, pong, key_ping, key_pong, get_super_node_query,
  get_super_node_response, to_u16, from_u16,
}
use cjdns_route_server.Ctrl.ErrorData.{ErrorData}
use cjdns_route_server.Ctrl.ErrorData.RoundTrip.{IsErrorData, parse_error-serialize_error}
use cjdns_route_server.Ctrl.PingData
use cjdns_route_server.Ctrl.PingData.{PingData}
use cjdns_route_server.Ctrl.PingData.RoundTrip.{IsPingData, ReadsAs, parse_ping-serialize_ping}
use cjdns_route_server.Ctrl.Message.{
  ping_data, error_data, super_node_query_data, extract_error_data, extract_ping_data,
  CtrlMessageData, read_fields, from_fields, parse_data, parse, serialize_data, serialize,
}

from_u16-to_u16 : (t : CtrlMessageType) → from_u16 (to_u16 t) ≡ some t
unfolding from_u16 to_u16
from_u16-to_u16 error = refl
from_u16-to_u16 ping = refl
from_u16-to_u16 pong = refl
from_u16-to_u16 key_ping = refl
from_u16-to_u16 key_pong = refl
from_u16-to_u16 get_super_node_query = refl
from_u16-to_u16 get_super_node_response = refl

to_u16-le : (t : CtrlMessageType) → to_u16 t ≤ 8
unfolding to_u16
to_u16-le t = ground arith

module _ (t : CtrlMessageType) (raw : List ℕ) where
  -- What the checksum covers.
  unfoldable covered : List ℕ
  covered = be_bytes 2 (to_u16 t) ++ raw

  length-covered : length covered ≡ 2 + length raw
  unfolding covered
  length-covered =
      omega (arith, length-append (be_bytes 2 (to_u16 t)) raw, length-be_bytes 2 (to_u16 t))

  covered-IsBytes : IsBytes raw → IsBytes covered
  unfolding covered
  covered-IsBytes h = All-append _ (be_bytes 2 (to_u16 t)) raw (be_bytes-IsBytes 2 (to_u16 t)) h

  module _ (c : ℕ) (c_fits : c < 2 ^ 16) where
    read_fields-covered :
        read_fields (be_bytes 2 c ++ covered)
        ≡ ok (
          record {
            received_checksum = c;
            after_checksum_data = covered;
            type_code = to_u16 t;
            raw_data = raw;
          },
          [],
        )
    unfolding read_fields peek_remainder covered
    read_fields-covered = rw (
      read_u16_be-bytes c (be_bytes 2 (to_u16 t) ++ raw) c_fits,
      read_u16_be-bytes (to_u16 t) raw (omega (arith, to_u16-le t)),
      read_remainder-all raw,
    )

    -- The own checksum is accepted, and the rest is left to the parser of the body.
    parse-covered :
        cksum_raw covered ≡ ok c
        → parse (be_bytes 2 c ++ covered)
          ≡ (parse_data t raw >>= λ d. ok (record { msg_type = t; msg_data = d }))
    unfolding parse from_fields
    parse-covered sum = rw (
      read_not_less_than-ok 4 read_fields (be_bytes 2 c ++ covered) _
          (omega (arith, length-append (be_bytes 2 c) covered, length-be_bytes 2 c, length-covered))
          read_fields-covered,
      sum,
      eq→== c c refl,
      from_u16-to_u16 t,
    )

  serialize-covered :
      (c : ℕ) (written : CtrlMessageData)
      → cksum_raw covered ≡ ok c
      → serialize_data t written ≡ ok raw
      → serialize (record { msg_type = t; msg_data = written }) ≡ ok (be_bytes 2 c ++ covered)
  unfolding serialize covered with_capacity into_vec write_slice write_u16_be
  serialize-covered c written sum e = rw (e, sum) refl

  -- A body that is written with the type is sealed with its checksum.
  sealed :
      (read_data written : CtrlMessageData)
      → serialize_data t written ≡ ok raw
      → parse_data t raw ≡ ok read_data
      → IsBytes raw
      → length raw ≤ 130998
      → (bytes : List ℕ) × (serialize (record { msg_type = t; msg_data = written }) ≡ ok bytes)
        × (parse bytes ≡ ok (record { msg_type = t; msg_data = read_data }))
  sealed read_data written e back valid short =
      let (c, sum, small, same) =
        cksum_raw-ok covered (covered-IsBytes valid) (omega (arith, length-covered)) in
      (
        be_bytes 2 c ++ covered,
        serialize-covered c written sum e,
        parse-covered c small sum ∙ rw back refl,
      )

-- What is read where a message was written: the switch header of an error has the current version.
unfoldable pub received : CtrlMessageData → CtrlMessageData
received (error_data d) =
    error_data (record d { switch_header = record d.switch_header { version = 1 } })
received d = d

-- A message that has the body of its type, of at most 130000 bytes, without a content that a plain ping
-- would lose.
abbrev pub IsCtrlMessage : CtrlMessageType → CtrlMessageData → Type 0
IsCtrlMessage error (error_data d) = IsErrorData d × (length d.additional ≤ 130000)
IsCtrlMessage error d = ⊥
IsCtrlMessage t (ping_data d) =
    IsPingData t d
    × (d.version < 2 ^ 32)
    × (d.version ≢ 0)
    × IsBytes (PingData.key_bytes d.key)
    × IsBytes d.content
    × (length (PingData.key_bytes d.key) + length d.content ≤ 130000)
IsCtrlMessage t d = ⊥

abbrev pub Survives : CtrlMessageType → CtrlMessageData → Type 0
Survives t d =
    (bytes : List ℕ) × (serialize (record { msg_type = t; msg_data = d }) ≡ ok bytes)
    × (parse bytes ≡ ok (record { msg_type = t; msg_data = received d }))

error-Survives :
    (d : ErrorData) → IsCtrlMessage error (error_data d) → Survives error (error_data d)
unfolding received
error-Survives d (v, short) =
    let (raw, written, size, valid, back) = parse_error-serialize_error d v in
    sealed error raw _ (error_data d) (unfold serialize_data extract_error_data in written)
      (unfold parse_data in rw back refl) valid (omega (arith, size))

ping-Survives :
    (t : CtrlMessageType) (d : PingData)
    → ReadsAs t d d
    → length (PingData.key_bytes d.key) + length d.content ≤ 130000
    → serialize_data t (ping_data d) ≡ PingData.serialize d t
    → ((raw : List ℕ) → parse_data t raw ≡ (PingData.parse raw t >>= λ x. ok (ping_data x)))
    → Survives t (ping_data d)
unfolding received
ping-Survives t d (raw, written, size, valid, back) short by_ping from_ping =
    sealed t raw (ping_data d) (ping_data d) (by_ping ∙ written) (from_ping raw ∙ rw back refl)
      valid (omega (arith, size))

-- Let a message of at most 130000 bytes be an error of a known type with a valid switch header, a
-- ping or pong without a key and with less than 32 bytes of content, or a key ping or key pong with a
-- key, where the version of a ping is a 32-bit number and not 0. It is written, and its bytes, the
-- checksum included, are accepted and read as the same message, up to the version in the switch
-- header of an error, which becomes the current one.
pub parse_message-serialize_message :
    (t : CtrlMessageType) (d : CtrlMessageData) → IsCtrlMessage t d → Survives t d
unfolding serialize_data parse_data extract_ping_data
parse_message-serialize_message error (error_data d) v = error-Survives d v
parse_message-serialize_message ping (ping_data d) (v, fits, set, kv, cv, short) =
    ping-Survives ping d (parse_ping-serialize_ping ping d fits set kv cv v) short refl
      (λ raw. refl)
parse_message-serialize_message pong (ping_data d) (v, fits, set, kv, cv, short) =
    ping-Survives pong d (parse_ping-serialize_ping pong d fits set kv cv v) short refl
      (λ raw. refl)
parse_message-serialize_message key_ping (ping_data d) (v, fits, set, kv, cv, short) =
    ping-Survives key_ping d (parse_ping-serialize_ping key_ping d fits set kv cv v) short refl
      (λ raw. refl)
parse_message-serialize_message key_pong (ping_data d) (v, fits, set, kv, cv, short) =
    ping-Survives key_pong d (parse_ping-serialize_ping key_pong d fits set kv cv v) short refl
      (λ raw. refl)
parse_message-serialize_message error (ping_data d) v = absurd v
parse_message-serialize_message error super_node_query_data v = absurd v
parse_message-serialize_message t (ping_data d) v = absurd v.0
parse_message-serialize_message t d v = absurd v
