-- ===== src/Bytes/Tests.antt =====
-- The theorems on messages and on TLV lists at small ones.
use cjdns_route_server.Base.{ℕ, ◌≡◌, refl, arith, List, [], ◌∷◌, ◌++◌, length, take, drop, leb, ok}
use cjdns_route_server.Bytes.Message.{Message, as_vec, read, write, discard}
use cjdns_route_server.Bytes.Message.Stack.Reads.{IsMessage, read-as_vec}
use cjdns_route_server.Bytes.Message.Stack.Discards.{discard-as_vec}
use cjdns_route_server.Bytes.Message.Stack.Writes.{write-as_vec}
use cjdns_route_server.Bytes.Tlv.{Item, encode_tlv, parse_tlv}
use cjdns_route_server.Bytes.Tlv.RoundTrip.{Ends, parse_tlv-encode_tlv, parse_tlv-Ends}

-- Two chunks of four bytes that hold six bytes, and a spare one.
abbrev sample : Message
sample = record {
  message_chunk_sz = 4;
  chunks =
      (record { bytes = 0 ∷ 0 ∷ 1 ∷ 2 ∷ []; offset = 2 })
      ∷ (record { bytes = 3 ∷ 4 ∷ 5 ∷ 6 ∷ []; offset = 0 })
      ∷ [];
  spare_chunks = (record { bytes = 9 ∷ 9 ∷ 9 ∷ 9 ∷ []; offset = 4 }) ∷ [];
}

sample-IsMessage : IsMessage sample
sample-IsMessage = record {
  chunks_valid = (
    record { within = omega arith; size = omega arith },
    (record { within = omega arith; size = omega arith }, tt),
  );
  spares_valid = (record { unused = refl; size = omega arith }, tt);
}

read-as_vec_example :
    (m' : Message) × (read sample 3 ≡ ok (take 3 (as_vec sample), m'))
    × (as_vec m' ≡ drop 3 (as_vec sample))
    × IsMessage m'
read-as_vec_example = read-as_vec sample 3 sample-IsMessage

discard-as_vec_example :
    (m' : Message) × (discard sample 7 ≡ ok (leb 7 (length (as_vec sample)), m'))
    × (as_vec m' ≡ drop 7 (as_vec sample))
    × IsMessage m'
discard-as_vec_example = discard-as_vec sample 7 sample-IsMessage

write-as_vec_example :
    (m' : Message) × (write sample (7 ∷ 8 ∷ 9 ∷ []) ≡ ok (3, m'))
    × (as_vec m' ≡ (7 ∷ 8 ∷ 9 ∷ []) ++ as_vec sample)
    × IsMessage m'
write-as_vec_example = write-as_vec sample (7 ∷ 8 ∷ 9 ∷ []) sample-IsMessage

abbrev items : List Item
items = (1, 2 ∷ 3 ∷ []) ∷ (7, []) ∷ []

parse_tlv-encode_tlv_example :
    (bytes : List ℕ) × (encode_tlv items ≡ ok bytes) × (parse_tlv bytes ≡ ok items)
parse_tlv-encode_tlv_example = parse_tlv-encode_tlv items (omega arith, (omega arith, tt))

parse_tlv-Ends_example : Ends (parse_tlv (1 ∷ 4 ∷ 2 ∷ []))
parse_tlv-Ends_example = parse_tlv-Ends (1 ∷ 4 ∷ 2 ∷ [])
