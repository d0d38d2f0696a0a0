-- ===== src/Lib.antt =====
-- A verification library for the Rust workspace cjdns-route-server: the source routes of the cjdns
-- switch, the headers, control messages and announcements on the wire, the buffers that they are built
-- in, and the search for paths.
--
-- The parts of the program and the files that model them:
--
--   cjdns-core      A route is a label, a number whose bits are the directors of the hops below a
--                   highest bit 1. routinglabel.rs is Core/Label, encoding.rs (the forms, their
--                   validation and the well-known schemes) is Core/Scheme and (their packing into
--                   bits, `serialize_scheme` and `deserialize_scheme`) Core/Packing, pathhop.rs is
--                   Core/PathHop and splice.rs is Core/Splice: splice, get_encoding_form, re_encode,
--                   is_one_hop, build_label, routes_through and unsplice under their own names.
--   cjdns-bytes     utils.rs is Bytes/Reader and Bytes/Writer, errors.rs Bytes/Errors, message.rs
--                   (the chunked message) Bytes/Message, tlv.rs Bytes/Tlv, and var_int.rs with
--                   readext.rs Bytes/VarInt.
--   cjdns-keys      Keys: the byte forms of public keys and of the addresses derived from them.
--   cjdns-hdr       Hdr/ContentType, Hdr/DataHeader, Hdr/SwitchHeader and Hdr/RouteHeader, with
--                   `parse` and `serialize` each. They read and write with cjdns-bytes, hold labels
--                   of cjdns-core and keys of cjdns-keys.
--   netchecksum     Checksum.
--   cjdns-ctrl      Ctrl/MessageType, Ctrl/ErrorData, Ctrl/PingData and Ctrl/Message: an error holds a
--                   switch header, and a message is sealed with a checksum of netchecksum.
--   cjdns-ann       The announcements of nodes: models.rs and errors.rs are Ann/Models, and
--                   serialized_ann.rs is Ann/Packet (the packet and its signature), Ann/Parser (the
--                   header and the whole), Ann/Entities and Ann/LinkState, on the readers and the
--                   integers of cjdns-bytes and the schemes of cjdns-core. Ann/Wire is the format of
--                   the entities without the parser.
--   cjdns-snode     pathsearch/: numtraits.rs is Snode/PathSearch/Weight, frontier.rs is
--                   Snode/PathSearch/Frontier, dijkstra.rs with graph.rs Snode/PathSearch/Dijkstra.
--                   Hash maps are the association lists of Base/Maps.
--
-- How the code is read. A fallible function returns `Result` of Base/Outcome, which has one more case
-- for a panic: a failed `expect`, `unwrap` or `assert!`, an index out of range, or arithmetic that
-- overflows in a build with overflow checks. Machine integers are natural numbers; a shift to the
-- left and the operations that wrap keep their `% 2 ^ w`. A byte buffer is a list of numbers, of
-- which `IsBytes` says that they are below 256. A reader is what is left of its buffer, a writer what
-- has been written, and an operation that changes its object returns the new one. The generic type of
-- labels is an argument `L`, one of u32, u64 and u128. The closure that a parser hands to
-- `Reader::read` is a function `read_fields` of its own, and what follows it is `from_fields`. The
-- hash of cjdns-crypto is a parameter `sha512`, of which nothing is assumed. The crate byteorder is
-- the parameter `ByteOrder` of Bytes/VarInt with the laws `IsByteOrder`; what announcements take from
-- libsodium and from the crates ed25519 and hex is `External` of Ann/Models, of which `IsExternal`
-- says which bytes are signatures and keys. The path search is generic in the tags of nodes and in the weights of
-- links: tags are numbers here, and the weights (`f64` in the server) with their sum, their zero, `<`, `>=`
-- and `into_ord` are the parameter `Weight`; that `into_ord` panics at a weight that is not finite, in
-- builds with debug assertions, is in the model, as is the assertion of `add_node`. The binary search of the frontier is read as its
-- documentation has it, as the place in a sorted queue, and the assertion of `into_ord` as one on all
-- items of the queue, of which the search looks at some; the keys of a hash map come in the order of
-- the list.
--
-- Loops over lists are recursion on the list. Other loops run on fuel, and running out would be a
-- panic. The loop of `Message::write` has one round for each byte of the buffer, since every round
-- writes a byte at least; the loop of `parse_tlv` has one for each byte of its input, since the cursor
-- moves by two at least; the folding of a checksum has three rounds, since two fold a sum of 32 bits.
-- `deserialize_scheme` has a round for each bit, since a form takes ten bits at least. The loops over
-- entities and over link samples have one for each byte that is left, since a round reads a byte at
-- least. The path search has two rounds more than there are links, since a node that is taken from the
-- frontier is not put there again; the way back has one round more than there are explored nodes.
--
-- Not modelled: the text forms of labels, keys and addresses, the seed records, bencode, and the
-- services with their sockets and tasks (cjdns-admin, the rest of cjdns-snode, cjdns-nameserver and
-- the tools), which are input and output around the formats above.
pub mod Base
pub mod Bytes
pub mod Core
pub mod Keys
pub mod Hdr
pub mod Checksum
pub mod Ctrl
pub mod Ann
pub mod Snode
