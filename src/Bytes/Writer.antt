-- ===== src/Bytes/Writer.antt =====
-- cjdns-bytes/src/utils.rs, `writer`: a writer is the list of the bytes written so far. The
-- capacity only reserves memory.
use cjdns_route_server.Base.{ℕ, List, [], ◌∷◌, ◌++◌, be_bytes}

abbrev pub Writer : Type 0
Writer = List ℕ

unfoldable pub with_capacity : ℕ → Writer
with_capacity capacity = []

unfoldable pub into_vec : Writer → List ℕ
into_vec w = w

unfoldable pub write_slice : Writer → List ℕ → Writer
write_slice w bytes = w ++ bytes

unfoldable pub write_u8 : Writer → ℕ → Writer
write_u8 w b = write_slice w (b ∷ [])

unfoldable pub write_u16_be : Writer → ℕ → Writer
write_u16_be w v = write_slice w (be_bytes 2 v)

unfoldable pub write_u32_be : Writer → ℕ → Writer
write_u32_be w v = write_slice w (be_bytes 4 v)

unfoldable pub write_u64_be : Writer → ℕ → Writer
write_u64_be w v = write_slice w (be_bytes 8 v)
