-- ===== src/Bytes/Message.antt =====
-- cjdns-bytes/src/message.rs: a message is a stack of bytes, kept in chunks. A chunk is filled from
-- its end to its start, and the last chunk is the one in use; `Vec::push` and `Vec::pop` work at the
-- end of the list, which is the head here.
pub mod Stack
use cjdns_route_server.Base.{
  ℕ, zero, suc, ◌+◌, ◌-◌, Bool, true, false, Option, none, some, List, [], ◌∷◌, ◌++◌, length, take,
  drop, replicate, ltb, leb, ◌==◌, if◌then◌else◌, Result, ok, err, panic, ◌>>=◌, ◌>>◌, fail_if,
  assert, expect_ok,
}

pub data Overflow : Type 0 where
  overflow : Overflow

pub record Chunk : Type 0 where
  pub bytes : List ℕ
  pub offset : ℕ

-- `bytes.len() - offset`: an offset beyond the end panics.
unfoldable pub len {ℓ} : {E : Type ℓ} → Chunk → Result E ℕ
len c = if ltb (length c.bytes) c.offset then panic else ok (length c.bytes - c.offset)

unfoldable pub cap : Chunk → ℕ
cap c = c.offset

unfoldable pub new_chunk {ℓ} : {E : Type ℓ} → ℕ → Result E Chunk
new_chunk size = do assert (ltb 0 size); ok (record { bytes = replicate size 0; offset = size })

-- The methods that change a chunk return it with their answer.
unfoldable pub discard_chunk : Chunk → ℕ → Result Overflow (ℕ × Chunk)
discard_chunk c bytes = do
  l ← len c
  fail_if (ltb l bytes) overflow
  ok (bytes, record c { offset = c.offset + bytes })

-- The bytes that fill the buffer `out` of `count` bytes.
unfoldable pub pop_chunk : Chunk → ℕ → Result Overflow (List ℕ × Chunk)
pop_chunk c count = do
  l ← len c
  fail_if (ltb l count) overflow
  ok (take count (drop c.offset c.bytes), record c { offset = c.offset + count })

unfoldable pub push_chunk : Chunk → List ℕ → Result Overflow (ℕ × Chunk)
push_chunk c input = do
  fail_if (ltb (cap c) (length input)) overflow
  let o = c.offset - length input
  ok (
    length input,
    record { bytes = take o c.bytes ++ (input ++ drop c.offset c.bytes); offset = o },
  )

pub record Message : Type 0 where
  pub message_chunk_sz : ℕ
  pub chunks : List Chunk
  pub spare_chunks : List Chunk

abbrev pub default_chunk_sz : ℕ
default_chunk_sz = 4096

unfoldable pub chunk_sz : Message → ℕ
chunk_sz m = if ltb 0 m.message_chunk_sz then m.message_chunk_sz else default_chunk_sz

unfoldable pub with_chunk_size : ℕ → Message
with_chunk_size size = record { message_chunk_sz = size; chunks = []; spare_chunks = [] }

unfoldable pub new : Message
new = with_chunk_size 0

-- `iovec` and `as_vec`
unfoldable pub concat_chunks : List Chunk → List ℕ
concat_chunks [] = []
concat_chunks (c ∷ cs) = drop c.offset c.bytes ++ concat_chunks cs

unfoldable pub as_vec : Message → List ℕ
as_vec m = concat_chunks m.chunks

unfoldable pub sum_len {ℓ} : {E : Type ℓ} → List Chunk → Result E ℕ
sum_len [] = ok 0
sum_len (c ∷ cs) = do l ← len c; n ← sum_len cs; ok (l + n)

unfoldable pub message_len {ℓ} : {E : Type ℓ} → Message → Result E ℕ
message_len m = sum_len m.chunks

-- The loop of `discard`, by the chunks that are left. The message is changed on an error too, so
-- the answer stands beside it.
unfoldable pub discard_loop :
    List Chunk → List Chunk → ℕ → Result Overflow (Bool × List Chunk × List Chunk)
discard_loop [] spares bytes = ok (leb bytes 0, [], spares)
discard_loop (c ∷ cs) spares bytes = do
  chunk_len ← len c
  if leb chunk_len bytes
      then discard_chunk c chunk_len >>= (λ p. discard_loop cs (p.1 ∷ spares) (bytes - chunk_len))
      else discard_chunk c bytes >>= (λ p. ok (true, p.1 ∷ cs, spares))

-- Whether all of the bytes were there, with the message.
unfoldable pub discard : Message → ℕ → Result Overflow (Bool × Message)
discard m bytes = do
  (done, chunks, spares) ← discard_loop m.chunks m.spare_chunks bytes
  ok (done, record m { chunks = chunks; spare_chunks = spares })

-- `Result::unwrap` on the answer of `discard`
unfoldable pub clear : Message → Result Overflow Message
clear m = do n ← message_len m; (done, m') ← discard m n; assert done; ok m'

-- The chunk to write to, with the chunks and the spare chunks that are left.
unfoldable pub take_spare :
    ℕ → List Chunk → List Chunk → Result Overflow (Chunk × List Chunk × List Chunk)
take_spare size chunks [] = do c ← new_chunk size; ok (c, chunks, [])
take_spare size chunks (c ∷ spares) = do assert (cap c == length c.bytes); ok (c, chunks, spares)

unfoldable pub take_writable_chunk :
    ℕ → List Chunk → List Chunk → Result Overflow (Chunk × List Chunk × List Chunk)
take_writable_chunk size [] spares = take_spare size [] spares
take_writable_chunk size (c ∷ cs) spares =
    if ltb 0 (cap c) then ok (c, cs, spares) else take_spare size (c ∷ cs) spares

-- The loop of `Read::read`: the bytes that fill the buffer of `count` bytes, the chunks and the
-- spare chunks. A failed `unwrap` panics.
unfoldable pub read_loop :
    List Chunk → List Chunk → ℕ → Result Overflow (List ℕ × List Chunk × List Chunk)
read_loop [] spares count = ok ([], [], spares)
read_loop (c ∷ cs) spares count = do
  l ← len c
  if leb l count
      then (expect_ok (pop_chunk c l) >>= λ p. len p.1 >>= λ l'.
          assert (l' == 0) >> read_loop cs (p.1 ∷ spares) (count - l) >>= λ q.
          ok (p.0 ++ q.0, q.1, q.2))
      else (expect_ok (pop_chunk c count) >>= λ p.
          len p.1 >>= λ l'. assert (ltb 0 l') >> ok (p.0, p.1 ∷ cs, spares))

unfoldable pub read : Message → ℕ → Result Overflow (List ℕ × Message)
read m count = do
  (bytes, chunks, spares) ← read_loop m.chunks m.spare_chunks count
  ok (bytes, record m { chunks = chunks; spare_chunks = spares })

-- One round of the loop of `Write::write`: the bytes that were written, what is left of the buffer,
-- the chunks and the spare chunks. The last bytes of the buffer go first, as many as the chunk takes.
unfoldable pub write_step :
    ℕ → List Chunk → List Chunk → List ℕ → Result Overflow (ℕ × List ℕ × List Chunk × List Chunk)
write_step size chunks spares buf = do
  (c, cs, spares') ← take_writable_chunk size chunks spares
  let l = if leb (cap c) (length buf) then cap c else length buf
  (n, c') ← expect_ok (push_chunk c (drop (length buf - l) buf))
  ok (n, take (length buf - l) buf, c' ∷ cs, spares')

-- The loop, on fuel: each round writes at least one byte.
unfoldable pub write_loop :
    ℕ → ℕ → List Chunk → List Chunk → List ℕ → Result Overflow (ℕ × List Chunk × List Chunk)
write_loop fuel size chunks spares [] = ok (0, chunks, spares)
write_loop zero size chunks spares (b ∷ bs) = panic
write_loop (suc fuel) size chunks spares (b ∷ bs) = do
  (n, buf, chunks1, spares1) ← write_step size chunks spares (b ∷ bs)
  (n', chunks2, spares2) ← write_loop fuel size chunks1 spares1 buf
  ok (n + n', chunks2, spares2)

unfoldable pub write : Message → List ℕ → Result Overflow (ℕ × Message)
write m buf = do
  (n, chunks, spares) ← write_loop (length buf) (chunk_sz m) m.chunks m.spare_chunks buf
  ok (n, record m { chunks = chunks; spare_chunks = spares })
