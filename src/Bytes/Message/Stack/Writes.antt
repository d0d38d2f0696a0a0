-- ===== src/Bytes/Message/Stack/Writes.antt =====
-- Writing puts bytes on the stack, in front of those that it holds.
use native.Mathlib.Decide.{dec_le}
use cjdns_route_server.Base.{
  ℕ, zero, suc, ◌+◌, ◌-◌, ◌≤◌, ◌<◌, ◌≡◌, refl, sym, ap, ◌∙◌, arith, List, [], ◌∷◌, ◌++◌, length,
  length-drop, length-take, take, drop, take-append-drop, append_assoc, All, leb, ok, lt→ltb,
  ge→ltb, eq→==, if◌then◌else◌,
}
use cjdns_route_server.Bytes.Message.{
  Chunk, Message, Overflow, cap, chunk_sz, concat_chunks, as_vec, take_spare, take_writable_chunk,
  write_step, write_loop, write, with_chunk_size,
}
use cjdns_route_server.Bytes.Message.Stack.Chunks.{
  IsChunk, IsSpare, content, push_chunk-ok, new_chunk-ok, spare-IsChunk, spare-content,
}
use cjdns_route_server.Bytes.Message.Stack.Reads.{IsMessage}

-- A chunk with room, and what stands behind it.
record Room (cs : List Chunk) (c : Chunk) (cs' spares' : List Chunk) : Type 0 where
  holds : content c ++ concat_chunks cs' ≡ concat_chunks cs
  chunk_valid : IsChunk c
  room : 0 < c.offset
  chunks_valid : All IsChunk cs'
  spares_valid : All IsSpare spares'

spare-Room :
    (cs : List Chunk) (c : Chunk) (spares : List Chunk)
    → All IsChunk cs
    → IsSpare c
    → All IsSpare spares
    → Room cs c cs spares
spare-Room cs c spares vs s ss = record {
  holds = rw (spare-content c s) refl;
  chunk_valid = spare-IsChunk c s;
  room = omega (arith, s.unused, s.size);
  chunks_valid = vs;
  spares_valid = ss;
}

take_spare-Room :
    (size : ℕ) (cs spares : List Chunk)
    → 0 < size
    → All IsChunk cs
    → All IsSpare spares
    → (c : Chunk) × (spares' : List Chunk) × (take_spare size cs spares ≡ ok (c, cs, spares'))
      × Room cs c cs spares'
unfolding take_spare cap
take_spare-Room size cs [] h vs ss =
    let (c, made, s) = new_chunk-ok {E = Overflow} size h in
    (c, [], rw made refl, spare-Room cs c [] vs s tt)
take_spare-Room size cs (c ∷ spares) h vs (s, ss) =
    (c, spares, rw (eq→== c.offset (length c.bytes) s.unused) refl, spare-Room cs c spares vs s ss)

take_writable_chunk-Room :
    (size : ℕ) (cs spares : List Chunk)
    → 0 < size
    → All IsChunk cs
    → All IsSpare spares
    → (c : Chunk) × (cs' : List Chunk) × (spares' : List Chunk) × (take_writable_chunk size cs
          spares
        ≡ ok (c, cs', spares'))
      × Room cs c cs' spares'
unfolding take_writable_chunk cap
take_writable_chunk-Room size [] spares h vs ss =
    let (c, spares', run, found) = take_spare-Room size [] spares h vs ss in
    (c, [], spares', run, found)
take_writable_chunk-Room size (c ∷ cs) spares h (v, vs) ss = elim (dec_le c.offset 0) [
  | yes full ↦
      let (c', spares', run, found) = take_spare-Room size (c ∷ cs) spares h (v, vs) ss in
      (c', c ∷ cs, spares', rw (ge→ltb 0 c.offset full) run, found)
  | no room ↦ (
    c,
    cs,
    spares,
    rw (lt→ltb 0 c.offset (omega arith)) refl,
    record {
      holds = unfold concat_chunks in refl;
      chunk_valid = v;
      room = omega arith;
      chunks_valid = vs;
      spares_valid = ss;
    },
  )
]

-- What a round or the whole loop leaves, of a buffer and of the chunks.
record Written (buf : List ℕ) (cs : List Chunk) (n : ℕ) (buf' : List ℕ) (cs' spares' : List Chunk)
    : Type 0 where
  holds : buf' ++ concat_chunks cs' ≡ buf ++ concat_chunks cs
  count : n + length buf' ≡ length buf
  chunks_valid : All IsChunk cs'
  spares_valid : All IsSpare spares'

-- The bytes that a chunk with room takes: at least one.
abbrev fitting : Chunk → List ℕ → ℕ
fitting c buf = if leb (cap c) (length buf) then cap c else length buf

fitting-le :
    (c : Chunk) (buf : List ℕ)
    → 0 < c.offset
    → 0 < length buf
    → (fitting c buf ≤ c.offset) × (fitting c buf ≤ length buf) × (0 < fitting c buf)
unfolding cap
fitting-le c buf room some_bytes = ground arith

push-holds :
    (c c' : Chunk) (cs cs1 : List Chunk) (rest pushed buf : List ℕ)
    → rest ++ pushed ≡ buf
    → content c' ≡ pushed ++ content c
    → content c ++ concat_chunks cs1 ≡ concat_chunks cs
    → rest ++ concat_chunks (c' ∷ cs1) ≡ buf ++ concat_chunks cs
unfolding concat_chunks
push-holds c c' cs cs1 rest pushed buf whole top below =
    ap (λ xs. rest ++ (xs ++ concat_chunks cs1)) top
    ∙ ap (λ xs. rest ++ xs) (append_assoc pushed (content c) (concat_chunks cs1))
    ∙ ap (λ xs. rest ++ (pushed ++ xs)) below
    ∙ sym (append_assoc rest pushed (concat_chunks cs))
    ∙ ap (λ xs. xs ++ concat_chunks cs) whole

write_step-Written :
    (size : ℕ) (cs spares : List Chunk) (buf : List ℕ)
    → 0 < size
    → 0 < length buf
    → All IsChunk cs
    → All IsSpare spares
    → (n : ℕ) × (buf' : List ℕ) × (cs' : List Chunk) × (spares' : List Chunk) × (write_step size cs
          spares buf
        ≡ ok (n, buf', cs', spares'))
      × Written buf cs n buf' cs' spares'
      × (0 < n)
unfolding write_step
write_step-Written size cs spares buf h some_bytes vs ss =
    let (c, cs1, spares1, run, found) = take_writable_chunk-Room size cs spares h vs ss in
    let l = fitting c buf in
    let (le_offset, le_length, progress) = fitting-le c buf found.room some_bytes in
    let rest = take (length buf - l) buf in
    let pushed = drop (length buf - l) buf in
    let size_pushed : length pushed ≡ l = omega (arith, length-drop (length buf - l) buf) in
    let size_rest : length rest ≡ length buf - l = length-take (length buf - l) buf (omega arith) in
    let (c', push, valid, holds) = push_chunk-ok c pushed found.chunk_valid (omega arith) in
    (
      length pushed,
      rest,
      c' ∷ cs1,
      spares1,
      rw (run, push) refl,
      record {
        holds =
            push-holds c c' cs cs1 rest pushed buf (take-append-drop (length buf - l) buf) holds
              found.holds;
        count = omega arith;
        chunks_valid = (valid, found.chunks_valid);
        spares_valid = found.spares_valid;
      },
      omega arith,
    )

-- Enough fuel is one round for each byte.
write_loop-Written :
    (fuel size : ℕ) (cs spares : List Chunk) (buf : List ℕ)
    → 0 < size
    → length buf ≤ fuel
    → All IsChunk cs
    → All IsSpare spares
    → (cs' : List Chunk) × (spares' : List Chunk) × (write_loop fuel size cs spares buf
        ≡ ok (length buf, cs', spares'))
      × Written buf cs (length buf) [] cs' spares'
unfolding write_loop
write_loop-Written fuel size cs spares [] h enough vs ss = (
  cs,
  spares,
  refl,
  record { holds = refl; count = omega arith; chunks_valid = vs; spares_valid = ss },
)
write_loop-Written zero size cs spares (b ∷ bs) h enough vs ss = absurd (omega arith)
write_loop-Written (suc fuel) size cs spares (b ∷ bs) h enough vs ss =
    let (n, buf1, cs1, spares1, run, w, progress) =
      write_step-Written size cs spares (b ∷ bs) h (omega arith) vs ss in
    let (cs2, spares2, run2, w2) =
      write_loop-Written fuel size cs1 spares1 buf1 h (omega (arith, w.count)) w.chunks_valid
        w.spares_valid in
    (
      cs2,
      spares2,
      rw (run, run2, w.count) refl,
      record {
        holds = w2.holds ∙ w.holds;
        count = omega arith;
        chunks_valid = w2.chunks_valid;
        spares_valid = w2.spares_valid;
      },
    )

chunk_sz-positive : (m : Message) → 0 < chunk_sz m
unfolding chunk_sz
chunk_sz-positive m = ground arith

-- A write to a message in order takes the whole buffer, with as many rounds as the loop needs and
-- no panic, and leaves a message in order that holds the buffer in front of what it held.
pub write-as_vec :
    (m : Message) (buf : List ℕ)
    → IsMessage m
    → (m' : Message) × (write m buf ≡ ok (length buf, m'))
      × (as_vec m' ≡ buf ++ as_vec m)
      × IsMessage m'
unfolding write as_vec
write-as_vec m buf v =
    let (cs, spares, run, w) =
      write_loop-Written (length buf) (chunk_sz m) m.chunks m.spare_chunks buf (chunk_sz-positive m)
        (omega arith) v.chunks_valid v.spares_valid in
    (
      record m { chunks = cs; spare_chunks = spares },
      rw run refl,
      w.holds,
      record { chunks_valid = w.chunks_valid; spares_valid = w.spares_valid },
    )

pub with_chunk_size-IsMessage : (size : ℕ) → IsMessage (with_chunk_size size)
unfolding with_chunk_size
with_chunk_size-IsMessage size = record { chunks_valid = tt; spares_valid = tt }
