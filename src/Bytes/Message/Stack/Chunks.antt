-- ===== src/Bytes/Message/Stack/Chunks.antt =====
-- What the methods of a chunk do to the bytes that it holds.
use cjdns_route_server.Base.{
  ℕ, ◌+◌, ◌-◌, ◌≤◌, ◌<◌, ◌≡◌, refl, sym, subst, arith, List, [], ◌++◌, length, length-append,
  length-take, length-drop, length-replicate, replicate, take, drop, drop-append, drop-all,
  drop-drop, ok, ge→ltb, lt→ltb,
}
use cjdns_route_server.Bytes.Message.{
  Chunk, len, cap, new_chunk, discard_chunk, pop_chunk, push_chunk,
}

-- The offset lies within the chunk, and the chunk is not empty.
pub record IsChunk (c : Chunk) : Type 0 where
  pub within : c.offset ≤ length c.bytes
  pub size : 0 < length c.bytes

-- A spare chunk holds nothing.
pub record IsSpare (c : Chunk) : Type 0 where
  pub unused : c.offset ≡ length c.bytes
  pub size : 0 < length c.bytes

-- The bytes that a chunk holds.
abbrev pub content : Chunk → List ℕ
content c = drop c.offset c.bytes

abbrev pub advance : Chunk → ℕ → Chunk
advance c n = record c { offset = c.offset + n }

pub len-content : {E : Type 0} (c : Chunk) → IsChunk c → len {E = E} c ≡ ok (length (content c))
unfolding len
len-content c v = rw (ge→ltb (length c.bytes) c.offset v.within, length-drop c.offset c.bytes) refl

pub pop_chunk-ok :
    (c : Chunk) (n : ℕ)
    → IsChunk c
    → n ≤ length (content c)
    → pop_chunk c n ≡ ok (take n (content c), advance c n)
unfolding pop_chunk
pop_chunk-ok c n v h = rw (len-content c v, ge→ltb (length (content c)) n h) refl

pub discard_chunk-ok :
    (c : Chunk) (n : ℕ)
    → IsChunk c
    → n ≤ length (content c)
    → discard_chunk c n ≡ ok (n, advance c n)
unfolding discard_chunk
discard_chunk-ok c n v h = rw (len-content c v, ge→ltb (length (content c)) n h) refl

pub advance-IsChunk :
    (c : Chunk) (n : ℕ) → IsChunk c → n ≤ length (content c) → IsChunk (advance c n)
advance-IsChunk c n v h = record {
  within = omega (arith, length-drop c.offset c.bytes, v.within);
  size = v.size;
}

pub advance-content : (c : Chunk) (n : ℕ) → content (advance c n) ≡ drop n (content c)
advance-content c n = drop-drop c.offset n c.bytes

pub emptied-IsSpare : (c : Chunk) → IsChunk c → IsSpare (advance c (length (content c)))
emptied-IsSpare c v = record {
  unused = omega (arith, length-drop c.offset c.bytes, v.within);
  size = v.size;
}

pub new_chunk-ok :
    {E : Type 0} (size : ℕ) → 0 < size → (c : Chunk) × (new_chunk {E = E} size ≡ ok c) × IsSpare c
unfolding new_chunk
new_chunk-ok size h = (
  record { bytes = replicate size 0; offset = size },
  rw (lt→ltb 0 size h) refl,
  record {
    unused = sym (length-replicate {A = ℕ} size 0);
    size = omega (arith, length-replicate {A = ℕ} size 0);
  },
)

pub spare-IsChunk : (c : Chunk) → IsSpare c → IsChunk c
spare-IsChunk c v = record { within = omega (arith, v.unused); size = v.size }

pub spare-content : (c : Chunk) → IsSpare c → content c ≡ []
spare-content c v = rw v.unused (drop-all c.bytes)

-- A push that fits puts its bytes in front of the content, and takes them off the capacity.
pub push_chunk-ok :
    (c : Chunk) (input : List ℕ)
    → IsChunk c
    → length input ≤ c.offset
    → (c' : Chunk) × (push_chunk c input ≡ ok (length input, c'))
      × IsChunk c'
      × (content c' ≡ input ++ content c)
unfolding push_chunk cap
push_chunk-ok c input v h =
    let o = c.offset - length input in
    let c' : Chunk = record {
      bytes = take o c.bytes ++ (input ++ drop c.offset c.bytes);
      offset = o;
    } in
    let front : length (take o c.bytes) ≡ o = length-take o c.bytes (omega (arith, v.within)) in
    let total : length c'.bytes ≡ length c.bytes = omega (
      arith,
      front,
      length-append (take o c.bytes) (input ++ drop c.offset c.bytes),
      length-append input (drop c.offset c.bytes),
      length-drop c.offset c.bytes,
      v.within,
    ) in
    (
      c',
      rw (ge→ltb c.offset (length input) h) refl,
      record { within = omega (arith, total, v.within); size = omega (arith, total, v.size) },
      subst (λ n. drop n c'.bytes ≡ input ++ content c) front
          (drop-append (take o c.bytes) (input ++ content c)),
    )
