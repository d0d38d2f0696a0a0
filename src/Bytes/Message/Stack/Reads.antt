-- ===== src/Bytes/Message/Stack/Reads.antt =====
-- Reading takes bytes off the stack.
use native.Mathlib.Decide.{dec_le}
use cjdns_route_server.Base.{
  ℕ, ◌+◌, ◌-◌, ◌≤◌, ◌≡◌, refl, sym, ap, ◌∙◌, arith, List, [], ◌∷◌, ◌++◌, length, length-append,
  length-drop, take, drop, take-front, drop-front, take-behind, drop-behind, take-all, take-none,
  drop-none, All, ok, le→leb, gt→leb, lt→ltb, eq→==,
}
use cjdns_route_server.Bytes.Message.{Chunk, Message, len, as_vec, concat_chunks, read_loop, read}
use cjdns_route_server.Bytes.Message.Stack.Chunks.{
  IsChunk, IsSpare, content, advance, len-content, pop_chunk-ok, advance-IsChunk, advance-content,
  emptied-IsSpare,
}

-- Every chunk is in order, and the spare chunks hold nothing.
pub record IsMessage (m : Message) : Type 0 where
  pub chunks_valid : All IsChunk m.chunks
  pub spares_valid : All IsSpare m.spare_chunks

take_chunks-behind :
    (c : Chunk) (cs : List Chunk) (n : ℕ)
    → length (content c) ≤ n
    → take n (concat_chunks (c ∷ cs))
      ≡ content c ++ take (n - length (content c)) (concat_chunks cs)
unfolding concat_chunks
take_chunks-behind c cs n h = take-behind n (content c) (concat_chunks cs) h

take_chunks-front :
    (c : Chunk) (cs : List Chunk) (n : ℕ)
    → n ≤ length (content c)
    → take n (concat_chunks (c ∷ cs)) ≡ take n (content c)
unfolding concat_chunks
take_chunks-front c cs n h = take-front n (content c) (concat_chunks cs) h

pub length-chunks :
    (c : Chunk) (cs : List Chunk)
    → length (concat_chunks (c ∷ cs)) ≡ length (content c) + length (concat_chunks cs)
unfolding concat_chunks
length-chunks c cs = length-append (content c) (concat_chunks cs)

-- What is left when `count` bytes are taken off the chunks.
pub record Left (cs : List Chunk) (count : ℕ) (cs' spares' : List Chunk) : Type 0 where
  pub holds : concat_chunks cs' ≡ drop count (concat_chunks cs)
  pub chunks_valid : All IsChunk cs'
  pub spares_valid : All IsSpare spares'

-- The first chunk is used up.
pub behind-Left :
    (c : Chunk) (cs : List Chunk) (count : ℕ) (cs' spares' : List Chunk)
    → length (content c) ≤ count
    → Left cs (count - length (content c)) cs' spares'
    → Left (c ∷ cs) count cs' spares'
unfolding concat_chunks
behind-Left c cs count cs' spares' h v = record {
  holds = v.holds ∙ sym (drop-behind count (content c) (concat_chunks cs) h);
  chunks_valid = v.chunks_valid;
  spares_valid = v.spares_valid;
}

-- The first chunk is used in part.
pub front-Left :
    (c : Chunk) (cs spares : List Chunk) (count : ℕ)
    → count ≤ length (content c)
    → IsChunk c
    → All IsChunk cs
    → All IsSpare spares
    → Left (c ∷ cs) count (advance c count ∷ cs) spares
unfolding concat_chunks
front-Left c cs spares count h v vs ss = record {
  holds =
      ap (λ xs. xs ++ concat_chunks cs) (advance-content c count)
      ∙ sym (drop-front count (content c) (concat_chunks cs) h);
  chunks_valid = (advance-IsChunk c count v h, vs);
  spares_valid = ss;
}

len-advance :
    {E : Type 0} (c : Chunk) (n : ℕ)
    → IsChunk c
    → n ≤ length (content c)
    → len {E = E} (advance c n) ≡ ok (length (content c) - n)
len-advance c n v h =
    len-content (advance c n) (advance-IsChunk c n v h)
    ∙ rw (advance-content c n, length-drop n (content c)) refl

abbrev Reads : List Chunk → List Chunk → ℕ → Type 0
Reads cs spares count =
    (cs' : List Chunk) × (spares' : List Chunk) × (read_loop cs spares count
      ≡ ok (take count (concat_chunks cs), cs', spares'))
    × Left cs count cs' spares'

read_loop-Left :
    (cs spares : List Chunk) (count : ℕ)
    → All IsChunk cs
    → All IsSpare spares
    → Reads cs spares count
unfolding read_loop
read_loop-Left [] spares count vs ss = (
  [],
  spares,
  unfold concat_chunks in rw (take-none {A = ℕ} count) refl,
  record {
    holds = unfold concat_chunks in sym (drop-none count);
    chunks_valid = tt;
    spares_valid = ss;
  },
)
read_loop-Left (c ∷ cs) spares count (v, vs) ss =
    let l = length (content c) in
    elim (dec_le l count) as (λ _. Reads (c ∷ cs) spares count) [
      | yes all ↦
          let (cs', spares', run, left) =
            read_loop-Left cs (advance c l ∷ spares) (count - l) vs (emptied-IsSpare c v, ss) in
          (
            cs',
            spares',
            rw
                (
                  len-content c v,
                  le→leb l count all,
                  pop_chunk-ok c l v (omega arith),
                  len-advance c l v (omega arith),
                  eq→== (l - l) 0 (omega arith),
                  run,
                  take-all (content c),
                  take_chunks-behind c cs count all,
                )
                refl,
            behind-Left c cs count cs' spares' all left,
          )
      | no part ↦ (
        advance c count ∷ cs,
        spares,
        rw
            (
              len-content c v,
              gt→leb l count (omega arith),
              pop_chunk-ok c count v (omega arith),
              len-advance c count v (omega arith),
              lt→ltb 0 (l - count) (omega arith),
              take_chunks-front c cs count (omega arith),
            )
            refl,
        front-Left c cs spares count (omega arith) v vs ss,
      )
    ]

-- A read of a message in order returns its first bytes, as many as asked for or as there are, and
-- leaves a message in order that holds the rest.
pub read-as_vec :
    (m : Message) (count : ℕ)
    → IsMessage m
    → (m' : Message) × (read m count ≡ ok (take count (as_vec m), m'))
      × (as_vec m' ≡ drop count (as_vec m))
      × IsMessage m'
unfolding read as_vec
read-as_vec m count v =
    let (cs, spares, run, left) =
      read_loop-Left m.chunks m.spare_chunks count v.chunks_valid v.spares_valid in
    (
      record m { chunks = cs; spare_chunks = spares },
      rw run refl,
      left.holds,
      record { chunks_valid = left.chunks_valid; spares_valid = left.spares_valid },
    )
