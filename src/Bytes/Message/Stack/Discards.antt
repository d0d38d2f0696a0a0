-- ===== src/Bytes/Message/Stack/Discards.antt =====
-- Discarding takes bytes off the stack, and the length counts them.
use native.Mathlib.Decide.{dec_le}
use cjdns_route_server.Base.{
  ℕ, ◌+◌, ◌-◌, ◌≤◌, ◌≡◌, refl, sym, ◌∙◌, arith, List, [], ◌∷◌, length, drop, drop-none, drop-all,
  All, leb, ok, le→leb, gt→leb,
}
use cjdns_route_server.Bytes.Message.{
  Chunk, Message, Overflow, as_vec, concat_chunks, sum_len, message_len, discard_loop, discard,
  clear,
}
use cjdns_route_server.Bytes.Message.Stack.Chunks.{
  IsChunk, IsSpare, content, advance, len-content, discard_chunk-ok, emptied-IsSpare,
}
use cjdns_route_server.Bytes.Message.Stack.Reads.{
  IsMessage, Left, behind-Left, front-Left, length-chunks,
}

abbrev Discards : List Chunk → List Chunk → ℕ → Type 0
Discards cs spares count =
    (cs' : List Chunk) × (spares' : List Chunk) × (discard_loop cs spares count
      ≡ ok (leb count (length (concat_chunks cs)), cs', spares'))
    × Left cs count cs' spares'

leb_minus : (a b n : ℕ) → a ≤ n → leb (n - a) b ≡ leb n (a + b)
leb_minus a b n h = ground arith

discard_loop-Left :
    (cs spares : List Chunk) (count : ℕ)
    → All IsChunk cs
    → All IsSpare spares
    → Discards cs spares count
unfolding discard_loop
discard_loop-Left [] spares count vs ss = (
  [],
  spares,
  unfold concat_chunks in refl,
  record {
    holds = unfold concat_chunks in sym (drop-none count);
    chunks_valid = tt;
    spares_valid = ss;
  },
)
discard_loop-Left (c ∷ cs) spares count (v, vs) ss =
    let l = length (content c) in
    elim (dec_le l count) as (λ _. Discards (c ∷ cs) spares count) [
      | yes all ↦
          let (cs', spares', run, left) =
            discard_loop-Left cs (advance c l ∷ spares) (count - l) vs (emptied-IsSpare c v, ss) in
          (
            cs',
            spares',
            rw
                (
                  len-content c v,
                  le→leb l count all,
                  discard_chunk-ok c l v (omega arith),
                  run,
                  length-chunks c cs,
                  leb_minus l (length (concat_chunks cs)) count all,
                )
                refl,
            behind-Left c cs count cs' spares' all left,
          )
      | no part ↦ (
        advance c count ∷ cs,
        spares,
        rw
            (
              len-content c v,
              gt→leb l count (omega arith),
              discard_chunk-ok c count v (omega arith),
              le→leb count (length (concat_chunks (c ∷ cs))) (omega (arith, length-chunks c cs)),
            )
            refl,
        front-Left c cs spares count (omega arith) v vs ss,
      )
    ]

-- Discarding takes the first bytes off a message in order, all of them where there are fewer, and
-- says whether there were enough.
pub discard-as_vec :
    (m : Message) (count : ℕ)
    → IsMessage m
    → (m' : Message) × (discard m count ≡ ok (leb count (length (as_vec m)), m'))
      × (as_vec m' ≡ drop count (as_vec m))
      × IsMessage m'
unfolding discard as_vec
discard-as_vec m count v =
    let (cs, spares, run, left) =
      discard_loop-Left m.chunks m.spare_chunks count v.chunks_valid v.spares_valid in
    (
      record m { chunks = cs; spare_chunks = spares },
      rw run refl,
      left.holds,
      record { chunks_valid = left.chunks_valid; spares_valid = left.spares_valid },
    )

sum_len-length :
    (E : Type 0) (cs : List Chunk)
    → All IsChunk cs
    → sum_len {E = E} cs ≡ ok (length (concat_chunks cs))
unfolding sum_len
sum_len-length E [] vs = unfold concat_chunks in refl
sum_len-length E (c ∷ cs) (v, vs) =
    rw (len-content c v, sum_len-length E cs vs, length-chunks c cs) refl

pub message_len-as_vec :
    (E : Type 0) (m : Message) → IsMessage m → message_len {E = E} m ≡ ok (length (as_vec m))
unfolding message_len as_vec
message_len-as_vec E m v = sum_len-length E m.chunks v.chunks_valid

-- Clearing a message in order leaves it empty, and its `unwrap` does not panic.
pub clear-as_vec :
    (m : Message)
    → IsMessage m
    → (m' : Message) × (clear m ≡ ok m') × (as_vec m' ≡ []) × IsMessage m'
unfolding clear
clear-as_vec m v =
    let (m', run, holds, valid) = discard-as_vec m (length (as_vec m)) v in
    (
      m',
      rw
          (
            message_len-as_vec Overflow m v,
            run,
            le→leb (length (as_vec m)) (length (as_vec m)) (omega arith),
          )
          refl,
      holds ∙ drop-all (as_vec m),
      valid,
    )
