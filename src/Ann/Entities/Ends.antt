-- ===== src/Ann/Entities/Ends.antt =====
-- The loop over the entities of an announcement ends.
use cjdns_route_server.Base.{
  ℕ, zero, suc, ◌-◌, ◌≤◌, ◌<◌, ◌≡◌, refl, arith, true, false, ne→==, List, [], ◌∷◌, length,
  length-drop, Result, ok, err, panic,
}
use cjdns_route_server.Bytes.Reader.Laws.{read_u8-cons}
use cjdns_route_server.Bytes.Reader.{Reader, is_empty, read_u8, read_slice}
use cjdns_route_server.Ann.Models.{External, Entity, EntityParserError}
use cjdns_route_server.Ann.Entities.{parse_step, parse_entities_loop, parse_entities_impl}

module _ (x : External) where
  parse_step-empty : (parsed : List Entity) → parse_step x parsed [] ≡ panic
  unfolding parse_step read_u8 read_slice
  parse_step-empty parsed = refl

  parse_step-shorter :
      (parsed parsed' : List Entity) (r r' : List ℕ)
      → parse_step x parsed r ≡ ok (parsed', r')
      → length r' < length r
  unfolding parse_step read_slice
  parse_step-shorter parsed parsed' [] r' h = ground (arith, parse_step-empty parsed)
  parse_step-shorter parsed parsed' (b ∷ bs) r' h =
      ground (arith, read_u8-cons b bs, length-drop (b - 1) bs)

  -- The loop without fuel: it is done where no bytes are left, and a round that fails or panics is its
  -- last.
  pub data Runs : List Entity → Reader → Result EntityParserError (List Entity) → Type 0 where
    runs_done : (parsed : List Entity) (r : Reader) → is_empty r ≡ true → Runs parsed r (ok parsed)
    runs_round :
        (parsed parsed' : List Entity) (r r' : Reader)
        (out : Result EntityParserError (List Entity))
        → is_empty r ≡ false
        → parse_step x parsed r ≡ ok (parsed', r')
        → Runs parsed' r' out
        → Runs parsed r out
    runs_err :
        (parsed : List Entity) (r : Reader) (e : EntityParserError)
        → is_empty r ≡ false
        → parse_step x parsed r ≡ err e
        → Runs parsed r (err e)
    runs_panic :
        (parsed : List Entity) (r : Reader)
        → is_empty r ≡ false
        → parse_step x parsed r ≡ panic
        → Runs parsed r panic

  -- One round, by its outcome.
  round-Runs :
      (fuel : ℕ) (parsed : List Entity) (r : Reader)
      (out : Result EntityParserError (List Entity × Reader))
      → is_empty r ≡ false
      → parse_step x parsed r ≡ out
      → ((parsed' : List Entity) (r' : Reader)
          → length r' < length r
          → Runs parsed' r' (parse_entities_loop x fuel parsed' r'))
      → Runs parsed r (parse_entities_loop x (suc fuel) parsed r)
  unfolding parse_entities_loop
  round-Runs fuel parsed r (ok (parsed', r')) more e rest =
      rw (more, e)
        (runs_round parsed parsed' r r' _ more e
          (rest parsed' r' (parse_step-shorter parsed parsed' r r' e)))
  round-Runs fuel parsed r (err f) more e rest = rw (more, e) (runs_err parsed r f more e)
  round-Runs fuel parsed r panic more e rest = rw (more, e) (runs_panic parsed r more e)

  loop-empty :
      (fuel : ℕ) (parsed : List Entity) → Runs parsed [] (parse_entities_loop x fuel parsed [])
  unfolding parse_entities_loop is_empty
  loop-empty zero parsed = runs_done parsed [] refl
  loop-empty (suc fuel) parsed = runs_done parsed [] refl

  some_left : (b : ℕ) (bs : List ℕ) → is_empty (b ∷ bs) ≡ false
  unfolding is_empty
  some_left b bs = rw (ne→== (suc (length bs)) 0 (λ e. omega arith)) refl

  parse_entities_loop-Runs :
      (fuel : ℕ) (parsed : List Entity) (r : Reader)
      → length r ≤ fuel
      → Runs parsed r (parse_entities_loop x fuel parsed r)
  parse_entities_loop-Runs fuel parsed [] h = loop-empty fuel parsed
  parse_entities_loop-Runs zero parsed (b ∷ bs) h = absurd (omega arith)
  parse_entities_loop-Runs (suc fuel) parsed (b ∷ bs) h =
      round-Runs fuel parsed (b ∷ bs) (parse_step x parsed (b ∷ bs)) (some_left b bs) refl
        (λ parsed' r' less. parse_entities_loop-Runs fuel parsed' r' (omega arith))

  -- For all bytes the loop over the entities ends, and `parse_entities_impl` gives the outcome of the
  -- loop without fuel: a chain of rounds that each read on from where the one before stopped, up to
  -- the end of the bytes or to the first round that fails or panics.
  pub parse_entities_impl-Runs : (bytes : List ℕ) → Runs [] bytes (parse_entities_impl x bytes)
  unfolding parse_entities_impl
  parse_entities_impl-Runs bytes = parse_entities_loop-Runs (length bytes) [] bytes (omega arith)
