-- ===== src/Ann/LinkState/Safe.antt =====
-- Link states are parsed from any bytes without a panic, and what is parsed is in order.
use cjdns_route_server.Base.{
  ℕ, zero, suc, ◌+◌, ◌%◌, ◌^◌, ◌<◌, ◌≤◌, ◌≡◌, ◌⊎◌, inl, inr, refl, ap, ◌∙◌, arith, Option, some,
  List, [], ◌∷◌, length, set_elem?, drop, take, IsBytes, All-drop, Result, ok, err, map_err, expect,
  lt→ltb, ge→ltb, ne→==, ◌==◌, not, ◌>>=◌, fail_if, leb, Bool, true, false,
}
use native.Mathlib.Decide.{dec_le}
use cjdns_route_server.Bytes.Reader.Laws.{read_u8-cons}
use cjdns_route_server.Bytes.Reader.{read_u8, read_slice, is_empty}
use cjdns_route_server.Bytes.VarInt.{
  VarInt, u8, u16, u32, bits, ByteOrder, IsByteOrder, read_var_int,
}
use cjdns_route_server.Bytes.VarInt.Safe.{read_var_int-Reads}
use cjdns_route_server.Ann.Models.{
  EntityParserError, insufficient_data, bad_data, LinkStateSlots, LinkStateData, Entity, link_state,
}
use cjdns_route_server.Ann.LinkState.{
  count_zeros, read_pads, Slots, empty_slots, read_sample, read_samples, parse_link_state,
}

pub record IsSlots (s : Slots) : Type 0 where
  pub lag_size : length s.lag_slots ≡ 18
  pub drop_size : length s.drop_slots ≡ 18
  pub kb_recv_size : length s.kb_recv_slots ≡ 18

-- The arrays have their size, the other fields fit their types, and the ring starts within it.
pub record IsLinkState (d : LinkStateData) : Type 0 where
  pub node_id_fits : d.node_id < 2 ^ 16
  pub starts_within : d.starting_point < 18
  pub lag_size : length d.lag_slots ≡ 18
  pub drop_size : length d.drop_slots ≡ 18
  pub kb_recv_size : length d.kb_recv_slots ≡ 18

set_elem?-within :
    {A : Type 0} (xs : List A) (i : ℕ) (a : A)
    → i < length xs
    → (ys : List A) × (set_elem? xs i a ≡ some ys) × (length ys ≡ length xs)
set_elem?-within [] i a h = absurd (omega arith)
set_elem?-within (x ∷ xs) zero a h = (a ∷ xs, refl, refl)
set_elem?-within (x ∷ xs) (suc i) a h =
    let (ys, found, size) = set_elem?-within xs i a (omega arith) in
    (x ∷ ys, rw found refl, ap suc size)

-- The outcome is an error of the parser or a value with a property, and not a panic.
abbrev pub Outcome : {A : Type 0} → (A → Type 0) → Result EntityParserError A → Type 0
Outcome {A = A} P out = ((e : EntityParserError) × (out ≡ err e)) ⊎ ((a : A) × (out ≡ ok a) × P a)

Outcome-bind :
    {A B : Type 0} (P : A → Type 0) (Q : B → Type 0) (m : Result EntityParserError A)
    (f : A → Result EntityParserError B)
    → Outcome P m
    → ((a : A) → P a → Outcome Q (f a))
    → Outcome Q (m >>= f)
Outcome-bind P Q m f (inl (e, h)) k = inl (e, rw h refl)
Outcome-bind P Q m f (inr (a, h, p)) k = rw h (k a p)

fail_if-Outcome : (b : Bool) (e : EntityParserError) → Outcome (λ _. b ≡ false) (fail_if b e)
fail_if-Outcome true e = inl (e, refl)
fail_if-Outcome false e = inr (tt, refl, refl)

-- A slot within the array can be set.
set-Outcome :
    (slots : LinkStateSlots) (i : ℕ) (a : Option ℕ)
    → i < 18
    → length slots ≡ 18
    → Outcome (λ ys. length ys ≡ 18) (expect (set_elem? slots i a))
set-Outcome slots i a h size =
    let (ys, found, same) = set_elem?-within slots i a (omega arith) in
    inr (ys, rw found refl, same ∙ size)

read_u8-Outcome :
    (r : List ℕ) (e : EntityParserError)
    → IsBytes r
    → Outcome (λ p. IsBytes p.1) (map_err (read_u8 r) e)
unfolding read_u8 read_slice
read_u8-Outcome [] e h = inl (e, refl)
read_u8-Outcome (b ∷ bs) e (h, hs) = inr ((b, bs), rw (read_u8-cons b bs) refl, hs)

read_slice-Outcome :
    (n : ℕ) (r : List ℕ) (e : EntityParserError)
    → IsBytes r
    → Outcome (λ p. IsBytes p.1) (map_err (read_slice n r) e)
unfolding read_slice
read_slice-Outcome n r e h =
    elim (dec_le n (length r)) as (λ _. Outcome (λ p. IsBytes p.1) (map_err (read_slice n r) e)) [
      | yes le ↦ inr ((take n r, drop n r), rw (ge→ltb (length r) n le) refl, All-drop _ n r h)
      | no more ↦ inl (e, rw (lt→ltb (length r) n (omega arith)) refl)
    ]

-- A number and what is left.
abbrev Number : VarInt → List ℕ → ℕ × List ℕ → Type 0
Number t r p = (p.0 < 2 ^ bits t) × IsBytes p.1 × (length p.1 < length r)

empty_slots-IsSlots : IsSlots empty_slots
empty_slots-IsSlots = record { lag_size = refl; drop_size = refl; kb_recv_size = refl }

abbrev pub IsParsed : Entity → Type 0
IsParsed (link_state d) = IsLinkState d
IsParsed e = ⊥

module _ (o : ByteOrder) (laws : IsByteOrder o) where
  read_var_int-Outcome :
      (t : VarInt) (r : List ℕ) (e : EntityParserError)
      → IsBytes r
      → Outcome (Number t r) (map_err (read_var_int o t r) e)
  read_var_int-Outcome t r e bytes =
      elim (read_var_int-Reads o laws t r bytes)
        as (λ _. Outcome (Number t r) (map_err (read_var_int o t r) e)) [
          | inl (e', failed) ↦ inl (e, rw failed refl)
          | inr (v, r', got, fits, bytes', less) ↦ inr ((v, r'), rw got refl, (fits, bytes', less))
        ]

  abbrev Sampled : List ℕ → Slots × List ℕ → Type 0
  Sampled r p = IsSlots p.0 × IsBytes p.1 × (length p.1 < length r)

  read_sample-Outcome :
      (i : ℕ) (s : Slots) (r : List ℕ)
      → i < 18
      → IsSlots s
      → IsBytes r
      → Outcome (Sampled r) (read_sample o i s r)
  unfolding read_sample
  read_sample-Outcome i s r h v bytes =
      Outcome-bind (Number u16 r) (Sampled r) _ _ (read_var_int-Outcome u16 r _ bytes) (λ p1 n1.
        Outcome-bind _ (Sampled r) _ _ (set-Outcome s.lag_slots i (some p1.0) h v.lag_size)
          (λ lag lag_size.
            Outcome-bind (Number u16 p1.1) (Sampled r) _ _ (read_var_int-Outcome u16 p1.1 _ n1.1)
              (λ p2 n2.
                Outcome-bind _ (Sampled r) _ _
                  (set-Outcome s.drop_slots i (some p2.0) h v.drop_size)
                  (λ dropped drop_size.
                    Outcome-bind (Number u32 p2.1) (Sampled r) _ _
                      (read_var_int-Outcome u32 p2.1 _ n2.1)
                      (λ p3 n3.
                        Outcome-bind _ (Sampled r) _ _
                          (set-Outcome s.kb_recv_slots i (some p3.0) h v.kb_recv_size)
                          (λ kb kb_size. inr (
                            (
                              record { lag_slots = lag; drop_slots = dropped; kb_recv_slots = kb },
                              p3.1,
                            ),
                            refl,
                            (
                              record {
                                lag_size = lag_size;
                                drop_size = drop_size;
                                kb_recv_size = kb_size;
                              },
                              n3.1,
                              omega (arith, n1.2, n2.2, n3.2),
                            ),
                          )))))))

  read_samples-Outcome :
      (fuel i : ℕ) (s : Slots) (r : List ℕ)
      → length r ≤ fuel
      → i < 18
      → IsSlots s
      → IsBytes r
      → Outcome IsSlots (read_samples o fuel i s r)
  unfolding read_samples is_empty
  read_samples-Outcome zero i s [] h k v bytes = inr (s, refl, v)
  read_samples-Outcome zero i s (b ∷ bs) h k v bytes = absurd (omega arith)
  read_samples-Outcome (suc fuel) i s [] h k v bytes = inr (s, refl, v)
  read_samples-Outcome (suc fuel) i s (b ∷ bs) h k v bytes =
      rw (ne→== (suc (length bs)) 0 (λ e. omega arith)) (
        Outcome-bind (Sampled (b ∷ bs)) IsSlots _ _ (read_sample-Outcome i s (b ∷ bs) k v bytes)
          (λ p sampled.
            read_samples-Outcome fuel ((i + 1) % 18) p.0 p.1 (omega (arith, sampled.2))
              (omega arith) sampled.0 sampled.1))

  read_pads-Outcome : (r : List ℕ) → IsBytes r → Outcome IsBytes (read_pads r)
  unfolding read_pads
  read_pads-Outcome r bytes =
      Outcome-bind _ IsBytes _ _ (read_u8-Outcome r insufficient_data bytes) (λ p1 b1.
        Outcome-bind _ IsBytes _ _ (read_slice-Outcome p1.0 p1.1 insufficient_data b1) (λ p2 b2.
          Outcome-bind _ IsBytes _ _
            (fail_if-Outcome (not (count_zeros p2.0 == p1.0)) (bad_data "non zero pad"))
            (λ _ zeros. inr (p2.1, refl, b2))))

  -- Parsing any bytes as a link state ends with an error or with a link state in order: its samples
  -- stand in arrays of eighteen slots, and the ring starts within them. It never panics.
  pub parse_link_state-Outcome :
      (bytes : List ℕ) → IsBytes bytes → Outcome IsParsed (parse_link_state o bytes)
  unfolding parse_link_state
  parse_link_state-Outcome bytes are_bytes =
      Outcome-bind IsBytes IsParsed _ _ (read_pads-Outcome bytes are_bytes) (λ r1 b1.
        Outcome-bind (Number u16 r1) IsParsed _ _ (read_var_int-Outcome u16 r1 _ b1) (λ p2 n2.
          Outcome-bind (Number u8 p2.1) IsParsed _ _ (read_var_int-Outcome u8 p2.1 _ n2.1) (λ p3 n3.
            Outcome-bind _ IsParsed _ _ (fail_if-Outcome (leb 18 p3.0) _) (λ _ within.
              Outcome-bind _ IsParsed _ _ (fail_if-Outcome (is_empty p3.1) _) (λ _ some_left.
                Outcome-bind IsSlots IsParsed _ _
                  (read_samples-Outcome (length p3.1) p3.0 empty_slots p3.1 (omega arith)
                    (ground arith) empty_slots-IsSlots n3.1)
                  (λ s v. inr (
                    _,
                    refl,
                    record {
                      node_id_fits = n2.0;
                      starts_within = ground arith;
                      lag_size = v.lag_size;
                      drop_size = v.drop_size;
                      kb_recv_size = v.kb_recv_size;
                    },
                  )))))))
