-- ===== src/Ann/Entities/RoundTrip.antt =====
-- What the wire format says of the entities of an announcement, the parser reads.
use cjdns_route_server.Base.{
  ℕ, suc, ◌+◌, ◌-◌, ◌≤◌, ◌<◌, ◌≡◌, refl, sym, ap, ◌∙◌, arith, Option, none, some, List, [], ◌∷◌,
  ◌++◌, append_assoc, append-nil, length, length-append, be_bytes, ok, ne→==, zero,
}
use cjdns_route_server.Bytes.Reader.Laws.{read_u8-cons, read_slice-append}
use cjdns_route_server.Bytes.Reader.{is_empty}
use cjdns_route_server.Ann.Models.{External, Entity, node_protocol_version, peer, encoding_scheme}
use cjdns_route_server.Ann.Wire.{
  peer_bytes, framed, Wire, wire_end, wire_pad, wire_unknown, wire_version, wire_peer,
  wire_link_state, wire_scheme,
}
use cjdns_route_server.Ann.Entities.{
  parse_entity, push_entity, parse_step, parse_entities_loop, parse_entities_impl,
}
use cjdns_route_server.Ann.Entities.Single.{
  parse_version-bytes, parse_peer-bytes, parse_encoding_scheme-bytes,
}

module _ (x : External) where
  -- An entity between its length and the rest.
  parse_step-framed :
      (t : ℕ) (body bs : List ℕ) (e : Option Entity) (parsed : List Entity)
      → parse_entity x (t ∷ body) ≡ ok e
      → parse_step x parsed (framed t body bs) ≡ ok (push_entity x parsed e, bs)
  unfolding parse_step
  parse_step-framed t body bs e parsed h =
      let n = length body + 2 in
      let size : n - 1 ≡ length (t ∷ body) = omega arith in
      rw
        (
          read_u8-cons n (t ∷ (body ++ bs)),
          ne→== n 0 (λ e. omega arith),
          ne→== n 1 (λ e. omega arith),
          read_slice-append (n - 1) (t ∷ body) bs size,
          h,
        )
        refl

  loop-step :
      (fuel : ℕ) (parsed parsed' es : List Entity) (b : ℕ) (bs rest : List ℕ)
      → parse_step x parsed (b ∷ bs) ≡ ok (parsed', rest)
      → length (b ∷ bs) ≤ fuel
      → length rest ≤ length bs
      → ((n : ℕ) → length rest ≤ n → parse_entities_loop x n parsed' rest ≡ ok es)
      → parse_entities_loop x fuel parsed (b ∷ bs) ≡ ok es
  unfolding parse_entities_loop is_empty
  loop-step zero parsed parsed' es b bs rest step enough less more = absurd (omega arith)
  loop-step (suc fuel) parsed parsed' es b bs rest step enough less more =
      rw (ne→== (suc (length bs)) 0 (λ e. omega arith), step, more fuel (omega arith)) refl

  framed-shorter : (t : ℕ) (body bs : List ℕ) → length bs ≤ length (t ∷ (body ++ bs))
  framed-shorter t body bs = omega (arith, length-append body bs)

  -- One entity, and the rest by a recursive call.
  loop-framed :
      (t : ℕ) (body bs : List ℕ) (e : Option Entity) (fuel : ℕ) (parsed es : List Entity)
      → parse_entity x (t ∷ body) ≡ ok e
      → length (framed t body bs) ≤ fuel
      → ((n : ℕ) → length bs ≤ n → parse_entities_loop x n (push_entity x parsed e) bs ≡ ok es)
      → parse_entities_loop x fuel parsed (framed t body bs) ≡ ok es
  loop-framed t body bs e fuel parsed es h enough more =
      loop-step fuel parsed (push_entity x parsed e) es (length body + 2) (t ∷ (body ++ bs)) bs
        (parse_step-framed t body bs e parsed h) enough (framed-shorter t body bs) more

  parse_entity-unknown : (t : ℕ) (body : List ℕ) → 3 < t → parse_entity x (t ∷ body) ≡ ok none
  unfolding parse_entity
  parse_entity-unknown t body h =
      rw
        (
          ne→== t 0 (λ e. omega arith),
          ne→== t 1 (λ e. omega arith),
          ne→== t 2 (λ e. omega arith),
          ne→== t 3 (λ e. omega arith),
        )
        refl

  loop-end :
      (fuel : ℕ) (parsed : List Entity) → parse_entities_loop x fuel parsed [] ≡ ok (parsed ++ [])
  unfolding parse_entities_loop is_empty
  loop-end zero parsed = ap ok (sym (append-nil parsed))
  loop-end (suc fuel) parsed = ap ok (sym (append-nil parsed))

  pad-step : (parsed : List Entity) (bs : List ℕ) → parse_step x parsed (1 ∷ bs) ≡ ok (parsed, bs)
  unfolding parse_step
  pad-step parsed bs = rw (read_u8-cons 1 bs) refl

  -- The entity goes behind those that were parsed before.
  loop-some :
      (t : ℕ) (body bs : List ℕ) (e : Entity) (es : List Entity) (fuel : ℕ) (parsed : List Entity)
      → parse_entity x (t ∷ body) ≡ ok (some e)
      → length (framed t body bs) ≤ fuel
      → ((n : ℕ) (before : List Entity)
          → length bs ≤ n
          → parse_entities_loop x n before bs ≡ ok (before ++ es))
      → parse_entities_loop x fuel parsed (framed t body bs) ≡ ok (parsed ++ (e ∷ es))
  unfolding push_entity
  loop-some t body bs e es fuel parsed h enough more =
      loop-framed t body bs (some e) fuel parsed (parsed ++ (e ∷ es)) h enough
        (λ n le. more n (parsed ++ (e ∷ [])) le ∙ ap ok (append_assoc parsed (e ∷ []) es))

  parse_entities_loop-Wire :
      (es : List Entity) (bytes : List ℕ)
      → Wire x es bytes
      → (fuel : ℕ) (parsed : List Entity) → length bytes ≤ fuel
      → parse_entities_loop x fuel parsed bytes ≡ ok (parsed ++ es)
  unfolding push_entity parse_entity
  parse_entities_loop-Wire es bytes wire_end fuel parsed enough = loop-end fuel parsed
  parse_entities_loop-Wire es bytes (wire_pad es' bs w) fuel parsed enough =
      loop-step fuel parsed parsed (parsed ++ es) 1 bs bs (pad-step parsed bs) enough (omega arith)
        (λ n le. parse_entities_loop-Wire es bs w n parsed le)
  parse_entities_loop-Wire es bytes (wire_unknown t body es' bs h w) fuel parsed enough =
      loop-framed t body bs none fuel parsed (parsed ++ es) (parse_entity-unknown t body h) enough
        (λ n le. parse_entities_loop-Wire es bs w n parsed le)
  parse_entities_loop-Wire es bytes (wire_version v es' bs h w) fuel parsed enough =
      loop-some 2 (be_bytes 2 v) bs (node_protocol_version v) es' fuel parsed
        (rw (parse_version-bytes v h) refl) enough
        (λ n before le. parse_entities_loop-Wire es' bs w n before le)
  parse_entities_loop-Wire es bytes (wire_peer p es' bs h w) fuel parsed enough =
      loop-some 1 (peer_bytes p) bs (peer p) es' fuel parsed (rw (parse_peer-bytes p h) refl) enough
        (λ n before le. parse_entities_loop-Wire es' bs w n before le)
  parse_entities_loop-Wire es bytes (wire_link_state e body es' bs read w) fuel parsed enough =
      loop-some 3 body bs e es' fuel parsed (rw read refl) enough
        (λ n before le. parse_entities_loop-Wire es' bs w n before le)
  parse_entities_loop-Wire es bytes (wire_scheme scheme body es' bs forms valid done w) fuel parsed
        enough =
      loop-some 0 body bs (encoding_scheme (x.hex_encode body) scheme) es' fuel parsed
        (rw (parse_encoding_scheme-bytes x scheme body forms valid done) refl) enough
        (λ n before le. parse_entities_loop-Wire es' bs w n before le)

  -- From bytes that stand for entities in the wire format (versions, peers, valid encoding schemes in
  -- their serialized form, and link states as far as `parse_link_state` reads their data, with pads and
  -- entities of unknown types anywhere between them), the parser reads those entities, in their order.
  pub parse_entities_impl-Wire :
      (es : List Entity) (bytes : List ℕ) → Wire x es bytes → parse_entities_impl x bytes ≡ ok es
  unfolding parse_entities_impl
  parse_entities_impl-Wire es bytes w =
      parse_entities_loop-Wire es bytes w (length bytes) [] (omega arith)
