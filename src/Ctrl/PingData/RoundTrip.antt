-- ===== src/Ctrl/PingData/RoundTrip.antt =====
-- Pings survive the wire, but a plain ping loses the start of a long content.
use cjdns_route_server.Base.{
  ℕ, ◌+◌, ◌^◌, ◌≤◌, ◌<◌, ◌≡◌, ◌≢◌, refl, sym, subst, arith, true, false, ◌&&◌, Option, none, some,
  List, [], ◌++◌, length, length-append, take, drop, take-append-drop, length-take, append_assoc,
  be_bytes, length-be_bytes, IsBytes, All-append, be_bytes-IsBytes, Result, ok, err, ne→==, eq→==,
  lt→ltb,
}
use cjdns_route_server.Bytes.Reader.{
  InsufficientBuffer, insufficient_buffer, attempt, read_array_32, read_slice,
}
use cjdns_route_server.Bytes.Reader.Laws.{
  read_u32_be-bytes, read_array_32-append, read_remainder-all, read_not_less_than-ok,
}
use cjdns_route_server.Bytes.Writer.{with_capacity, into_vec, write_slice, write_u32_be}
use cjdns_route_server.Keys.{CjdnsPublicKey, key_from_array}
use cjdns_route_server.Ctrl.MessageType.{
  CtrlMessageType, ping, pong, key_ping, key_pong, is_key_ping,
}
use cjdns_route_server.Ctrl.PingData.{
  PingData, read_fields, read_key, ping_to_magic, parse, key_bytes, is_none, serialize,
}

attempt-long :
    (k content : List ℕ) → length k ≡ 32 → attempt read_array_32 (k ++ content) ≡ ok (ok k, content)
attempt-long k content size = rw (attempt, read_array_32-append k content size) refl

read_array_32-short :
    (content : List ℕ) → length content < 32 → read_array_32 content ≡ err insufficient_buffer
unfolding read_array_32 read_slice
read_array_32-short content short = rw (lt→ltb (length content) 32 short) refl

attempt-short :
    (content : List ℕ)
    → length content < 32
    → attempt read_array_32 content ≡ ok (err insufficient_buffer, content)
attempt-short content short = rw (attempt, read_array_32-short content short) refl

-- The bytes of a ping with this magic number and version.
unfoldable pub frame : ℕ → ℕ → List ℕ → List ℕ
frame magic version rest = be_bytes 4 magic ++ (be_bytes 4 version ++ rest)

pub length-frame :
    (magic version : ℕ) (rest : List ℕ) → length (frame magic version rest) ≡ 8 + length rest
unfolding frame
length-frame magic version rest = omega (
  arith,
  length-append (be_bytes 4 magic) (be_bytes 4 version ++ rest),
  length-append (be_bytes 4 version) rest,
  length-be_bytes 4 magic,
  length-be_bytes 4 version,
)

frame-IsBytes :
    (magic version : ℕ) (rest : List ℕ) → IsBytes rest → IsBytes (frame magic version rest)
unfolding frame
frame-IsBytes magic version rest h =
    All-append _ (be_bytes 4 magic) (be_bytes 4 version ++ rest) (be_bytes-IsBytes 4 magic)
      (All-append _ (be_bytes 4 version) rest (be_bytes-IsBytes 4 version) h)

module _ (t : CtrlMessageType) (m : ℕ) (magic : (E : Type 0) → ping_to_magic {E = E} t ≡ ok m)
    (magic_fits : m < 2 ^ 32) (version : ℕ) (version_fits : version < 2 ^ 32) where
  serialize-frame :
      (key : Option CjdnsPublicKey) (content : List ℕ)
      → version ≢ 0
      → (is_key_ping t && is_none key) ≡ false
      → serialize (record { version = version; key = key; content = content }) t
        ≡ ok (frame m version (key_bytes key ++ content))
  unfolding serialize frame with_capacity into_vec write_slice write_u32_be
  serialize-frame key content set keyed =
      rw (ne→== version 0 set, keyed, magic _) (simp append_assoc)

  read_fields-frame :
      (rest content : List ℕ) (pk : Result InsufficientBuffer (List ℕ))
      → attempt read_array_32 rest ≡ ok (pk, content)
      → read_fields (frame m version rest)
        ≡ ok (record { encoded_magic = m; version = version; pk_bytes = pk; content = content }, [])
  unfolding read_fields frame
  read_fields-frame rest content pk taken = rw (
    read_u32_be-bytes m (be_bytes 4 version ++ rest) magic_fits,
    read_u32_be-bytes version rest version_fits,
    taken,
    read_remainder-all content,
  )

  parse-frame :
      (rest content : List ℕ) (pk : Result InsufficientBuffer (List ℕ))
      (key : Option CjdnsPublicKey)
      → attempt read_array_32 rest ≡ ok (pk, content)
      → read_key (is_key_ping t) pk ≡ ok key
      → parse (frame m version rest) t
        ≡ ok (record { version = version; key = key; content = content })
  unfolding parse
  parse-frame rest content pk key taken found = rw (
    read_not_less_than-ok 8 read_fields (frame m version rest) _
        (omega (arith, length-frame m version rest)) (read_fields-frame rest content pk taken),
    magic _,
    eq→== m m refl,
    found,
  )

-- The data of the four types that are written and read back unchanged: a key ping has a key, any
-- other ping has none, and its content is shorter than a key.
abbrev pub IsPingData : CtrlMessageType → PingData → Type 0
IsPingData ping d = (d.key ≡ none) × (length d.content < 32)
IsPingData pong d = (d.key ≡ none) × (length d.content < 32)
IsPingData key_ping d = (k : CjdnsPublicKey) × (d.key ≡ some k) × (length k.k ≡ 32)
IsPingData key_pong d = (k : CjdnsPublicKey) × (d.key ≡ some k) × (length k.k ≡ 32)
IsPingData t d = ⊥

-- Written as bytes that are read as `d'`.
abbrev pub ReadsAs : CtrlMessageType → PingData → PingData → Type 0
ReadsAs t d d' =
    (bytes : List ℕ) × (serialize d t ≡ ok bytes)
    × (length bytes ≡ 8 + (length (key_bytes d.key) + length d.content))
    × IsBytes bytes
    × (parse bytes t ≡ ok d')

module _ (t : CtrlMessageType) (m : ℕ) (magic : (E : Type 0) → ping_to_magic {E = E} t ≡ ok m)
    (magic_fits : m < 2 ^ 32) (d : PingData) (fits : d.version < 2 ^ 32) (set : d.version ≢ 0)
    (key_valid : IsBytes (key_bytes d.key)) (content_valid : IsBytes d.content) where
  reads :
      (rest content : List ℕ) (pk : Result InsufficientBuffer (List ℕ))
      (key : Option CjdnsPublicKey)
      → key_bytes d.key ++ d.content ≡ rest
      → (is_key_ping t && is_none d.key) ≡ false
      → attempt read_array_32 rest ≡ ok (pk, content)
      → read_key (is_key_ping t) pk ≡ ok key
      → ReadsAs t d (record { version = d.version; key = key; content = content })
  reads rest content pk key same keyed taken found = (
    frame m d.version (key_bytes d.key ++ d.content),
    serialize-frame t m magic magic_fits d.version fits d.key d.content set keyed,
    omega (
      arith,
      length-frame m d.version (key_bytes d.key ++ d.content),
      length-append (key_bytes d.key) d.content,
    ),
    frame-IsBytes m d.version _ (All-append _ (key_bytes d.key) d.content key_valid content_valid),
    parse-frame t m magic magic_fits d.version fits (key_bytes d.key ++ d.content) content pk key
        (rw same taken) found,
  )

  plain_reads :
      (content : List ℕ) (pk : Result InsufficientBuffer (List ℕ))
      → is_key_ping t ≡ false
      → d.key ≡ none
      → attempt read_array_32 d.content ≡ ok (pk, content)
      → ReadsAs t d (record d { content = content })
  plain_reads content pk plain e taken =
      subst (λ key. ReadsAs t d (record { version = d.version; key = key; content = content }))
        (sym e)
        (reads d.content content pk none (rw e refl) (rw plain refl) taken
          (unfold read_key in rw plain refl))

  key_reads :
      (k : CjdnsPublicKey) → is_key_ping t ≡ true → d.key ≡ some k → length k.k ≡ 32 → ReadsAs t d d
  key_reads k keyed e size =
      subst (λ key. ReadsAs t d (record { version = d.version; key = key; content = d.content }))
        (sym e)
        (reads (k.k ++ d.content) d.content (ok k.k) (some k) (rw e refl) (rw (keyed, e) refl)
          (attempt-long k.k d.content size) (unfold read_key key_from_array in rw keyed refl))

-- A ping or pong with a version and no key, of a content shorter than a key, and a key ping or key
-- pong with a version and a key, are read back as they were written.
pub parse_ping-serialize_ping :
    (t : CtrlMessageType) (d : PingData)
    → d.version < 2 ^ 32
    → d.version ≢ 0
    → IsBytes (key_bytes d.key)
    → IsBytes d.content
    → IsPingData t d
    → ReadsAs t d d
unfolding ping_to_magic is_key_ping
parse_ping-serialize_ping ping d fits set kv cv (e, short) =
    plain_reads ping _ (λ E. refl) (omega arith) d fits set kv cv d.content _ refl e
      (attempt-short d.content short)
parse_ping-serialize_ping pong d fits set kv cv (e, short) =
    plain_reads pong _ (λ E. refl) (omega arith) d fits set kv cv d.content _ refl e
      (attempt-short d.content short)
parse_ping-serialize_ping key_ping d fits set kv cv (k, e, size) =
    key_reads key_ping _ (λ E. refl) (omega arith) d fits set kv cv k refl e size
parse_ping-serialize_ping key_pong d fits set kv cv (k, e, size) =
    key_reads key_pong _ (λ E. refl) (omega arith) d fits set kv cv k refl e size
parse_ping-serialize_ping t d fits set kv cv v = absurd v

abbrev pub IsPlain : CtrlMessageType → Type 0
IsPlain ping = Unit
IsPlain pong = Unit
IsPlain t = ⊥

attempt-split :
    (content : List ℕ)
    → 32 ≤ length content
    → attempt read_array_32 content ≡ ok (ok (take 32 content), drop 32 content)
attempt-split content long =
    subst (λ xs. attempt read_array_32 xs ≡ ok (ok (take 32 content), drop 32 content))
      (take-append-drop 32 content)
      (attempt-long (take 32 content) (drop 32 content) (length-take 32 content long))

-- A ping or pong with a version and no key, whose content is at least as long as a key, is read back without
-- the first 32 bytes of its content.
pub parse_ping-long_content :
    (t : CtrlMessageType) (d : PingData)
    → IsPlain t
    → d.version < 2 ^ 32
    → d.version ≢ 0
    → d.key ≡ none
    → IsBytes d.content
    → 32 ≤ length d.content
    → ReadsAs t d (record d { content = drop 32 d.content })
unfolding ping_to_magic is_key_ping
parse_ping-long_content ping d p fits set e cv long =
    plain_reads ping _ (λ E. refl) (omega arith) d fits set (rw e tt) cv (drop 32 d.content) _ refl
      e (attempt-split d.content long)
parse_ping-long_content pong d p fits set e cv long =
    plain_reads pong _ (λ E. refl) (omega arith) d fits set (rw e tt) cv (drop 32 d.content) _ refl
      e (attempt-split d.content long)
parse_ping-long_content t d p fits set e cv long = absurd p
