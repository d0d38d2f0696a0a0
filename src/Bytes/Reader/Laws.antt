-- ===== src/Bytes/Reader/Laws.antt =====
-- What the readers of `Reader` answer on a buffer that starts with the bytes of a value.
use cjdns_route_server.Base.{
  ℕ, ◌-◌, ◌^◌, ◌≤◌, ◌<◌, ◌≡◌, ◌≢◌, refl, sym, subst, List, [], ◌∷◌, ◌++◌, append-nil, arith, length,
  length-append, take-append, drop-append, ok, err, ne→==, lt→ltb, be_bytes, length-be_bytes,
  be_value-be_bytes, ge→ltb, eq→==, le→leb,
}
use cjdns_route_server.Bytes.Reader.{
  Reading, read_slice, read_u8, read_u16_be, read_u32_be, read_u64_be, read_array_32,
  read_remainder, skip, read, exact, not_less_than, read_error,
}

pub read_slice-append :
    (n : ℕ) (xs rest : List ℕ) → n ≡ length xs → read_slice n (xs ++ rest) ≡ ok (xs, rest)
unfolding read_slice
read_slice-append n xs rest e = rw (
  e,
  ge→ltb (length (xs ++ rest)) (length xs) (omega (arith, length-append xs rest)),
  take-append,
  drop-append,
)

pub read_u8-cons : (b : ℕ) (rest : List ℕ) → read_u8 (b ∷ rest) ≡ ok (b, rest)
unfolding read_u8
read_u8-cons b rest = rw (read_slice-append 1 (b ∷ []) rest refl)

-- The bytes of a number are as many as it is wide, and give the number back.
module _ (k v : ℕ) (rest : List ℕ) (fits : v < 256 ^ k) where
  read_slice-be_bytes : read_slice k (be_bytes k v ++ rest) ≡ ok (be_bytes k v, rest)
  read_slice-be_bytes = read_slice-append k (be_bytes k v) rest (omega (arith, length-be_bytes k v))

pub read_u16_be-bytes :
    (v : ℕ) (rest : List ℕ) → v < 2 ^ 16 → read_u16_be (be_bytes 2 v ++ rest) ≡ ok (v, rest)
unfolding read_u16_be
read_u16_be-bytes v rest h =
    rw (read_slice-be_bytes 2 v rest h, length-be_bytes 2 v, be_value-be_bytes 2 v h)

pub read_u32_be-bytes :
    (v : ℕ) (rest : List ℕ) → v < 2 ^ 32 → read_u32_be (be_bytes 4 v ++ rest) ≡ ok (v, rest)
unfolding read_u32_be
read_u32_be-bytes v rest h =
    rw (read_slice-be_bytes 4 v rest h, length-be_bytes 4 v, be_value-be_bytes 4 v h)

pub read_u64_be-bytes :
    (v : ℕ) (rest : List ℕ) → v < 2 ^ 64 → read_u64_be (be_bytes 8 v ++ rest) ≡ ok (v, rest)
unfolding read_u64_be
read_u64_be-bytes v rest h =
    rw (read_slice-be_bytes 8 v rest h, length-be_bytes 8 v, be_value-be_bytes 8 v h)

-- The same at the end of the buffer.
pub read_u16_be-last : (v : ℕ) → v < 2 ^ 16 → read_u16_be (be_bytes 2 v) ≡ ok (v, [])
read_u16_be-last v h =
    subst (λ r. read_u16_be r ≡ ok (v, [])) (append-nil (be_bytes 2 v)) (read_u16_be-bytes v [] h)

pub read_u32_be-last : (v : ℕ) → v < 2 ^ 32 → read_u32_be (be_bytes 4 v) ≡ ok (v, [])
read_u32_be-last v h =
    subst (λ r. read_u32_be r ≡ ok (v, [])) (append-nil (be_bytes 4 v)) (read_u32_be-bytes v [] h)

pub read_u64_be-last : (v : ℕ) → v < 2 ^ 64 → read_u64_be (be_bytes 8 v) ≡ ok (v, [])
read_u64_be-last v h =
    subst (λ r. read_u64_be r ≡ ok (v, [])) (append-nil (be_bytes 8 v)) (read_u64_be-bytes v [] h)

pub read_slice-last : (n : ℕ) (xs : List ℕ) → n ≡ length xs → read_slice n xs ≡ ok (xs, [])
read_slice-last n xs e =
    subst (λ r. read_slice n r ≡ ok (xs, [])) (append-nil xs) (read_slice-append n xs [] e)

pub read_array_32-append :
    (xs rest : List ℕ) → length xs ≡ 32 → read_array_32 (xs ++ rest) ≡ ok (xs, rest)
unfolding read_array_32
read_array_32-append xs rest e = rw (read_slice-append 32 xs rest (omega arith), e)

pub skip-append : (n : ℕ) (xs rest : List ℕ) → n ≡ length xs → skip n (xs ++ rest) ≡ ok (tt, rest)
unfolding skip
skip-append n xs rest e = rw (read_slice-append n xs rest e)

pub read_remainder-all : (xs : List ℕ) → read_remainder xs ≡ ok (xs, [])
unfolding read_remainder
read_remainder-all xs = rw (read_slice-last (length xs) xs refl)

-- A job that takes the whole buffer passes the size checks.
pub read_exact-ok :
    {A : Type 0} (n : ℕ) (job : Reading A) (r : List ℕ) (a : A)
    → n ≡ length r
    → job r ≡ ok (a, [])
    → read (exact n) job r ≡ ok (a, [])
unfolding read
read_exact-ok n job r a e h =
    rw (eq→== (length r) n (sym e), h, eq→== 0 (length r - n) (omega arith))

pub read_not_less_than-ok :
    {A : Type 0} (n : ℕ) (job : Reading A) (r : List ℕ) (a : A)
    → n ≤ length r
    → job r ≡ ok (a, [])
    → read (not_less_than n) job r ≡ ok (a, [])
unfolding read
read_not_less_than-ok n job r a e h =
    rw (ge→ltb (length r) n e, h, le→leb 0 (length r - n) (omega arith))

-- A buffer of another size is refused before anything is read.
pub read_exact-length :
    {A : Type 0} (n : ℕ) (job : Reading A) (r : List ℕ)
    → n ≢ length r
    → read (exact n) job r ≡ err read_error
unfolding read
read_exact-length n job r h = rw (ne→== (length r) n (λ e. h (sym e)))

pub read_not_less_than-length :
    {A : Type 0} (n : ℕ) (job : Reading A) (r : List ℕ)
    → length r < n
    → read (not_less_than n) job r ≡ err read_error
unfolding read
read_not_less_than-length n job r h = rw (lt→ltb (length r) n h)
