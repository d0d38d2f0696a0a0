-- ===== src/Base/Bytes.antt =====
-- Bytes as numbers below 256, and big-endian numbers as lists of bytes (`to_be_bytes` and
-- `from_be_bytes`).
use Prim.Native.Nat.{ℕ, zero, suc, ◌+◌, ◌*◌, ◌/◌, ◌%◌, ◌^◌, ◌≤◌, ◌<◌}
use mathlib.Core.Path.{◌≡◌, refl, sym, ap, subst, ◌∙◌}
use mathlib.Core.List.{List, [], ◌∷◌, ◌++◌, append-nil, append_assoc}
use mathlib.Core.Bool.{Bool, true, false, ◌&&◌}
use mathlib.Core.Logic.{◌≢◌, inl, inr}
use native.Mathlib.Omega.{arith}
use cjdns_route_server.Base.Tests.{◌==◌, Bool-cases}
use native.Mathlib.Nat.{pow-suc}
use cjdns_route_server.Base.Lists.{
  length, length-append, take, drop, length-take, take-append-drop, All, All-append, All-take,
}

abbrev pub IsByte : ℕ → Type 0
IsByte b = b < 256

abbrev pub IsBytes : List ℕ → Type 0
IsBytes = All IsByte

-- The `k` lowest bytes of a number, highest first.
unfoldable pub be_bytes : ℕ → ℕ → List ℕ
be_bytes zero v = []
be_bytes (suc k) v = be_bytes k (v / 256) ++ (v % 256 ∷ [])

unfoldable pub be_value_from : ℕ → List ℕ → ℕ
be_value_from acc [] = acc
be_value_from acc (b ∷ bs) = be_value_from (acc * 256 + b) bs

unfoldable pub be_value : List ℕ → ℕ
unfolding be_value_from
be_value bs = be_value_from 0 bs

pub length-be_bytes : (k v : ℕ) → length (be_bytes k v) ≡ k
unfolding be_bytes
length-be_bytes zero v = refl
length-be_bytes (suc k) v =
    omega (arith, length-append (be_bytes k (v / 256)) (v % 256 ∷ []), length-be_bytes k (v / 256))

pub be_bytes-IsBytes : (k v : ℕ) → IsBytes (be_bytes k v)
unfolding be_bytes
be_bytes-IsBytes zero v = tt
be_bytes-IsBytes (suc k) v =
    All-append _ (be_bytes k (v / 256)) (v % 256 ∷ []) (be_bytes-IsBytes k (v / 256)) (omega arith)

be_value_from-append_one :
    (acc : ℕ) (bs : List ℕ) (b : ℕ)
    → be_value_from acc (bs ++ (b ∷ [])) ≡ be_value_from acc bs * 256 + b
unfolding be_value_from
be_value_from-append_one acc [] b = refl
be_value_from-append_one acc (c ∷ bs) b = be_value_from-append_one (acc * 256 + c) bs b

pub be_value-be_bytes : (k v : ℕ) → v < 256 ^ k → be_value (be_bytes k v) ≡ v
unfolding be_value be_bytes
be_value-be_bytes zero v h = omega arith
be_value-be_bytes (suc k) v h = omega (
  arith,
  be_value_from-append_one 0 (be_bytes k (v / 256)) (v % 256),
  be_value-be_bytes k (v / 256) (omega (arith, pow-suc 256 k)),
)

-- Division by 256 takes the last byte off again.
last_byte : (acc b : ℕ) → b < 256 → ((acc * 256 + b) / 256 ≡ acc) × ((acc * 256 + b) % 256 ≡ b)
last_byte acc b h = omega arith

be_bytes-be_value_from :
    (n k acc : ℕ) (bs : List ℕ)
    → n ≡ length bs + k
    → IsBytes bs
    → be_bytes n (be_value_from acc bs) ≡ be_bytes k acc ++ bs
unfolding be_value_from
be_bytes-be_value_from n k acc [] e h = let same : n ≡ k = omega arith in rw (append-nil, same)
be_bytes-be_value_from n k acc (b ∷ bs) e (h, hs) =
    be_bytes-be_value_from n (suc k) (acc * 256 + b) bs (omega arith) hs
    ∙ unfold be_bytes in rw ((last_byte acc b h).0, (last_byte acc b h).1, append_assoc)

-- Reading the bytes of a number back, and writing the number of some bytes back.
pub be_bytes-be_value : (bs : List ℕ) → IsBytes bs → be_bytes (length bs) (be_value bs) ≡ bs
unfolding be_value be_bytes
be_bytes-be_value bs h = be_bytes-be_value_from (length bs) 0 0 bs (omega arith) h

be_value_from-lt :
    (n k acc : ℕ) (bs : List ℕ)
    → n ≡ length bs + k
    → acc < 256 ^ k
    → IsBytes bs
    → be_value_from acc bs < 256 ^ n
unfolding be_value_from
be_value_from-lt n k acc [] e h hs = let same : n ≡ k = omega arith in rw same h
be_value_from-lt n k acc (b ∷ bs) e h (hb, hs) =
    be_value_from-lt n (suc k) (acc * 256 + b) bs (omega arith) (omega (arith, pow-suc 256 k)) hs

pub be_value-lt : (bs : List ℕ) → IsBytes bs → be_value bs < 256 ^ length bs
unfolding be_value
be_value-lt bs h = be_value_from-lt (length bs) 0 0 bs (omega arith) (omega arith) h

-- The bytes of a buffer of known size are those of a number.
pub all-be_bytes :
    (k : ℕ) (bs : List ℕ)
    → IsBytes bs
    → length bs ≡ k
    → (bs ≡ be_bytes k (be_value bs)) × (be_value bs < 256 ^ k)
all-be_bytes k bs h e = (
  sym (subst (λ n. be_bytes n (be_value bs) ≡ bs) e (be_bytes-be_value bs h)),
  subst (λ n. be_value bs < 256 ^ n) e (be_value-lt bs h),
)

-- A buffer that is long enough starts with the bytes of a number.
pub front-be_bytes :
    (k : ℕ) (bs : List ℕ)
    → IsBytes bs
    → k ≤ length bs
    → (bs ≡ be_bytes k (be_value (take k bs)) ++ drop k bs) × (be_value (take k bs) < 256 ^ k)
front-be_bytes k bs h le =
    let (same, bound) = all-be_bytes k (take k bs) (All-take _ k bs h) (length-take k bs le) in
    (sym (take-append-drop k bs) ∙ ap (λ xs. xs ++ drop k bs) same, bound)

-- `==` of byte slices.
unfoldable pub bytes_eq : List ℕ → List ℕ → Bool
bytes_eq [] [] = true
bytes_eq [] (y ∷ ys) = false
bytes_eq (x ∷ xs) [] = false
bytes_eq (x ∷ xs) (y ∷ ys) = x == y && bytes_eq xs ys

pub bytes_eq→eq : (xs ys : List ℕ) → bytes_eq xs ys ≡ true → xs ≡ ys
unfolding bytes_eq
bytes_eq→eq [] [] e = refl
bytes_eq→eq [] (y ∷ ys) e = cc
bytes_eq→eq (x ∷ xs) [] e = cc
bytes_eq→eq (x ∷ xs) (y ∷ ys) e = ground (arith, bytes_eq→eq xs ys)

pub bytes_eq_self : (xs : List ℕ) → bytes_eq xs xs ≡ true
unfolding bytes_eq
bytes_eq_self [] = refl
bytes_eq_self (x ∷ xs) = ground (arith, bytes_eq_self xs)

pub ne→bytes_eq : (xs ys : List ℕ) → xs ≢ ys → bytes_eq xs ys ≡ false
ne→bytes_eq xs ys h = elim (Bool-cases (bytes_eq xs ys)) [
  | inl e ↦ absurd (h (bytes_eq→eq xs ys e))
  | inr e ↦ e
]
