-- ===== src/Core/Packing/Write.antt =====
-- cjdns-core/src/encoding.rs, `serialize_scheme`: the bits it writes, as a number that grows at the
-- top.
use cjdns_route_server.Base.{
  ℕ, zero, suc, ◌+◌, ◌-◌, ◌*◌, ◌/◌, ◌%◌, ◌^◌, ◌≤◌, ◌<◌, ◌≡◌, ◌⊎◌, inl, inr, refl, ap, ◌∙◌, arith,
  List, [], ◌∷◌, ◌++◌, some, length, length-append, get_elem?, set_elem?, IsBytes, All-append,
  Result, ok, ◌==◌, ge→ltb, lt→ltb, ne→==, eq→==, subst, true, false, Bool-cases, ==→eq,
}
use cjdns_route_server.Base.Bits.{pow_add}
use cjdns_route_server.Core.Packing.{
  Packed, empty_packed, next_byte, write_bit, write_bits, EncodingSerializationError,
}
use cjdns_route_server.Core.Packing.Bits.{le_value, le_value-append, bit_or_top}
use native.Mathlib.Decide.{dec_le}
use native.Mathlib.Nat.{pow-suc, pow-le-pow_right}

-- The bytes written so far: whole ones, and one with `r` bits in use. `n` is their number.
pub record IsOpen (s : Packed) (n : ℕ) (front : List ℕ) (b r : ℕ) : Type 0 where
  pub vec : s.result_vec ≡ front ++ (b ∷ [])
  pub at : s.pos ≡ 8 * length front + r
  pub byte_num : s.cur_byte_num ≡ length front + 1
  pub bit_num : s.cur_bit_num ≡ r
  pub value : n ≡ le_value front + 2 ^ (8 * length front) * b
  pub bytes : IsBytes front
  pub small : b < 2 ^ r
  pub within : r ≤ 8

abbrev pub IsPacked : Packed → ℕ → Type 0
IsPacked s n =
    ((s ≡ empty_packed) × (n ≡ 0))
    ⊎ ((front : List ℕ) × (b : ℕ) × (r : ℕ) × (1 ≤ r) × IsOpen s n front b r)

abbrev IsReady : Packed → ℕ → Type 0
IsReady s n = (front : List ℕ) × (b : ℕ) × (r : ℕ) × (r < 8) × IsOpen s n front b r

pub small_byte : (b r : ℕ) → b < 2 ^ r → r ≤ 8 → b < 256
small_byte b r h k = omega (arith, pow-le-pow_right {n = 2} (omega arith) {i = r} {j = 8} k)

pub le_value-one : (b : ℕ) → le_value (b ∷ []) ≡ b
unfolding le_value
le_value-one b = omega arith

full-IsReady :
    (s : Packed) (n : ℕ) (front : List ℕ) (b : ℕ) → IsOpen s n front b 8 → IsReady (next_byte s) n
unfolding next_byte
full-IsReady s n front b o =
    let zero_left : (s.pos % 8 == 0) ≡ true = eq→== (s.pos % 8) 0 (omega (arith, o.at)) in
    (
      front ++ (b ∷ []),
      0,
      0,
      omega arith,
      rw zero_left (record {
        vec = ap (λ v. v ++ (0 ∷ [])) o.vec;
        at = omega (arith, o.at, length-append front (b ∷ []));
        byte_num = omega (arith, o.byte_num, length-append front (b ∷ []));
        bit_num = refl;
        value = omega (
          arith,
          o.value,
          le_value-append front (b ∷ []),
          le_value-one b,
          ap (λ t. 2 ^ (8 * length front) * t) (le_value-one b),
        );
        bytes = All-append _ front (b ∷ []) o.bytes (small_byte b 8 o.small (omega arith), tt);
        small = omega arith;
        within = omega arith;
      }),
    )

next_byte-IsReady : (s : Packed) (n : ℕ) → IsPacked s n → IsReady (next_byte s) n
unfolding next_byte
next_byte-IsReady s n (inl (e, z)) = rw e (
  [],
  0,
  0,
  omega arith,
  record {
    vec = refl;
    at = refl;
    byte_num = refl;
    bit_num = refl;
    value = unfold le_value in z;
    bytes = tt;
    small = omega arith;
    within = omega arith;
  },
)
next_byte-IsReady s n (inr (front, b, r, some_bits, o)) =
    elim (dec_le 8 r) as (λ _. IsReady (next_byte s) n) [
      | yes full ↦
          full-IsReady s n front b
            (let e : r ≡ 8 = omega arith in subst (λ k. IsOpen s n front b k) e o)
      | no more ↦
          let some_left : (s.pos % 8 == 0) ≡ false =
            ne→== (s.pos % 8) 0 (λ e. omega (arith, o.at)) in
          rw some_left (front, b, r, omega arith, o)
    ]

get-last : (xs : List ℕ) (b : ℕ) → get_elem? (xs ++ (b ∷ [])) (length xs) ≡ some b
get-last [] b = refl
get-last (x ∷ xs) b = get-last xs b

set-last :
    (xs : List ℕ) (b c : ℕ) → set_elem? (xs ++ (b ∷ [])) (length xs) c ≡ some (xs ++ (c ∷ []))
set-last [] b c = refl
set-last (x ∷ xs) b c = rw (set-last xs b c) refl

write_bit-IsPacked :
    (acc : ℕ) (s : Packed) (n : ℕ)
    → IsReady s n
    → (s' : Packed) × (write_bit acc s ≡ ok s')
      × IsPacked s' (n + acc % 2 * 2 ^ s.pos)
      × (s'.pos ≡ s.pos + 1)
unfolding write_bit
write_bit-IsPacked acc s n (front, b, r, h, o) =
    let at_byte : s.cur_byte_num - 1 ≡ length front = omega (arith, o.byte_num) in
    let got : get_elem? s.result_vec (length front) ≡ some b = rw o.vec (get-last front b) in
    let put : (c : ℕ) → set_elem? s.result_vec (length front) c ≡ some (front ++ (c ∷ [])) =
      λ c. rw o.vec (set-last front b c) in
    elim (Bool-cases (acc % 2 == 1)) [
      | inl e ↦ (
        record {
          result_vec = front ++ ((b + 2 ^ r) ∷ []);
          pos = s.pos + 1;
          cur_byte_num = s.cur_byte_num;
          cur_bit_num = s.cur_bit_num + 1;
        },
        rw
            (
              o.bit_num,
              lt→ltb r 8 h,
              e,
              ge→ltb s.cur_byte_num 1 (omega (arith, o.byte_num)),
              at_byte,
              got,
              bit_or_top r b o.small,
              put (b + 2 ^ r),
            )
            refl,
        inr (
          front,
          b + 2 ^ r,
          r + 1,
          omega arith,
          record {
            vec = refl;
            at = omega (arith, o.at);
            byte_num = o.byte_num;
            bit_num = omega (arith, o.bit_num);
            value =
                (let odd : acc % 2 ≡ 1 = ==→eq (acc % 2) 1 e in
                  let place : 2 ^ s.pos ≡ 2 ^ (8 * length front) * 2 ^ r =
                    ap (λ p. 2 ^ p) o.at ∙ pow_add (8 * length front) r in
                  omega (arith, o.value, place, ap (λ t. t * 2 ^ s.pos) odd));
            bytes = o.bytes;
            small = omega (arith, o.small, pow_add r 1);
            within = omega arith;
          },
        ),
        refl,
      )
      | inr e ↦ (
        record s { pos = s.pos + 1; cur_bit_num = s.cur_bit_num + 1 },
        rw (o.bit_num, lt→ltb r 8 h, e) refl,
        inr (
          front,
          b,
          r + 1,
          omega arith,
          record {
            vec = o.vec;
            at = omega (arith, o.at);
            byte_num = o.byte_num;
            bit_num = omega (arith, o.bit_num);
            value =
                (let even : acc % 2 ≡ 0 = grind arith in
                  omega (arith, o.value, ap (λ t. t * 2 ^ s.pos) even));
            bytes = o.bytes;
            small = omega (arith, o.small, pow_add r 1);
            within = omega arith;
          },
        ),
        refl,
      )
    ]

abbrev pub Writes : Result EncodingSerializationError Packed → ℕ → ℕ → Type 0
Writes out n pos = (s' : Packed) × (out ≡ ok s') × IsPacked s' n × (s'.pos ≡ pos)

next_byte-pos : (s : Packed) → (next_byte s).pos ≡ s.pos
unfolding next_byte
next_byte-pos s = ground arith

halves : (acc m : ℕ) → acc % 2 * m + acc / 2 * (m * 2) ≡ acc * m
halves acc m =
    let whole : acc ≡ acc / 2 * 2 + acc % 2 = omega arith in omega (arith, ap (λ a. a * m) whole)

pub write_bits-IsPacked :
    (k acc : ℕ) (s : Packed) (n : ℕ)
    → acc < 2 ^ k
    → IsPacked s n
    → Writes (write_bits k acc s) (n + acc * 2 ^ s.pos) (s.pos + k)
unfolding write_bits
write_bits-IsPacked zero acc s n h p =
    let none_left : acc ≡ 0 = omega arith in
    let same : n ≡ n + acc * 2 ^ s.pos = omega (arith, ap (λ t. t * 2 ^ s.pos) none_left) in
    (s, rw (eq→== acc 0 none_left) refl, subst (λ m. IsPacked s m) same p, omega arith)
write_bits-IsPacked (suc k) acc s n h p =
    let (t, wrote, packed, step) =
      write_bit-IsPacked acc (next_byte s) n (next_byte-IsReady s n p) in
    let at : t.pos ≡ s.pos + 1 = omega (arith, step, next_byte-pos s) in
    let (s', rest, packed', pos') =
      write_bits-IsPacked k (acc / 2) t (n + acc % 2 * 2 ^ (next_byte s).pos)
        (omega (arith, pow-suc 2 k)) packed in
    let total : n + acc % 2 * 2 ^ (next_byte s).pos + acc / 2 * 2 ^ t.pos ≡ n + acc * 2 ^ s.pos =
      rw (next_byte-pos s, ap (λ q. 2 ^ q) at ∙ pow_add s.pos 1)
        (omega (arith, halves acc (2 ^ s.pos))) in
    (s', rw wrote rest, subst (λ m. IsPacked s' m) total packed', omega (arith, at, pos'))
