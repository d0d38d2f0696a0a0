-- ===== src/Base/Outcome.antt =====
-- Rust's `Result`, with one more case for a panic: a failed `expect`, `unwrap` or `assert!`,
-- an index out of range, or arithmetic that overflows in a build with overflow checks.
use Prim.Native.Nat.{ℕ, ◌-◌}
use cjdns_route_server.Base.Tests.{ltb, if◌then◌else◌}
use mathlib.Core.Bool.{Bool, true, false}
use mathlib.Core.Option.{Option, none, some}

pub data Result {ℓ κ} (E : Type ℓ) (A : Type κ) : Type (ℓ ⊔ κ) where
  ok : A → Result E A
  err : E → Result E A
  panic : Result E A

infixl 5 ◌>>=◌ ◌>>◌
abbrev pub ◌>>=◌ {ℓ κ ι} :
    {E : Type ℓ} {A : Type κ} {B : Type ι} → Result E A → (A → Result E B) → Result E B
ok a >>= f = f a
err e >>= f = err e
panic >>= f = panic

abbrev pub ◌>>◌ {ℓ κ} : {E : Type ℓ} {B : Type κ} → Result E (Unit {0}) → Result E B → Result E B
m >> k = m >>= λ _. k

-- `if !b { return Err(e) }`
abbrev pub ensure {ℓ} : {E : Type ℓ} → Bool → E → Result E (Unit {0})
ensure true e = ok tt
ensure false e = err e

-- `if b { return Err(e) }`
abbrev pub fail_if {ℓ} : {E : Type ℓ} → Bool → E → Result E (Unit {0})
fail_if true e = err e
fail_if false e = ok tt

-- `assert!(b)`
abbrev pub assert {ℓ} : {E : Type ℓ} → Bool → Result E (Unit {0})
assert true = ok tt
assert false = panic

-- `Option::ok_or` and `Option::expect`
abbrev pub ok_or {ℓ κ} : {E : Type ℓ} {A : Type κ} → Option A → E → Result E A
ok_or none e = err e
ok_or (some a) e = ok a

abbrev pub expect {ℓ κ} : {E : Type ℓ} {A : Type κ} → Option A → Result E A
expect none = panic
expect (some a) = ok a

-- `Result::map_err(|_| e)`
abbrev pub map_err {ℓ κ ι} : {E : Type ℓ} {F : Type κ} {A : Type ι} → Result E A → F → Result F A
map_err (ok a) f = ok a
map_err (err e) f = err f
map_err panic f = panic

-- `Result::expect`: an error panics.
abbrev pub expect_ok {ℓ κ ι} : {E : Type ℓ} {F : Type κ} {A : Type ι} → Result E A → Result F A
expect_ok (ok a) = ok a
expect_ok (err e) = panic
expect_ok panic = panic

-- `-` on unsigned numbers.
abbrev pub checked_sub {ℓ} : {E : Type ℓ} → ℕ → ℕ → Result E ℕ
checked_sub x y = if ltb x y then panic else ok (x - y)
