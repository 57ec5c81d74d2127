-- ===== src/Base/Faults.antt =====
-- The ways in which an operation stops the program, and the results of operations that may.
use mathlib.Core.Bool.{Bool, true, false}
use mathlib.Core.Path.{◌≡◌, refl}

pub data Fault : Type 0 where
  -- an `assert` whose test is false (the makefile does not define NDEBUG)
  assertion : Fault
  -- `std::length_error` of a vector that would grow past `max_size`
  length_error : Fault
  -- a read or write outside an object
  out_of_bounds : Fault
  -- an `int` that would exceed 2 ^ 31 - 1, which C++ leaves undefined
  overflow : Fault
  -- LOG_FATAL or LOG_SYSFATAL
  fatal : Fault

-- What an operation gives back: the fault that stopped the program, or a value.
pub data Result {ℓ} (A : Type ℓ) : Type ℓ where
  err : Fault → Result A
  ok : A → Result A

infixl 5 ◌>>=◌ ◌>>◌
-- Nothing runs after a fault.
abbrev pub ◌>>=◌ {ℓ κ} : {A : Type ℓ} {B : Type κ} → Result A → (A → Result B) → Result B
err fault >>= next = err fault
ok value >>= next = next value

-- `assert`s and the like give no value.
abbrev pub ◌>>◌ {ℓ} : {B : Type ℓ} → Result (Unit {0}) → Result B → Result B
err fault >> next = err fault
ok done >> next = next

-- The test of an operation that faults when it is false.
abbrev pub check : Bool → Fault → Result (Unit {0})
check false fault = err fault
check true fault = ok tt

-- `assert(b)`
abbrev pub assert : Bool → Result (Unit {0})
assert b = check b assertion

-- A sequence that gives a value has a first value, and goes on from it.
pub bind_inversion {ℓ κ} :
    {A : Type ℓ} {B : Type κ} (m : Result A) (next : A → Result B) (b : B)
    → (m >>= next) ≡ ok b
    → (a : A) × (m ≡ ok a) × (next a ≡ ok b)
bind_inversion (err fault) next b h = cc
bind_inversion (ok value) next b h = (value, refl, h)

pub then_inversion {ℓ} :
    {B : Type ℓ} (m : Result (Unit {0})) (k : Result B) (b : B)
    → (m >> k) ≡ ok b
    → (m ≡ ok tt) × (k ≡ ok b)
then_inversion (err fault) k b h = cc
then_inversion (ok tt) k b h = (refl, h)

pub ok_injective {ℓ} : {A : Type ℓ} {a b : A} → ◌≡◌ {A = Result A} (ok a) (ok b) → a ≡ b
ok_injective e = cc
