-- ===== src/Base/Strings.antt =====
-- Text as a list of character codes, and the number formats of `snprintf`.
use Prim.Native.Nat.{ℕ, zero, suc, ◌+◌, ◌-◌, ◌*◌, ◌/◌, ◌%◌, ◌≤◌, ◌<◌}
use Prim.Native.Char.{code}
use Prim.Native.String.{String}
use mathlib.Core.Path.{◌≡◌, refl, sym, ap, ◌∙◌}
use mathlib.Core.Logic.{inl, inr}
use mathlib.Core.Bool.{Bool, true, false, ◌&&◌}
use mathlib.Core.List.{List, [], ◌∷◌, ◌++◌}
use native.Mathlib.Omega.{arith}
use epoll.Base.Tests.{ltb, ◌==◌, if◌then◌else◌, Bool-cases}
use epoll.Base.Lists.{length, length-append}

abbrev pub Text : Type 0
Text = List ℕ

abbrev pub codes : String → Text
codes String.[] = []
codes (String.◌∷◌ c s) = code c ∷ codes s

-- "%u" and "%d" of a number that is not negative, with at most so many digits.
unfoldable pub digits_of : ℕ → ℕ → Text
digits_of zero n = []
digits_of (suc left) n =
    let front = digits_of left (n / 10) in
    if ltb n 10 then (48 + n) ∷ [] else front ++ ((48 + n % 10) ∷ [])

-- A 32-bit number has at most ten digits.
abbrev pub decimal : ℕ → Text
decimal n = digits_of 10 n

-- What the digits say.
unfoldable pub value_from : ℕ → Text → ℕ
value_from acc [] = acc
value_from acc (c ∷ s) = value_from (acc * 10 + (c - 48)) s

value_from-append :
    (acc : ℕ) (s : Text) (c : ℕ) → value_from acc (s ++ (c ∷ [])) ≡ value_from acc s * 10 + (c - 48)
unfolding value_from
value_from-append acc [] c = refl
value_from-append acc (x ∷ s) c = value_from-append (acc * 10 + (x - 48)) s c

-- Ten to the number of digits.
unfoldable pub power_of_ten : ℕ → ℕ
power_of_ten zero = 1
power_of_ten (suc n) = power_of_ten n * 10

-- The digits of a number that has enough room are read back.
pub digits_lem : (left n : ℕ) → n < power_of_ten left → value_from 0 (digits_of left n) ≡ n
unfolding digits_of value_from power_of_ten
digits_lem zero n h = omega (arith, h)
digits_lem (suc left) n h = elim (Bool-cases (ltb n 10)) [
  | inl small ↦ rw small (omega arith)
  | inr large ↦ rw large (
      omega (
        arith,
        value_from-append 0 (digits_of left (n / 10)) (48 + n % 10),
        digits_lem left (n / 10) (omega (arith, h)),
      ))
]

-- Different numbers have different digits.
pub decimal_injective :
    (a b : ℕ) → a < 10000000000 → b < 10000000000 → decimal a ≡ decimal b → a ≡ b
unfolding power_of_ten
decimal_injective a b ha hb e = sym (digits_lem 10 a ha) ∙ ap (value_from 0) e ∙ digits_lem 10 b hb

pub length-digits : (left n : ℕ) → length (digits_of left n) ≤ left
unfolding digits_of
length-digits zero n = omega arith
length-digits (suc left) n = ground (
  arith,
  length-append (digits_of left (n / 10)) ((48 + n % 10) ∷ []),
  length-digits left (n / 10),
)

-- `==` of two strings
abbrev pub text_eq : Text → Text → Bool
text_eq [] [] = true
text_eq (c ∷ s) (d ∷ t) = c == d && text_eq s t
text_eq _ _ = false

pub text_eq-eq : (s t : Text) → text_eq s t ≡ true → s ≡ t
text_eq-eq [] [] h = refl
text_eq-eq [] (d ∷ t) h = cc
text_eq-eq (c ∷ s) [] h = cc
text_eq-eq (c ∷ s) (d ∷ t) h = ground (arith, text_eq-eq s t)

pub text_eq_refl : (s : Text) → text_eq s s ≡ true
text_eq_refl [] = refl
text_eq_refl (c ∷ s) = ground (arith, text_eq_refl s)

-- A text that ends after a mark that the digits do not have is told apart by its digits.
pub append-cancel : (s t u : Text) → s ++ t ≡ s ++ u → t ≡ u
append-cancel [] t u h = h
append-cancel (c ∷ s) t u h = append-cancel s t u (cc)

-- Small numbers have few digits.
pub length-digits_small :
    (left k n : ℕ) → n < power_of_ten (suc k) → length (digits_of left n) ≤ suc k
unfolding digits_of power_of_ten
length-digits_small zero k n h = omega arith
length-digits_small (suc left) zero n h = ground (arith, h)
length-digits_small (suc left) (suc k) n h = ground (
  arith,
  length-append (digits_of left (n / 10)) ((48 + n % 10) ∷ []),
  length-digits_small left k (n / 10) (omega (arith, h)),
)

-- A port has at most five digits.
pub length-decimal_port : (n : ℕ) → n < 65536 → length (decimal n) ≤ 5
unfolding power_of_ten
length-decimal_port n h = length-digits_small 10 4 n (omega (arith, h))
