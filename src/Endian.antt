-- ===== src/Endian.antt =====
-- Endian.h, on a little-endian host: an integer is the number of its bit pattern, and `htobe`
-- and `betoh` exchange the order of its bytes.
use epoll.Base.{
  ℕ, zero, suc, ◌+◌, ◌*◌, ◌/◌, ◌%◌, ◌^◌, ◌≡◌, ◌<◌, refl, sym, ap, ap₂, ◌∙◌, List, [], ◌∷◌, ◌++◌,
  length, reverse, reverse-append, reverse-reverse, arith, length-append,
}
use native.Mathlib.Nat.{pow-suc}

-- The `n` bytes of an integer in memory, the low byte first, and the integer of such bytes.
abbrev pub memory_bytes : ℕ → ℕ → List ℕ
memory_bytes zero x = []
memory_bytes (suc n) x = x % 256 ∷ memory_bytes n (x / 256)

abbrev pub of_memory : List ℕ → ℕ
of_memory [] = 0
of_memory (b ∷ bs) = b + 256 * of_memory bs

abbrev pub swap_bytes : ℕ → ℕ → ℕ
swap_bytes n x = of_memory (reverse (memory_bytes n x))

unfoldable pub host_to_network64 : ℕ → ℕ
host_to_network64 host = swap_bytes 8 host

unfoldable pub host_to_network32 : ℕ → ℕ
host_to_network32 host = swap_bytes 4 host

unfoldable pub host_to_network16 : ℕ → ℕ
host_to_network16 host = swap_bytes 2 host

unfoldable pub network_to_host64 : ℕ → ℕ
network_to_host64 net = swap_bytes 8 net

unfoldable pub network_to_host32 : ℕ → ℕ
network_to_host32 net = swap_bytes 4 net

unfoldable pub network_to_host16 : ℕ → ℕ
network_to_host16 net = swap_bytes 2 net

-- Network order: the most significant byte first.
abbrev pub big_endian : ℕ → ℕ → List ℕ
big_endian zero x = []
big_endian (suc n) x = big_endian n (x / 256) ++ (x % 256 ∷ [])

abbrev pub AreBytes : List ℕ → Type 0
AreBytes [] = Unit {0}
AreBytes (b ∷ bs) = (b < 256) × AreBytes bs

AreBytes-append : (xs ys : List ℕ) → AreBytes xs → AreBytes ys → AreBytes (xs ++ ys)
AreBytes-append [] ys h k = k
AreBytes-append (x ∷ xs) ys h k = (h.0, AreBytes-append xs ys h.1 k)

big_endian-AreBytes : (n x : ℕ) → AreBytes (big_endian n x)
big_endian-AreBytes zero x = tt
big_endian-AreBytes (suc n) x =
    AreBytes-append (big_endian n (x / 256)) (x % 256 ∷ []) (big_endian-AreBytes n (x / 256))
      (omega arith, tt)

reverse-memory_bytes : (n x : ℕ) → reverse (memory_bytes n x) ≡ big_endian n x
reverse-memory_bytes zero x = refl
reverse-memory_bytes (suc n) x =
    reverse-append (x % 256 ∷ []) (memory_bytes n (x / 256))
    ∙ ap (λ l. l ++ (x % 256 ∷ [])) (reverse-memory_bytes n (x / 256))

pub length-big_endian : (n x : ℕ) → length (big_endian n x) ≡ n
length-big_endian zero x = refl
length-big_endian (suc n) x =
    omega
      (arith, length-append (big_endian n (x / 256)) (x % 256 ∷ []), length-big_endian n (x / 256))

memory_bytes-of_memory : (bs : List ℕ) → AreBytes bs → memory_bytes (length bs) (of_memory bs) ≡ bs
memory_bytes-of_memory [] h = refl
memory_bytes-of_memory (b ∷ bs) h =
    ap₂ ◌∷◌ (omega arith)
      (ap (memory_bytes (length bs)) (omega arith) ∙ memory_bytes-of_memory bs h.1)

of_memory-memory_bytes : (n x : ℕ) → x < 256 ^ n → of_memory (memory_bytes n x) ≡ x
of_memory-memory_bytes zero x h = omega arith
of_memory-memory_bytes (suc n) x h =
    omega (arith, of_memory-memory_bytes n (x / 256) (omega (arith, pow-suc 256 n)))

memory_bytes-big_endian : (n x : ℕ) → memory_bytes n (of_memory (big_endian n x)) ≡ big_endian n x
memory_bytes-big_endian n x =
    ap (λ k. memory_bytes k (of_memory (big_endian n x))) (sym (length-big_endian n x))
    ∙ memory_bytes-of_memory (big_endian n x) (big_endian-AreBytes n x)

-- In memory the swapped integer is the integer in network order.
pub memory_bytes-swap_bytes : (n x : ℕ) → memory_bytes n (swap_bytes n x) ≡ big_endian n x
memory_bytes-swap_bytes n x = rw (reverse-memory_bytes n x) (memory_bytes-big_endian n x)

-- Swapping what arrives in network order gives the integer back.
pub swap_bytes-of_memory : (n x : ℕ) → x < 256 ^ n → swap_bytes n (of_memory (big_endian n x)) ≡ x
swap_bytes-of_memory n x h =
    ap (λ l. of_memory (reverse l)) (memory_bytes-big_endian n x ∙ sym (reverse-memory_bytes n x))
    ∙ ap of_memory (reverse-reverse (memory_bytes n x))
    ∙ of_memory-memory_bytes n x h
