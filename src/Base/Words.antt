-- ===== src/Base/Words.antt =====
-- `size_t` and `int` arithmetic on a 64-bit host, with the wrap-around written out.
use Prim.Native.Nat.{ℕ, ◌+◌, ◌-◌, ◌%◌, ◌^◌}
use epoll.Base.Tests.{ltb, if◌then◌else◌}

abbrev pub add_size : ℕ → ℕ → ℕ
add_size a b = (a + b) % 2 ^ 64

abbrev pub sub_size : ℕ → ℕ → ℕ
sub_size a b = (a + 2 ^ 64 - b) % 2 ^ 64

-- `static_cast<int>` of a `size_t`, converted back to `size_t`: the sign is extended.
abbrev pub size_of_int : ℕ → ℕ
size_of_int n = if ltb (n % 2 ^ 32) (2 ^ 31) then n % 2 ^ 32 else n % 2 ^ 32 + 2 ^ 64 - 2 ^ 32

-- `vector<char>::max_size()`
abbrev pub max_size : ℕ
max_size = 2 ^ 63 - 1
