-- ===== src/Buffer/Numbers.antt =====
-- Buffer.h, lines 134-152 and 222-353: integers in network order at either end of the readable bytes. An integer is the
-- number of its bit pattern: `int32_t` -1 is 2 ^ 32 - 1.
pub mod RoundTrip
use epoll.Base.{ℕ, ◌-◌, leb, Result, ok, assert, ◌>>=◌, ◌>>◌}
use epoll.Endian.{
  memory_bytes, of_memory, swap_bytes, big_endian, length-big_endian, memory_bytes-swap_bytes,
  swap_bytes-of_memory, host_to_network64, host_to_network32, host_to_network16, network_to_host64,
  network_to_host32, network_to_host16,
}
use epoll.Buffer.Valid.{IsValid, content, length-content, readable_bytes-content}
use epoll.Buffer.Bytes.{Holds, Yields, retrieve_lem, prepend_lem}
use epoll.Buffer.Transfer.{append_lem}
use epoll.Buffer.{
  Buffer, readable_bytes, prependable_bytes, peek, read_at, retrieve, append, prepend,
}

pub append_int64 : ℕ → Buffer → Result Buffer
unfolding host_to_network64
append_int64 x b = append (memory_bytes 8 (host_to_network64 x)) b

pub append_int32 : ℕ → Buffer → Result Buffer
unfolding host_to_network32
append_int32 x b = append (memory_bytes 4 (host_to_network32 x)) b

pub append_int16 : ℕ → Buffer → Result Buffer
unfolding host_to_network16
append_int16 x b = append (memory_bytes 2 (host_to_network16 x)) b

pub append_int8 : ℕ → Buffer → Result Buffer
append_int8 x b = append (memory_bytes 1 x) b

-- `assert(readableBytes() >= n)` and `memcpy` from `peek()`.
peek_memory : ℕ → Buffer → Result ℕ
peek_memory n b = do
  assert (leb n (readable_bytes b))
  bytes ← read_at (peek b) n b.buffer
  ok (of_memory bytes)

pub peek_int64 : Buffer → Result ℕ
unfolding network_to_host64 peek_memory
peek_int64 b = do be64 ← peek_memory 8 b; ok (network_to_host64 be64)

pub peek_int32 : Buffer → Result ℕ
unfolding network_to_host32 peek_memory
peek_int32 b = do be32 ← peek_memory 4 b; ok (network_to_host32 be32)

pub peek_int16 : Buffer → Result ℕ
unfolding network_to_host16 peek_memory
peek_int16 b = do be16 ← peek_memory 2 b; ok (network_to_host16 be16)

pub peek_int8 : Buffer → Result ℕ
unfolding peek_memory
peek_int8 b = peek_memory 1 b

pub read_int64 : Buffer → Result (ℕ × Buffer)
read_int64 b = do result ← peek_int64 b; b' ← retrieve 8 b; ok (result, b')

pub read_int32 : Buffer → Result (ℕ × Buffer)
read_int32 b = do result ← peek_int32 b; b' ← retrieve 4 b; ok (result, b')

pub read_int16 : Buffer → Result (ℕ × Buffer)
read_int16 b = do result ← peek_int16 b; b' ← retrieve 2 b; ok (result, b')

pub read_int8 : Buffer → Result (ℕ × Buffer)
read_int8 b = do result ← peek_int8 b; b' ← retrieve 1 b; ok (result, b')

pub prepend_int64 : ℕ → Buffer → Result Buffer
unfolding host_to_network64
prepend_int64 x b = prepend (memory_bytes 8 (host_to_network64 x)) b

pub prepend_int32 : ℕ → Buffer → Result Buffer
unfolding host_to_network32
prepend_int32 x b = prepend (memory_bytes 4 (host_to_network32 x)) b

pub prepend_int16 : ℕ → Buffer → Result Buffer
unfolding host_to_network16
prepend_int16 x b = prepend (memory_bytes 2 (host_to_network16 x)) b

pub prepend_int8 : ℕ → Buffer → Result Buffer
prepend_int8 x b = prepend (memory_bytes 1 x) b

-- The four widths, and the operations of each.
pub data Width : Type 0 where
  int64 int32 int16 int8 : Width

abbrev pub size_of : Width → ℕ
size_of int64 = 8
size_of int32 = 4
size_of int16 = 2
size_of int8 = 1

abbrev pub append_int : Width → ℕ → Buffer → Result Buffer
append_int int64 = append_int64
append_int int32 = append_int32
append_int int16 = append_int16
append_int int8 = append_int8

abbrev pub prepend_int : Width → ℕ → Buffer → Result Buffer
prepend_int int64 = prepend_int64
prepend_int int32 = prepend_int32
prepend_int int16 = prepend_int16
prepend_int int8 = prepend_int8

abbrev pub peek_int : Width → Buffer → Result ℕ
peek_int int64 = peek_int64
peek_int int32 = peek_int32
peek_int int16 = peek_int16
peek_int int8 = peek_int8

abbrev pub read_int : Width → Buffer → Result (ℕ × Buffer)
read_int int64 = read_int64
read_int int32 = read_int32
read_int int16 = read_int16
read_int int8 = read_int8
