-- ===== src/Buffer.antt =====
-- Buffer.h: a byte vector with a reader and a writer index. A pointer into the vector is the
-- offset from `begin()`; an operation that the program may not survive returns a `Result`.
pub mod Valid
pub mod Space
pub mod Bytes
pub mod Transfer
pub mod Numbers
pub mod Search
pub mod ReadFd
use epoll.Base.{
  ℕ, ◌+◌, ◌-◌, List, ◌++◌, ltb, leb, ◌==◌, if◌then◌else◌, length, take, replicate, slice, splice,
  Result, ok, check, assert, length_error, out_of_bounds, add_size, sub_size, size_of_int, max_size,
  ◌>>=◌, ◌>>◌,
}

abbrev pub cheap_prepend : ℕ
cheap_prepend = 8

abbrev pub initial_size : ℕ
initial_size = 1024

pub record Buffer : Type 0 where
  pub buffer : List ℕ
  pub reader_index : ℕ
  pub writer_index : ℕ

-- The vector's operations and the pointer accesses that the class makes.
abbrev pub resize : ℕ → List ℕ → Result (List ℕ)
resize n xs = do check (leb n max_size) length_error; ok (take n xs ++ replicate (n - length xs) 0)

abbrev pub read_at : ℕ → ℕ → List ℕ → Result (List ℕ)
read_at i n xs = do check (leb (i + n) (length xs)) out_of_bounds; ok (slice i n xs)

abbrev pub write_at : ℕ → List ℕ → List ℕ → Result (List ℕ)
write_at i ys xs = do check (leb (i + length ys) (length xs)) out_of_bounds; ok (splice i ys xs)

abbrev pub readable_bytes : Buffer → ℕ
readable_bytes b = sub_size b.writer_index b.reader_index

abbrev pub writable_bytes : Buffer → ℕ
writable_bytes b = sub_size (length b.buffer) b.writer_index

abbrev pub prependable_bytes : Buffer → ℕ
prependable_bytes b = b.reader_index

-- `peek()` and `beginWrite()` as offsets.
abbrev pub peek : Buffer → ℕ
peek b = b.reader_index

abbrev pub begin_write : Buffer → ℕ
begin_write b = b.writer_index

-- The constructor.
unfoldable pub new : ℕ → Result Buffer
new n = do
  check (leb (add_size cheap_prepend n) max_size) length_error
  let b : Buffer = record {
    buffer = replicate (add_size cheap_prepend n) 0;
    reader_index = cheap_prepend;
    writer_index = cheap_prepend;
  }
  assert (readable_bytes b == 0)
  assert (writable_bytes b == n)
  assert (prependable_bytes b == cheap_prepend)
  ok b

abbrev pub swap : Buffer → Buffer → Buffer × Buffer
swap a b = (b, a)

unfoldable pub retrieve_all : Buffer → Buffer
retrieve_all b = record b { reader_index = cheap_prepend; writer_index = cheap_prepend }

unfoldable pub retrieve : ℕ → Buffer → Result Buffer
unfolding retrieve_all
retrieve len b = do
  assert (leb len (readable_bytes b))
  ok (
      if ltb len (readable_bytes b)
      then record b { reader_index = add_size b.reader_index len }
      else retrieve_all b)

unfoldable pub retrieve_until : ℕ → Buffer → Result Buffer
unfolding retrieve
retrieve_until end b = do
  assert (leb (peek b) end)
  assert (leb end (begin_write b))
  retrieve (end - peek b) b

unfoldable pub retrieve_as_string : ℕ → Buffer → Result (List ℕ × Buffer)
retrieve_as_string len b = do
  assert (leb len (readable_bytes b))
  result ← read_at (peek b) len b.buffer
  b' ← retrieve len b
  ok (result, b')

unfoldable pub retrieve_all_as_string : Buffer → Result (List ℕ × Buffer)
retrieve_all_as_string b = retrieve_as_string (readable_bytes b) b

-- `toStringPiece`: the length passes through an `int`.
unfoldable pub to_string_piece : Buffer → Result (List ℕ)
to_string_piece b = read_at (peek b) (size_of_int (readable_bytes b)) b.buffer

-- The two branches of `makeSpace`: a longer vector, or the readable bytes moved to the front.
unfoldable pub grow : ℕ → Buffer → Result Buffer
grow len b = do
  grown ← resize (add_size b.writer_index len) b.buffer
  ok (record b { buffer = grown })

unfoldable pub move_to_front : Buffer → Result Buffer
move_to_front b = do
  assert (ltb cheap_prepend b.reader_index)
  let readable = readable_bytes b
  moved ← read_at b.reader_index readable b.buffer
  packed ← write_at cheap_prepend moved b.buffer
  let b' : Buffer = record {
    buffer = packed;
    reader_index = cheap_prepend;
    writer_index = add_size cheap_prepend readable;
  }
  assert (readable == readable_bytes b')
  ok b'

unfoldable pub make_space : ℕ → Buffer → Result Buffer
make_space len b =
    if ltb (add_size (writable_bytes b) (prependable_bytes b)) (add_size len cheap_prepend)
    then grow len b
    else move_to_front b

unfoldable pub ensure_writable_bytes : ℕ → Buffer → Result Buffer
ensure_writable_bytes len b = do
  b' ← if ltb (writable_bytes b) len then make_space len b else ok b
  assert (leb len (writable_bytes b'))
  ok b'

unfoldable pub has_written : ℕ → Buffer → Result Buffer
has_written len b = do
  assert (leb len (writable_bytes b))
  ok (record b { writer_index = add_size b.writer_index len })

unfoldable pub unwrite : ℕ → Buffer → Result Buffer
unwrite len b = do
  assert (leb len (readable_bytes b))
  ok (record b { writer_index = sub_size b.writer_index len })

unfoldable pub append : List ℕ → Buffer → Result Buffer
unfolding has_written
append bytes b = do
  b' ← ensure_writable_bytes (length bytes) b
  written ← write_at (begin_write b') bytes b'.buffer
  has_written (length bytes) (record b' { buffer = written })

unfoldable pub prepend : List ℕ → Buffer → Result Buffer
prepend bytes b = do
  assert (leb (length bytes) (prependable_bytes b))
  let start = sub_size b.reader_index (length bytes)
  written ← write_at start bytes b.buffer
  ok (record b { buffer = written; reader_index = start })

-- `other` is local: after the swap it holds the old storage and is destroyed.
unfoldable pub shrink : ℕ → Buffer → Result Buffer
shrink reserve b = do
  other ← new initial_size
  other ← ensure_writable_bytes (add_size (readable_bytes b) reserve) other
  piece ← to_string_piece b
  other ← append piece other
  let (this, old) = swap b other
  ok this
