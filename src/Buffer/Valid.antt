-- ===== src/Buffer/Valid.antt =====
-- Buffer.h: what a well-formed buffer is, and its readable bytes.
use epoll.Base.{ℕ, ◌-◌, ◌≡◌, ◌≤◌, List, length, slice, max_size, arith, length-slice}
use epoll.Buffer.{Buffer, cheap_prepend, readable_bytes, writable_bytes}

-- 0 <= readerIndex <= writerIndex <= size, with room for the cheap prepend.
pub record IsValid (b : Buffer) : Type 0 where
  pub ordered : b.reader_index ≤ b.writer_index
  pub inside : b.writer_index ≤ length b.buffer
  pub spare : cheap_prepend ≤ length b.buffer
  pub bounded : length b.buffer ≤ max_size

-- The readable bytes, in order.
abbrev pub content : Buffer → List ℕ
content b = slice b.reader_index (b.writer_index - b.reader_index) b.buffer

pub length-content : {b : Buffer} → IsValid b → length (content b) ≡ b.writer_index - b.reader_index
length-content {b} v =
    length-slice b.reader_index (b.writer_index - b.reader_index) b.buffer (omega arith)

-- The `size_t` subtractions of the three observers do not wrap.
pub readable_bytes-content : {b : Buffer} → IsValid b → readable_bytes b ≡ length (content b)
readable_bytes-content v = omega (arith, length-content v)

pub writable_bytes-sub :
    {b : Buffer} → IsValid b → writable_bytes b ≡ length b.buffer - b.writer_index
writable_bytes-sub v = omega arith
