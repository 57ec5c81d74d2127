-- ===== src/Buffer/Numbers/RoundTrip.antt =====
-- Buffer.h: what is written as an integer is read back as that integer.
use epoll.Base.{
  append-nil, [], ℕ, ◌+◌, ◌-◌, ◌^◌, ◌≡◌, ◌≤◌, ◌<◌, refl, sym, ap, ◌∙◌, List, ◌++◌, length, take,
  drop, ok, max_size, arith, length-append, drop-append_length, take-append_length, slice-take,
  le→leb,
}
use epoll.Endian.{
  of_memory, big_endian, length-big_endian, memory_bytes-swap_bytes, swap_bytes-of_memory,
}
use epoll.Buffer.Valid.{IsValid, content, length-content, readable_bytes-content}
use epoll.Buffer.Bytes.{Holds, Yields, retrieve_lem, prepend_lem}
use epoll.Buffer.Transfer.{append_lem}
use epoll.Buffer.{Buffer, readable_bytes, prependable_bytes, retrieve}
use epoll.Buffer.Numbers.{
  peek_memory, Width, int64, int32, int16, int8, size_of, append_int, prepend_int, peek_int,
  read_int, append_int64, append_int32, append_int16, append_int8, prepend_int64, prepend_int32,
  prepend_int16, prepend_int8, peek_int64, peek_int32, peek_int16, peek_int8, read_int64,
  read_int32, read_int16, read_int8,
}

field_fits :
    (n x : ℕ) (rest : List ℕ) (b : Buffer)
    → Holds (big_endian n x ++ rest) b
    → n ≤ length (content b)
field_fits n x rest b h =
    omega (arith, ap length h.holds, length-append (big_endian n x) rest, length-big_endian n x)

peek_memory_lem :
    (n x : ℕ) (rest : List ℕ) (b : Buffer)
    → Holds (big_endian n x ++ rest) b
    → peek_memory n b ≡ ok (of_memory (big_endian n x))
unfolding peek_memory
peek_memory_lem n x rest b h =
    let fits = field_fits n x rest b h in
    rw
      (
        le→leb n (readable_bytes b) (omega (arith, fits, readable_bytes-content h.valid)),
        le→leb (b.reader_index + n) (length b.buffer) (omega (arith, fits, length-content h.valid)),
      )
      (ap (λ l. ok (of_memory l))
        (slice-take b.reader_index (b.writer_index - b.reader_index) n b.buffer
            (omega (arith, fits, length-content h.valid))
          ∙ ap (take n) h.holds
          ∙ take-append_length n (big_endian n x) rest (sym (length-big_endian n x))))

retrieve_field :
    (n x : ℕ) (rest : List ℕ) (b : Buffer)
    → Holds (big_endian n x ++ rest) b
    → Yields (retrieve n b) rest
retrieve_field n x rest b h =
    let (b', e, d) = retrieve_lem n b h.valid (field_fits n x rest b h) in
    (
      b',
      e,
      record {
        valid = d.valid;
        holds =
            d.holds
            ∙ ap (drop n) h.holds
            ∙ drop-append_length n (big_endian n x) rest (sym (length-big_endian n x));
      },
    )

peek_int_lem :
    (w : Width) (x : ℕ) (rest : List ℕ) (b : Buffer)
    → x < 256 ^ size_of w
    → Holds (big_endian (size_of w) x ++ rest) b
    → peek_int w b ≡ ok x
unfolding peek_int64 peek_int32 peek_int16 peek_int8
peek_int_lem int64 x rest b lt h =
    rw (peek_memory_lem 8 x rest b h, swap_bytes-of_memory 8 x lt) refl
peek_int_lem int32 x rest b lt h =
    rw (peek_memory_lem 4 x rest b h, swap_bytes-of_memory 4 x lt) refl
peek_int_lem int16 x rest b lt h =
    rw (peek_memory_lem 2 x rest b h, swap_bytes-of_memory 2 x lt) refl
peek_int_lem int8 x rest b lt h = peek_memory_lem 1 x rest b h ∙ ap ok (omega arith)

-- Reading takes the field off the front and returns its integer.
pub read_int_lem :
    (w : Width) (x : ℕ) (rest : List ℕ) (b : Buffer)
    → x < 256 ^ size_of w
    → Holds (big_endian (size_of w) x ++ rest) b
    → (b' : Buffer) × (read_int w b ≡ ok (x, b')) × Holds rest b'
unfolding read_int64 read_int32 read_int16 read_int8
read_int_lem int64 x rest b lt h =
    let (b', e, d) = retrieve_field 8 x rest b h in
    (b', rw (peek_int_lem int64 x rest b lt h, e) refl, d)
read_int_lem int32 x rest b lt h =
    let (b', e, d) = retrieve_field 4 x rest b h in
    (b', rw (peek_int_lem int32 x rest b lt h, e) refl, d)
read_int_lem int16 x rest b lt h =
    let (b', e, d) = retrieve_field 2 x rest b h in
    (b', rw (peek_int_lem int16 x rest b lt h, e) refl, d)
read_int_lem int8 x rest b lt h =
    let (b', e, d) = retrieve_field 1 x rest b h in
    (b', rw (peek_int_lem int8 x rest b lt h, e) refl, d)

-- Appending an integer puts its bytes in network order at the end.
pub append_int_lem :
    (w : Width) (x : ℕ) (b : Buffer)
    → IsValid b
    → b.writer_index + size_of w ≤ max_size
    → Yields (append_int w x b) (content b ++ big_endian (size_of w) x)
unfolding append_int64 append_int32 append_int16 append_int8
append_int_lem int64 x b v m = rw (memory_bytes-swap_bytes 8 x) (append_lem (big_endian 8 x) b v m)
append_int_lem int32 x b v m = rw (memory_bytes-swap_bytes 4 x) (append_lem (big_endian 4 x) b v m)
append_int_lem int16 x b v m = rw (memory_bytes-swap_bytes 2 x) (append_lem (big_endian 2 x) b v m)
append_int_lem int8 x b v m = append_lem (big_endian 1 x) b v m

prepend_int_lem :
    (w : Width) (x : ℕ) (b : Buffer)
    → IsValid b
    → size_of w ≤ prependable_bytes b
    → Yields (prepend_int w x b) (big_endian (size_of w) x ++ content b)
unfolding prepend_int64 prepend_int32 prepend_int16 prepend_int8
prepend_int_lem int64 x b v m =
    rw (memory_bytes-swap_bytes 8 x) (prepend_lem (big_endian 8 x) b v m)
prepend_int_lem int32 x b v m =
    rw (memory_bytes-swap_bytes 4 x) (prepend_lem (big_endian 4 x) b v m)
prepend_int_lem int16 x b v m =
    rw (memory_bytes-swap_bytes 2 x) (prepend_lem (big_endian 2 x) b v m)
prepend_int_lem int8 x b v m = prepend_lem (big_endian 1 x) b v m

-- An integer that is appended behind the bytes of a well-formed buffer is, once those bytes are
-- retrieved, read as the same integer, and nothing is left: at each of the four widths, for every
-- bit pattern of the width.
pub read_int-append_int :
    (w : Width) (x : ℕ) (b : Buffer)
    → IsValid b
    → b.writer_index + size_of w ≤ max_size
    → x < 256 ^ size_of w
    → (b₁ b₂ b₃ : Buffer) × (append_int w x b ≡ ok b₁)
      × (retrieve (length (content b)) b₁ ≡ ok b₂)
      × (read_int w b₂ ≡ ok (x, b₃))
      × Holds [] b₃
read_int-append_int w x b v m lt =
    let field = big_endian (size_of w) x in
    let (b₁, e₁, h₁) = append_int_lem w x b v m in
    let fits : length (content b) ≤ length (content b₁) =
      omega (arith, ap length h₁.holds, length-append (content b) field) in
    let (b₂, e₂, h₂) = retrieve_lem (length (content b)) b₁ h₁.valid fits in
    let left : content b₂ ≡ field ++ [] =
      h₂.holds
      ∙ ap (drop (length (content b))) h₁.holds
      ∙ drop-append_length (length (content b)) (content b) field refl
      ∙ sym (append-nil field) in
    let (b₃, e₃, h₃) = read_int_lem w x [] b₂ lt (record { valid = h₂.valid; holds = left }) in
    (b₁, b₂, b₃, e₁, e₂, e₃, h₃)

-- A length that is prepended to a message is read back as that length, with the message left.
pub read_int-prepend_int :
    (w : Width) (x : ℕ) (b : Buffer)
    → IsValid b
    → size_of w ≤ prependable_bytes b
    → x < 256 ^ size_of w
    → (b₁ b₂ : Buffer) × (prepend_int w x b ≡ ok b₁)
      × (read_int w b₁ ≡ ok (x, b₂))
      × Holds (content b) b₂
read_int-prepend_int w x b v room lt =
    let (b₁, e₁, h₁) = prepend_int_lem w x b v room in
    let (b₂, e₂, h₂) = read_int_lem w x (content b) b₁ lt h₁ in (b₁, b₂, e₁, e₂, h₂)
