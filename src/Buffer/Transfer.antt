-- ===== src/Buffer/Transfer.antt =====
-- Buffer.h: bytes moved in and out: `append`, `retrieveAsString`, `retrieveUntil`, `shrink`.
use epoll.Base.{
  take-take_le, ℕ, ◌+◌, ◌-◌, ◌^◌, ◌≡◌, ◌≤◌, ◌<◌, refl, ap, ◌∙◌, List, [], ◌++◌, length, take, drop,
  splice, ok, add_size, size_of_int, max_size, arith, take_of_length, drop_of_length, length-splice,
  le→leb, take-take_le,
}
use epoll.Buffer.Valid.{IsValid, content, length-content, readable_bytes-content}
use epoll.Buffer.Space.{HasSpace}
use epoll.Buffer.Bytes.{
  Holds, Yields, new_lem, fresh, writer_index-fresh, ensure_writable_bytes_lem, append_at,
  retrieve_lem,
}
use epoll.Buffer.{
  Buffer, cheap_prepend, initial_size, readable_bytes, begin_write, peek, ensure_writable_bytes,
  retrieve_until, retrieve_as_string, retrieve_all_as_string, to_string_piece, append, shrink,
}

append_of_space :
    (bytes : List ℕ) (b b' : Buffer)
    → ensure_writable_bytes (length bytes) b ≡ ok b'
    → HasSpace (length bytes) b b'
    → append bytes b
      ≡ ok (record b' {
        buffer = splice b'.writer_index bytes b'.buffer;
        writer_index = b'.writer_index + length bytes;
      })
unfolding append
append_of_space bytes b b' e s = rw (e) (
    ground (arith, s.space, s.valid.bounded, length-splice b'.writer_index bytes b'.buffer s.space))

-- `append` puts bytes at the end, whether or not the vector has to grow or to be packed.
pub append_lem :
    (bytes : List ℕ) (b : Buffer)
    → IsValid b
    → b.writer_index + length bytes ≤ max_size
    → Yields (append bytes b) (content b ++ bytes)
unfolding append
append_lem bytes b v m =
    let (b', e, s) = ensure_writable_bytes_lem (length bytes) b v m in
    let room : HasSpace (length bytes) b' b' = record {
      valid = s.valid;
      same = refl;
      space = s.space;
    } in
    let done = append_at bytes room in
    (
      record b' {
        buffer = splice b'.writer_index bytes b'.buffer;
        writer_index = b'.writer_index + length bytes;
      },
      append_of_space bytes b b' e s,
      record { valid = done.valid; holds = done.holds ∙ ap (λ l. l ++ bytes) s.same },
    )

-- `retrieveAsString` returns the first bytes and drops them.
pub retrieve_as_string_lem :
    (len : ℕ) (b : Buffer)
    → IsValid b
    → len ≤ length (content b)
    → (b' : Buffer) × (retrieve_as_string len b ≡ ok (take len (content b), b'))
      × Holds (drop len (content b)) b'
unfolding retrieve_as_string
retrieve_as_string_lem len b v h =
    let (b', e, d) = retrieve_lem len b v h in
    (
      b',
      ground (
        arith,
        e,
        readable_bytes-content v,
        length-content v,
        take-take_le len (b.writer_index - b.reader_index) (drop b.reader_index b.buffer),
      ),
      d,
    )

pub retrieve_all_as_string_lem :
    (b : Buffer)
    → IsValid b
    → (b' : Buffer) × (retrieve_all_as_string b ≡ ok (content b, b')) × Holds [] b'
unfolding retrieve_all_as_string
retrieve_all_as_string_lem b v =
    let (b', e, d) = retrieve_as_string_lem (length (content b)) b v (omega arith) in
    (
      b',
      rw
          (
            readable_bytes-content v,
            e,
            take_of_length (length (content b)) (content b) (omega arith),
          )
          refl,
      record {
        valid = d.valid;
        holds = d.holds ∙ drop_of_length (length (content b)) (content b) (omega arith);
      },
    )

pub retrieve_until_lem :
    (end : ℕ) (b : Buffer)
    → IsValid b
    → peek b ≤ end
    → end ≤ begin_write b
    → Yields (retrieve_until end b) (drop (end - peek b) (content b))
unfolding retrieve_until
retrieve_until_lem end b v lo hi =
    let (b', e, d) = retrieve_lem (end - peek b) b v (omega (arith, length-content v)) in
    (b', rw (le→leb _ _ lo, le→leb _ _ hi) e, d)

pub to_string_piece_lem :
    (b : Buffer) → IsValid b → length (content b) < 2 ^ 31 → to_string_piece b ≡ ok (content b)
unfolding to_string_piece
to_string_piece_lem b v small =
    let e : size_of_int (readable_bytes b) ≡ b.writer_index - b.reader_index =
      ground (arith, length-content v, readable_bytes-content v) in
    rw e (ground arith)

-- `shrink` keeps the readable bytes, if their number fits an `int`.
pub shrink_lem :
    (reserve : ℕ) (b : Buffer)
    → IsValid b
    → length (content b) < 2 ^ 31
    → length (content b) + reserve + initial_size + cheap_prepend ≤ max_size
    → Yields (shrink reserve b) (content b)
unfolding shrink
shrink_lem reserve b v small m =
    let (e₁, h₁) = new_lem initial_size (omega arith) in
    let (b₂, e₂, s) =
      ensure_writable_bytes_lem (length (content b) + reserve) (fresh initial_size) h₁.valid
        (omega (arith, writer_index-fresh initial_size)) in
    let (b₃, e₃, h₃) =
      append_lem (content b) b₂ s.valid (omega (arith, s.space, s.valid.bounded)) in
    let need : add_size (readable_bytes b) reserve ≡ length (content b) + reserve =
      omega (arith, readable_bytes-content v) in
    (
      b₃,
      rw (e₁, need, e₂, to_string_piece_lem b v small, e₃) refl,
      record { valid = h₃.valid; holds = h₃.holds ∙ ap (λ l. l ++ content b) (s.same ∙ h₁.holds) },
    )
