-- ===== src/Buffer/ReadFd.antt =====
-- Buffer.cpp: `readFd`, a scatter read into the writable bytes and then into 64 KiB on the stack.
-- What `readv` answers is an argument.
use epoll.Base.{
  ℕ, ◌+◌, ◌-◌, ◌≡◌, ◌≤◌, ◌<◌, refl, ap, ◌∙◌, inl, inr, List, ◌++◌, ltb, leb, if◌then◌else◌,
  Bool-cases, length, take, drop, splice, Result, ok, check, out_of_bounds, add_size, max_size,
  arith, take_of_length, take-append-drop, length-splice, leb→le, leb-false, length-drop,
  length-take, append_assoc, ◌>>=◌, ◌>>◌,
}
use epoll.Buffer.Valid.{IsValid, content, writable_bytes-sub}
use epoll.Buffer.Space.{HasSpace}
use epoll.Buffer.Bytes.{Holds, Yields, append_at}
use epoll.Buffer.Transfer.{append_lem}
use epoll.Buffer.{Buffer, writable_bytes, begin_write, write_at, append}

-- The result of `readv`: the bytes, first those for `vec[0]`, or -1 and `errno`.
pub data Received : Type 0 where
  received : List ℕ → Received
  failed : ℕ → Received

abbrev pub extra_size : ℕ
extra_size = 65536

-- The room that `vec` offers: `extrabuf` is used only if the writable bytes are fewer.
abbrev pub readv_room : Buffer → ℕ
readv_room b =
    if ltb (writable_bytes b) extra_size then writable_bytes b + extra_size else writable_bytes b

-- The buffer, and the returned count; `none` is -1 with `*savedErrno = errno`.
pub data ReadCount : Type 0 where
  count : ℕ → ReadCount
  saved_errno : ℕ → ReadCount

take_in : List ℕ → Buffer → Result Buffer
take_in bytes b = do
  filled ← write_at (begin_write b) (take (writable_bytes b) bytes) b.buffer
  let b' : Buffer = record b { buffer = filled }
  if leb (length bytes) (writable_bytes b)
      then ok (record b' { writer_index = add_size b.writer_index (length bytes) })
      else (do
        check (leb (length bytes - writable_bytes b) extra_size) out_of_bounds
        append (drop (writable_bytes b) bytes) (record b' { writer_index = length b'.buffer }))

unfoldable pub read_fd : Received → Buffer → Result (ReadCount × Buffer)
unfolding take_in
read_fd (failed e) b = ok (saved_errno e, b)
read_fd (received bytes) b = do b' ← take_in bytes b; ok (count (length bytes), b')

module _ (bytes : List ℕ) (b : Buffer) (v : IsValid b) where
  abbrev room : ℕ
  room = length b.buffer - b.writer_index

  fits_case : length bytes ≤ room → Yields (take_in bytes b) (content b ++ bytes)
  unfolding take_in
  fits_case h =
      let space : HasSpace (length bytes) b b = record {
        valid = v;
        same = refl;
        space = omega (arith, v.inside);
      } in
      let size = length-splice b.writer_index bytes b.buffer (omega (arith, v.inside)) in
      (
        record b {
          buffer = splice b.writer_index bytes b.buffer;
          writer_index = b.writer_index + length bytes;
        },
        rw (writable_bytes-sub v, take_of_length room bytes h)
            (ground (arith, v.bounded, v.inside)),
        append_at bytes space,
      )

  overflow_case :
      room < length bytes
      → length bytes ≤ room + extra_size
      → length b.buffer + extra_size ≤ max_size
      → Yields (take_in bytes b) (content b ++ bytes)
  unfolding take_in
  overflow_case h k m =
      let part : length (take room bytes) ≡ room = omega (arith, length-take room bytes) in
      let space : HasSpace (length (take room bytes)) b b = record {
        valid = v;
        same = refl;
        space = omega (arith, part, v.inside);
      } in
      let filled = append_at (take room bytes) space in
      let size : length (splice b.writer_index (take room bytes) b.buffer) ≡ length b.buffer =
        length-splice b.writer_index (take room bytes) b.buffer (omega (arith, part, v.inside)) in
      let end : b.writer_index + length (take room bytes) ≡ length b.buffer =
        omega (arith, part, v.inside) in
      let (b', e, d) =
        append_lem (drop room bytes) _ filled.valid (omega (arith, end, length-drop room bytes)) in
      (
        b',
        rw (writable_bytes-sub v)
            (ground (arith, part, size, end, e, v.inside, v.bounded, writable_bytes-sub v)),
        record {
          valid = d.valid;
          holds =
              d.holds
              ∙ ap (λ l. l ++ drop room bytes) filled.holds
              ∙ append_assoc (content b) (take room bytes) (drop room bytes)
              ∙ ap (◌++◌ (content b)) (take-append-drop room bytes);
        },
      )

-- `readFd` takes in every byte that `readv` read, in order, behind the readable bytes: those that
-- fit the writable part and those that went to the stack.
pub read_fd_lem :
    (bytes : List ℕ) (b : Buffer)
    → IsValid b
    → length bytes ≤ readv_room b
    → length b.buffer + extra_size ≤ max_size
    → (b' : Buffer) × (read_fd (received bytes) b ≡ ok (count (length bytes), b'))
      × Holds (content b ++ bytes) b'
unfolding read_fd
read_fd_lem bytes b v h m =
    elim (Bool-cases (leb (length bytes) (length b.buffer - b.writer_index))) [
      | inl fits ↦ let (b', e, d) = fits_case bytes b v (leb→le _ _ fits) in (b', rw e refl, d)
      | inr more ↦
          let (b', e, d) =
            overflow_case bytes b v (leb-false _ _ more) (ground (arith, writable_bytes-sub v)) m in
          (b', rw e refl, d)
    ]
