-- ===== src/Buffer/Space.antt =====
-- Buffer.h: how `ensureWritableBytes` and `makeSpace` find room, and that they lose no byte.
use epoll.Base.{
  ltb-false, slice, ℕ, ◌+◌, ◌-◌, ◌≡◌, ◌≤◌, ◌<◌, ap, ◌∙◌, inl, inr, ◌++◌, ltb, Bool-cases, length,
  replicate, slice, splice, ok, add_size, max_size, arith, length-append, length-replicate,
  take_of_length, length-splice, slice-splice_self, slice-append, ltb-false,
}
use epoll.Buffer.Valid.{IsValid, content, length-content}
use epoll.Buffer.{
  Buffer, cheap_prepend, readable_bytes, writable_bytes, prependable_bytes, grow, move_to_front,
  make_space,
}

abbrev pub grown : ℕ → Buffer → Buffer
grown len b = record b { buffer = b.buffer ++ replicate (b.writer_index + len - length b.buffer) 0 }

grow_lem :
    (len : ℕ) {b : Buffer}
    → IsValid b
    → length b.buffer ≤ b.writer_index + len
    → b.writer_index + len ≤ max_size
    → grow len b ≡ ok (grown len b)
unfolding grow
grow_lem len {b} v h m =
    let e : add_size b.writer_index len ≡ b.writer_index + len = omega arith in
    rw (e, take_of_length (b.writer_index + len) b.buffer h) (ground arith)

abbrev pub moved : Buffer → Buffer
moved b = record {
  buffer = splice cheap_prepend (content b) b.buffer;
  reader_index = cheap_prepend;
  writer_index = cheap_prepend + (b.writer_index - b.reader_index);
}

move_to_front_lem :
    {b : Buffer} → IsValid b → cheap_prepend < b.reader_index → move_to_front b ≡ ok (moved b)
unfolding move_to_front
move_to_front_lem {b} v h =
    let e : readable_bytes b ≡ b.writer_index - b.reader_index = omega arith in
    rw e (ground (arith, length-content v))

-- A buffer that holds the same bytes, with at least `len` writable ones.
pub record HasSpace (len : ℕ) (b b' : Buffer) : Type 0 where
  pub valid : IsValid b'
  pub same : content b' ≡ content b
  pub space : b'.writer_index + len ≤ length b'.buffer

grown-HasSpace :
    (len : ℕ) {b : Buffer}
    → IsValid b
    → length b.buffer ≤ b.writer_index + len
    → b.writer_index + len ≤ max_size
    → HasSpace len b (grown len b)
grown-HasSpace len {b} v h m = record {
  valid = record {
    ordered = v.ordered;
    inside = omega (arith, size);
    spare = omega (arith, size);
    bounded = omega (arith, size);
  };
  same = slice-append b.reader_index (b.writer_index - b.reader_index) b.buffer _ (omega arith);
  space = omega (arith, size);
}
  where
    size : length (grown len b).buffer ≡ b.writer_index + len
    size = omega (
      arith,
      length-append b.buffer (replicate (b.writer_index + len - length b.buffer) 0),
      length-replicate {A = ℕ} (b.writer_index + len - length b.buffer) 0,
    )

moved-HasSpace :
    (len : ℕ) {b : Buffer}
    → IsValid b
    → cheap_prepend + (b.writer_index - b.reader_index) + len ≤ length b.buffer
    → HasSpace len b (moved b)
moved-HasSpace len {b} v h = record {
  valid = record {
    ordered = omega arith;
    inside = omega (arith, size);
    spare = omega (arith, size);
    bounded = omega (arith, size);
  };
  same =
      ap (λ k. slice cheap_prepend k (moved b).buffer) width
      ∙ slice-splice_self cheap_prepend (content b) b.buffer (omega (arith, length-content v));
  space = omega (arith, size);
}
  where
    width : cheap_prepend + (b.writer_index - b.reader_index) - cheap_prepend ≡ length (content b)
    width = omega (arith, length-content v)

    size : length (moved b).buffer ≡ length b.buffer
    size = length-splice cheap_prepend (content b) b.buffer (omega (arith, length-content v))

-- `makeSpace`, called when fewer than `len` bytes are writable, succeeds unless the vector would
-- pass its `max_size`: its `assert`s hold, the readable bytes stay, and `len` bytes are writable.
pub make_space_lem :
    (len : ℕ) (b : Buffer)
    → IsValid b
    → length b.buffer < b.writer_index + len
    → b.writer_index + len ≤ max_size
    → (b' : Buffer) × (make_space len b ≡ ok b') × HasSpace len b b'
unfolding make_space
make_space_lem len b v short m =
    elim (Bool-cases
      (ltb (add_size (writable_bytes b) (prependable_bytes b)) (add_size len cheap_prepend))) [
        | inl little ↦
            rw (little)
              (grown len b, grow_lem len v (omega arith) m, grown-HasSpace len v (omega arith) m)
        | inr much ↦
            let enough = ltb-false _ _ much in
            rw (much) (
              moved b,
              move_to_front_lem v (omega (arith, enough)),
              moved-HasSpace len v (omega (arith, enough)),
            )
      ]
