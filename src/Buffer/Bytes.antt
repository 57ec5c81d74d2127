-- ===== src/Buffer/Bytes.antt =====
-- Buffer.h: each operation as an operation on the list of the readable bytes.
use epoll.Base.{
  ℕ, ◌+◌, ◌-◌, ◌≡◌, ◌≤◌, ◌<◌, refl, sym, ap, ◌∙◌, inl, inr, List, [], ◌++◌, ltb, Bool-cases, length,
  take, drop, replicate, slice, splice, Result, ok, err, assertion, add_size, sub_size, max_size,
  arith, length-replicate, drop_of_length, length-splice, slice-splice_after, slice-splice_before,
  slice-drop, slice-take, ltb→lt, ltb-false, le→leb,
}
use epoll.Buffer.Valid.{IsValid, content, length-content, readable_bytes-content}
use epoll.Buffer.Space.{HasSpace, make_space_lem}
use epoll.Buffer.{
  Buffer, cheap_prepend, readable_bytes, writable_bytes, prependable_bytes, ensure_writable_bytes,
  new, retrieve, retrieve_all, unwrite, prepend,
}

-- The operation succeeds, and leaves a well-formed buffer that holds `xs`.
pub record Holds (xs : List ℕ) (b : Buffer) : Type 0 where
  pub valid : IsValid b
  pub holds : content b ≡ xs

abbrev pub Yields : Result Buffer → List ℕ → Type 0
Yields r xs = (b : Buffer) × (r ≡ ok b) × Holds xs b

-- What the constructor makes: 8 prependable and `n` writable bytes.
unfoldable pub fresh : ℕ → Buffer
fresh n = record {
  buffer = replicate (cheap_prepend + n) 0;
  reader_index = cheap_prepend;
  writer_index = cheap_prepend;
}

pub writer_index-fresh : (n : ℕ) → (fresh n).writer_index ≡ cheap_prepend
unfolding fresh
writer_index-fresh n = refl

length-fresh : (n : ℕ) → length (fresh n).buffer ≡ cheap_prepend + n
unfolding fresh
length-fresh n = length-replicate {A = ℕ} (cheap_prepend + n) 0

pub fresh-Holds : (n : ℕ) → n + cheap_prepend ≤ max_size → Holds [] (fresh n)
unfolding fresh
fresh-Holds n h = record {
  valid = record {
    ordered = omega arith;
    inside = omega (arith, length-fresh n);
    spare = omega (arith, length-fresh n);
    bounded = omega (arith, length-fresh n);
  };
  holds = refl;
}

-- A new buffer passes the constructor's checks and is empty.
pub new_lem : (n : ℕ) → n + cheap_prepend ≤ max_size → (new n ≡ ok (fresh n)) × Holds [] (fresh n)
unfolding new fresh
new_lem n h =
    let wrap : add_size cheap_prepend n ≡ cheap_prepend + n = omega arith in
    (rw wrap (ground (arith, length-fresh n)), fresh-Holds n h)

-- `ensureWritableBytes` keeps the readable bytes and makes room for `len` more.
pub ensure_writable_bytes_lem :
    (len : ℕ) (b : Buffer)
    → IsValid b
    → b.writer_index + len ≤ max_size
    → (b' : Buffer) × (ensure_writable_bytes len b ≡ ok b') × HasSpace len b b'
unfolding ensure_writable_bytes
ensure_writable_bytes_lem len b v m = elim (Bool-cases (ltb (writable_bytes b) len)) [
  | inl short ↦
      let (b', e, s) = make_space_lem len b v (omega (arith, ltb→lt _ _ short)) m in
      (
        b',
        rw (short, e)
            (rw
              (le→leb len (writable_bytes b')
                (omega (arith, s.valid.inside, s.valid.bounded, s.space)))
              refl),
        s,
      )
  | inr enough ↦ (
    b,
    ground arith,
    record { valid = v; same = refl; space = omega (arith, ltb-false _ _ enough) },
  )
]

pub append_at :
    (bytes : List ℕ) {b : Buffer}
    → HasSpace (length bytes) b b
    → Holds (content b ++ bytes) (record b {
      buffer = splice b.writer_index bytes b.buffer;
      writer_index = b.writer_index + length bytes;
    })
append_at bytes {b} s = record {
  valid = record {
    ordered = omega (arith, s.valid.ordered);
    inside = omega (arith, size, s.space);
    spare = omega (arith, size, s.valid.spare);
    bounded = omega (arith, size, s.valid.bounded);
  };
  holds =
      let e : b.writer_index + length bytes - b.reader_index
          ≡ b.writer_index - b.reader_index + length bytes =
        omega (arith, s.valid.ordered) in
      let f : b.writer_index ≡ b.reader_index + (b.writer_index - b.reader_index) =
        omega (arith, s.valid.ordered) in
      ap (λ k. slice b.reader_index k (splice b.writer_index bytes b.buffer)) e
      ∙ ap
          (λ k.
            slice b.reader_index (b.writer_index - b.reader_index + length bytes)
              (splice k bytes b.buffer))
          f
      ∙ slice-splice_after b.reader_index (b.writer_index - b.reader_index) bytes b.buffer
          (omega (arith, s.space, s.valid.ordered));
}
  where
    size : length (splice b.writer_index bytes b.buffer) ≡ length b.buffer
    size = length-splice b.writer_index bytes b.buffer s.space

-- `retrieve` drops bytes from the front.
pub retrieve_lem :
    (len : ℕ) (b : Buffer)
    → IsValid b
    → len ≤ length (content b)
    → Yields (retrieve len b) (drop len (content b))
unfolding retrieve retrieve_all
retrieve_lem len b v h = elim (Bool-cases (ltb len (readable_bytes b))) [
  | inl part ↦ (
    record b { reader_index = b.reader_index + len },
    ground (arith, readable_bytes-content v, length-content v),
    record {
      valid = record {
        ordered = omega (arith, length-content v);
        inside = v.inside;
        spare = v.spare;
        bounded = v.bounded;
      };
      holds =
          let e : b.writer_index - (b.reader_index + len) ≡ b.writer_index - b.reader_index - len =
            omega arith in
          ap (λ k. slice (b.reader_index + len) k b.buffer) e
          ∙ slice-drop b.reader_index (b.writer_index - b.reader_index) len b.buffer;
    },
  )
  | inr all ↦ (
    retrieve_all b,
    ground (arith, readable_bytes-content v),
    record {
      valid = record {
        ordered = omega arith;
        inside = v.spare;
        spare = v.spare;
        bounded = v.bounded;
      };
      holds = sym (
          drop_of_length len (content b)
            (omega (arith, ltb-false _ _ all, readable_bytes-content v)));
    },
  )
]

-- and stops the program if there are not that many.
pub retrieve_assertion :
    (len : ℕ) (b : Buffer) → IsValid b → length (content b) < len → retrieve len b ≡ err assertion
unfolding retrieve
retrieve_assertion len b v h = rw (readable_bytes-content v) (ground arith)

pub unwrite_lem :
    (len : ℕ) (b : Buffer)
    → IsValid b
    → len ≤ length (content b)
    → Yields (unwrite len b) (take (length (content b) - len) (content b))
unfolding unwrite
unwrite_lem len b v h = (
  record b { writer_index = b.writer_index - len },
  ground (arith, readable_bytes-content v, length-content v),
  record {
    valid = record {
      ordered = omega (arith, length-content v);
      inside = omega (arith, v.inside);
      spare = v.spare;
      bounded = v.bounded;
    };
    holds =
        let e : b.writer_index - len - b.reader_index ≡ length (content b) - len =
          omega (arith, length-content v) in
        ap (λ k. slice b.reader_index k b.buffer) e
        ∙ slice-take b.reader_index (b.writer_index - b.reader_index) (length (content b) - len)
            b.buffer (omega (arith, length-content v));
  },
)

pub prepend_lem :
    (bytes : List ℕ) (b : Buffer)
    → IsValid b
    → length bytes ≤ prependable_bytes b
    → Yields (prepend bytes b) (bytes ++ content b)
unfolding prepend
prepend_lem bytes b v h = (
  record b { buffer = splice start bytes b.buffer; reader_index = start },
  ground (arith, wrap),
  record {
    valid = record {
      ordered = omega arith;
      inside = omega (arith, size);
      spare = omega (arith, size);
      bounded = omega (arith, size);
    };
    holds =
        let e : b.writer_index - start ≡ length bytes + (b.writer_index - b.reader_index) =
          omega arith in
        let f : start + length bytes ≡ b.reader_index = omega arith in
        ap (λ k. slice start k (splice start bytes b.buffer)) e
        ∙ slice-splice_before start (b.writer_index - b.reader_index) bytes b.buffer (omega arith)
        ∙ ap (λ k. bytes ++ slice k (b.writer_index - b.reader_index) b.buffer) f;
  },
)
  where
    start : ℕ
    start = b.reader_index - length bytes

    wrap : sub_size b.reader_index (length bytes) ≡ start
    wrap = omega arith

    size : length (splice start bytes b.buffer) ≡ length b.buffer
    size = length-splice start bytes b.buffer (omega arith)
