-- ===== src/Buffer/Search.antt =====
-- Buffer.h, lines 81-109: the first line end in the readable bytes. `std::search` and `memchr`
-- return the first match; `std::search` returns the end of its range if there is none.
use epoll.Base.{
  ℕ, zero, suc, ◌+◌, ◌-◌, ◌≡◌, ◌≢◌, ◌≤◌, ◌<◌, refl, sym, ap, ◌∙◌, inl, inr, Bool, true, false, ◌&&◌,
  List, [], ◌∷◌, leb, ◌==◌, Option, none, some, if◌then◌else◌, Bool-cases, length, take, drop,
  slice, Result, ok, assert, arith, take-take_le, drop-take, drop-drop, length-slice, le→leb,
  length-drop, length-take, ==_iff, ◌>>=◌, ◌>>◌,
}
use epoll.Buffer.Valid.{IsValid}
use epoll.Buffer.{Buffer, readable_bytes, peek, begin_write, read_at}

abbrev pub crlf : List ℕ
crlf = b'\r' ∷ b'\n' ∷ []

abbrev pub eol : ℕ
eol = b'\n'

abbrev pub starts_with : List ℕ → List ℕ → Bool
starts_with [] xs = true
starts_with (p ∷ ps) [] = false
starts_with (p ∷ ps) (x ∷ xs) = p == x && starts_with ps xs

unfoldable pub search : List ℕ → List ℕ → ℕ
search ps [] = 0
search ps (x ∷ xs) = if starts_with ps (x ∷ xs) then 0 else suc (search ps xs)

pub memchr : ℕ → List ℕ → Option ℕ
memchr c [] = none
memchr c (x ∷ xs) =
    if x == c then some 0 else elim (memchr c xs) [ none ↦ none | some i ↦ some (suc i) ]

-- What both overloads do, from the offset `start` on. `none` is the null pointer.
search_crlf : ℕ → Buffer → Result (Option ℕ)
search_crlf start b = do
  range ← read_at start (begin_write b - start) b.buffer
  let found = start + search crlf range
  ok (if found == begin_write b then none else some found)

unfoldable pub find_crlf : Buffer → Result (Option ℕ)
unfolding search_crlf
find_crlf b = search_crlf (peek b) b

pub find_crlf_from : ℕ → Buffer → Result (Option ℕ)
unfolding search_crlf
find_crlf_from start b = do
  assert (leb (peek b) start)
  assert (leb start (begin_write b))
  search_crlf start b

offset_by : ℕ → Option ℕ → Option ℕ
offset_by start none = none
offset_by start (some i) = some (start + i)

pub find_eol : Buffer → Result (Option ℕ)
unfolding offset_by
find_eol b = do
  range ← read_at (peek b) (readable_bytes b) b.buffer
  ok (offset_by (peek b) (memchr eol range))

pub find_eol_from : ℕ → Buffer → Result (Option ℕ)
unfolding offset_by
find_eol_from start b = do
  assert (leb (peek b) start)
  assert (leb start (begin_write b))
  range ← read_at start (begin_write b - start) b.buffer
  ok (offset_by start (memchr eol range))

starts_with-slice : (ps xs : List ℕ) → starts_with ps xs ≡ true → take (length ps) xs ≡ ps
starts_with-slice [] xs h = refl
starts_with-slice (p ∷ ps) [] h = cc
starts_with-slice (p ∷ ps) (x ∷ xs) h = ground (arith, starts_with-slice ps xs)

slice-starts_with : (ps xs : List ℕ) → take (length ps) xs ≡ ps → starts_with ps xs ≡ true
slice-starts_with [] xs h = refl
slice-starts_with (p ∷ ps) [] h = cc
slice-starts_with (p ∷ ps) (x ∷ xs) h = ground (arith, slice-starts_with ps xs)

search-le : (ps xs : List ℕ) → search ps xs ≤ length xs
unfolding search
search-le ps [] = omega arith
search-le ps (x ∷ xs) = ground (arith, search-le ps xs)

-- `search` stops at a match, unless it stops at the end,
search_match :
    (ps xs : List ℕ) → search ps xs ≢ length xs → slice (search ps xs) (length ps) xs ≡ ps
unfolding search
search_match ps [] h = absurd (h refl)
search_match ps (x ∷ xs) h = elim (Bool-cases (starts_with ps (x ∷ xs))) [
  | inl here ↦ rw (here) (starts_with-slice ps (x ∷ xs) here)
  | inr there ↦ rw (there) (search_match ps xs (ground (arith)))
]

-- and it passes no match.
search_first : (ps xs : List ℕ) (i : ℕ) → i < search ps xs → slice i (length ps) xs ≢ ps
unfolding search
search_first ps [] i h = absurd (omega arith)
search_first ps (x ∷ xs) zero h = λ e. ground (arith, slice-starts_with ps (x ∷ xs) e)
search_first ps (x ∷ xs) (suc i) h = search_first ps xs i (ground arith)

-- A match at offset `i` of the vector, inside the readable bytes from `start` on.
abbrev pub MatchAt : List ℕ → ℕ → ℕ → Buffer → Type 0
MatchAt ps start i b =
    (start ≤ i) × (i + length ps ≤ b.writer_index) × (slice i (length ps) b.buffer ≡ ps)

-- The answer `r` is a match with none before it, or there is none, as far as `i` can tell.
abbrev pub IsFirstMatch : List ℕ → ℕ → ℕ → Buffer → Option ℕ → Type 0
IsFirstMatch ps start i b none = ¬ MatchAt ps start i b
IsFirstMatch ps start i b (some p) = MatchAt ps start p b × ¬ ((i < p) × MatchAt ps start i b)

-- A slice of a slice.
slice-slice :
    (i n k m : ℕ) (xs : List ℕ) → k + m ≤ n → slice k m (slice i n xs) ≡ slice (i + k) m xs
slice-slice i n k m xs h =
    ap (take m) (drop-take k n (drop i xs) ∙ ap (take (n - k)) (drop-drop k i xs))
    ∙ take-take_le m (n - k) (drop (i + k) xs) (omega arith)

-- No match stands before the place where `search` stops in the range.
not_before :
    (ps : List ℕ) (start n i : ℕ) (xs : List ℕ)
    → start ≤ i
    → i + length ps ≤ start + n
    → i < start + search ps (slice start n xs)
    → slice i (length ps) xs ≢ ps
not_before ps start n i xs lo hi lt m =
    let back : start + (i - start) ≡ i = omega arith in
    search_first ps (slice start n xs) (i - start) (omega arith) (
      slice-slice start n (i - start) (length ps) xs (omega arith)
      ∙ ap (λ k. slice k (length ps) xs) back
      ∙ m)

-- The first match of `ps` from `start` on, by `search`.
abbrev first_match : List ℕ → ℕ → Buffer → Option ℕ
first_match ps start b =
    let found = start + search ps (slice start (b.writer_index - start) b.buffer) in
    if found == b.writer_index then none else some found

first_match-IsFirstMatch :
    (ps : List ℕ) (start i : ℕ) (b : Buffer)
    → 1 ≤ length ps
    → IsValid b
    → start ≤ b.writer_index
    → IsFirstMatch ps start i b (first_match ps start b)
first_match-IsFirstMatch ps start i b some_byte v hi =
    let n = b.writer_index - start in
    let range = slice start n b.buffer in
    let size : length range ≡ n = length-slice start n b.buffer (omega (arith, v.inside)) in
    elim (Bool-cases (start + search ps range == b.writer_index)) [
      | inl end ↦
          let stop = (==_iff _ _).0 end in
          rw end (λ m.
            not_before ps start n i b.buffer m.0 (omega (arith, m.1)) (omega (arith, m.1, stop))
              m.2)
      | inr hit ↦
          let more : search ps range ≢ length range = λ e.
            cc
              ((==_iff (start + search ps range) b.writer_index).1 (omega (arith, e, size)), hit) in
          let at = search_match ps range more in
          let inside : search ps range + length ps ≤ n = omega (
            arith,
            size,
            ap length at,
            length-take (length ps) (drop (search ps range) range),
            length-drop (search ps range) range,
          ) in
          rw hit (
            (
              omega arith,
              omega (arith, inside),
              sym (slice-slice start n (search ps range) (length ps) b.buffer inside) ∙ at,
            ),
            λ m. not_before ps start n i b.buffer m.1.0 (omega (arith, m.1.1)) m.0 m.1.2,
          )
    ]

search_crlf_lem :
    (start i : ℕ) (b : Buffer)
    → IsValid b
    → start ≤ b.writer_index
    → (r : Option ℕ) × (search_crlf start b ≡ ok r) × IsFirstMatch crlf start i b r
unfolding search_crlf
search_crlf_lem start i b v hi = (
  first_match crlf start b,
  rw (le→leb (start + (b.writer_index - start)) (length b.buffer) (omega (arith, v.inside))) refl,
  first_match-IsFirstMatch crlf start i b (omega arith) v hi,
)

-- `memchr` is a search for a list of one byte.
memchr-search :
    (c : ℕ) (xs : List ℕ)
    → memchr c xs ≡ (if search (c ∷ []) xs == length xs then none else some (search (c ∷ []) xs))
unfolding memchr search
memchr-search c [] = refl
memchr-search c (x ∷ xs) = ground (arith, memchr-search c xs)

offset_by-memchr :
    (c start i : ℕ) (b : Buffer)
    → IsValid b
    → start ≤ b.writer_index
    → offset_by start (memchr c (slice start (b.writer_index - start) b.buffer))
      ≡ first_match (c ∷ []) start b
unfolding offset_by
offset_by-memchr c start i b v hi = ground (
  arith,
  memchr-search c (slice start (b.writer_index - start) b.buffer),
  length-slice start (b.writer_index - start) b.buffer,
  v.inside,
)

-- `findCRLF` succeeds on a well-formed buffer and finds the first "\r\n" of the readable bytes:
-- its answer is the offset of one, with none before it, or it is null and there is none.
pub find_crlf_lem :
    (i : ℕ) (b : Buffer)
    → IsValid b
    → (r : Option ℕ) × (find_crlf b ≡ ok r) × IsFirstMatch crlf (peek b) i b r
unfolding find_crlf
find_crlf_lem i b v = search_crlf_lem (peek b) i b v v.ordered

pub find_crlf_from_lem :
    (start i : ℕ) (b : Buffer)
    → IsValid b
    → peek b ≤ start
    → start ≤ begin_write b
    → (r : Option ℕ) × (find_crlf_from start b ≡ ok r) × IsFirstMatch crlf start i b r
unfolding find_crlf_from
find_crlf_from_lem start i b v lo hi =
    let (r, e, f) = search_crlf_lem start i b v hi in (r, rw (le→leb _ _ lo, le→leb _ _ hi) e, f)

-- `findEOL` likewise finds the first "\n" of the readable bytes.
pub find_eol_lem :
    (i : ℕ) (b : Buffer)
    → IsValid b
    → (r : Option ℕ) × (find_eol b ≡ ok r) × IsFirstMatch (eol ∷ []) (peek b) i b r
unfolding find_eol
find_eol_lem i b v =
    let e : readable_bytes b ≡ b.writer_index - peek b = omega arith in
    (
      first_match (eol ∷ []) (peek b) b,
      rw (e, le→leb (peek b + (b.writer_index - peek b)) (length b.buffer) (omega arith))
          (ap ok (offset_by-memchr eol (peek b) i b v v.ordered)),
      first_match-IsFirstMatch (eol ∷ []) (peek b) i b (omega arith) v v.ordered,
    )
