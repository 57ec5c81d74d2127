-- ===== src/Examples/Buffers.antt =====
-- Buffer.h and Buffer.cpp at a buffer of twelve bytes that holds "hi".
use epoll.Base.{ℕ, ◌≡◌, refl, [], ◌∷◌, ◌++◌, Option, some, replicate, ok, arith}
use epoll.Buffer.{Buffer, make_space, append, retrieve}
use epoll.Buffer.Valid.{IsValid}
use epoll.Buffer.Space.{HasSpace, make_space_lem}
use epoll.Buffer.Bytes.{Holds, Yields}
use epoll.Buffer.Transfer.{append_lem}
use epoll.Buffer.ReadFd.{received, count, read_fd, read_fd_lem}
use epoll.Buffer.Search.{search, crlf, find_crlf, find_crlf_lem, IsFirstMatch}
use epoll.Buffer.Numbers.{int32, int16, append_int, prepend_int, read_int}
use epoll.Buffer.Numbers.RoundTrip.{read_int-append_int, read_int-prepend_int}

abbrev hi : Buffer
hi = record {
  buffer = replicate 8 0 ++ (104 ∷ 105 ∷ 13 ∷ 10 ∷ []);
  reader_index = 8;
  writer_index = 12;
}

hi-IsValid : IsValid hi
hi-IsValid = omega arith

-- Six more bytes do not fit: the vector grows.
make_space_lem_example : (b : Buffer) × (make_space 6 hi ≡ ok b) × HasSpace 6 hi b
make_space_lem_example = make_space_lem 6 hi hi-IsValid (omega arith) (omega arith)

append_lem_example : Yields (append (33 ∷ []) hi) (104 ∷ 105 ∷ 13 ∷ 10 ∷ 33 ∷ [])
append_lem_example = append_lem (33 ∷ []) hi hi-IsValid (omega arith)

read_fd_lem_example :
    (b : Buffer) × (read_fd (received (7 ∷ 9 ∷ [])) hi ≡ ok (count 2, b))
    × Holds (104 ∷ 105 ∷ 13 ∷ 10 ∷ 7 ∷ 9 ∷ []) b
read_fd_lem_example = read_fd_lem (7 ∷ 9 ∷ []) hi hi-IsValid (omega arith) (omega arith)

find_crlf_lem_example : (r : Option ℕ) × (find_crlf hi ≡ ok r) × IsFirstMatch crlf 8 9 hi r
find_crlf_lem_example = find_crlf_lem 9 hi hi-IsValid

found : find_crlf hi ≡ ok (some 10)
unfolding find_crlf search
found = refl

read_int-append_int_example :
    (b₁ b₂ b₃ : Buffer) × (append_int int32 77 hi ≡ ok b₁)
    × (retrieve 4 b₁ ≡ ok b₂)
    × (read_int int32 b₂ ≡ ok (77, b₃))
    × Holds [] b₃
read_int-append_int_example = read_int-append_int int32 77 hi hi-IsValid (omega arith) (omega arith)

read_int-prepend_int_example :
    (b₁ b₂ : Buffer) × (prepend_int int16 4 hi ≡ ok b₁)
    × (read_int int16 b₁ ≡ ok (4, b₂))
    × Holds (104 ∷ 105 ∷ 13 ∷ 10 ∷ []) b₂
read_int-prepend_int_example =
    read_int-prepend_int int16 4 hi hi-IsValid (omega arith) (omega arith)
