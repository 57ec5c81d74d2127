-- ===== src/EventLoopThreadPool/Start.antt =====
-- The start of a pool, and the choice of a loop by a hash code.
use epoll.Base.{
  ℕ, zero, suc, ◌+◌, ◌%◌, ◌≡◌, ◌<◌, refl, ap, inl, inr, true, List, [], ◌∷◌, leb, ◌==◌, some,
  if◌then◌else◌, Bool-cases, length, ok, err, assertion, arith, get_elem?,
}
use native.Mathlib.Nat.{mod-lt}
use epoll.EventLoopThreadPool.{
  ThreadPool, new, set_thread_num, start_threads, start, loop_at, next_of, get_next_loop,
  get_loop_for_hash, get_all_loops,
}

length-start_threads : (start_loop : ℕ → ℕ) (i n : ℕ) → length (start_threads start_loop i n) ≡ n
unfolding start_threads
length-start_threads start_loop i zero = refl
length-start_threads start_loop i (suc n) = ap suc (length-start_threads start_loop (suc i) n)

found :
    (i : ℕ) (l : List ℕ) → i < length l → (x : ℕ) × (loop_at i l ≡ ok x) × (get_elem? l i ≡ some x)
unfolding loop_at
found i [] h = absurd (omega arith)
found zero (x ∷ l) h = (x, refl, refl)
found (suc i) (x ∷ l) h = found i l (omega arith)

pub next_found :
    (p : ThreadPool)
    → p.started ≡ true
    → p.next < length p.loops
    → (l : ℕ) × (p' : ThreadPool) × (get_next_loop true p ≡ ok (l, p'))
unfolding get_next_loop next_of
next_found p on h =
    let (x, e, _) = found p.next p.loops h in
    let after = p.next + 1 in
    (
      x,
      record p { next = if leb (length p.loops) after then 0 else after },
      ground (arith, on, h, e),
    )

pub next_base :
    (p : ThreadPool)
    → p.started ≡ true
    → length p.loops ≡ 0
    → get_next_loop true p ≡ ok (p.base_loop, p)
unfolding get_next_loop
next_base p on h = rw (on, h) refl

-- `setThreadNum(n)` and `start` of a new pool, in the base loop's thread, give a started pool with
-- the loops of `n` threads, in which `getNextLoop` succeeds, and a second `start` fails its assert.
pub start_lem :
    (start_loop : ℕ → ℕ) (base_loop n : ℕ)
    → (p : ThreadPool) × (start start_loop true (set_thread_num n (new base_loop)) ≡ ok p)
      × (length p.loops ≡ n)
      × ((l : ℕ) × (p' : ThreadPool) × (get_next_loop true p ≡ ok (l, p')))
      × (start start_loop true p ≡ err assertion)
unfolding start new set_thread_num
start_lem start_loop base_loop n =
    let size = length-start_threads start_loop 0 n in
    let p : ThreadPool = record {
      base_loop = base_loop;
      started = true;
      num_threads = n;
      next = 0;
      loops = start_threads start_loop 0 n;
    } in
    let picked : (l : ℕ) × (p' : ThreadPool) × (get_next_loop true p ≡ ok (l, p')) =
      elim (Bool-cases (n == 0)) [
        | inl nothing ↦ (base_loop, p, next_base p refl (ground (arith, size, nothing)))
        | inr some_threads ↦ next_found p refl (ground (arith, size, some_threads))
      ] in
    (p, refl, size, picked, refl)

-- In a started pool `getLoopForHash` succeeds for every hash code, and the loop is one of those
-- that `getAllLoops` returns.
pub get_loop_for_hash_lem :
    (hash_code : ℕ) (p : ThreadPool)
    → p.started ≡ true
    → (l : ℕ) × (i : ℕ) × (all : List ℕ) × (get_loop_for_hash true hash_code p ≡ ok l)
      × (get_all_loops true p ≡ ok all)
      × (get_elem? all i ≡ some l)
unfolding get_loop_for_hash get_all_loops
get_loop_for_hash_lem hash_code p on = elim (Bool-cases (length p.loops == 0)) [
  | inl empty ↦ (p.base_loop, 0, p.base_loop ∷ [], rw empty refl, rw (on, empty) refl, refl)
  | inr full ↦
      let i = hash_code % length p.loops in
      let (x, e, e') = found i p.loops (mod-lt hash_code (ground (arith, full))) in
      (x, i, p.loops, ground (arith, full, e), rw (on, full) refl, e')
]
