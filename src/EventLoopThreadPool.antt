-- ===== src/EventLoopThreadPool.antt =====
-- EventLoopThreadPool.h and EventLoopThreadPool.cpp: the loops of a server's threads, and the choice
-- of one of them. A loop is its address. `in_base_thread` says whether the caller runs in the thread
-- of the base loop. The name, which only names the threads, is left out.
pub mod RoundRobin
pub mod Start
use epoll.Base.{
  ℕ, zero, suc, ◌+◌, ◌%◌, Bool, true, false, not, List, [], ◌∷◌, ◌++◌, leb, ◌==◌, none, some,
  if◌then◌else◌, length, Result, ok, err, check, assert, out_of_bounds, fatal, get_elem?, ◌>>=◌,
  ◌>>◌,
}

pub record ThreadPool : Type 0 where
  pub base_loop : ℕ
  pub started : Bool
  pub num_threads : ℕ
  pub next : ℕ
  pub loops : List ℕ

unfoldable pub new : ℕ → ThreadPool
new base_loop = record {
  base_loop = base_loop;
  started = false;
  num_threads = 0;
  next = 0;
  loops = [];
}

unfoldable pub set_thread_num : ℕ → ThreadPool → ThreadPool
set_thread_num n p = record p { num_threads = n }

-- The addresses that `startLoop` returns for the threads from `i` on. `start_loop` is where the
-- operating system puts the loop of each thread, on the thread's own stack.
unfoldable pub start_threads : (ℕ → ℕ) → ℕ → ℕ → List ℕ
start_threads start_loop i zero = []
start_threads start_loop i (suc left) = start_loop i ∷ start_threads start_loop (suc i) left

unfoldable pub start : (ℕ → ℕ) → Bool → ThreadPool → Result ThreadPool
start start_loop in_base_thread p = do
  assert (not p.started)
  check in_base_thread fatal
  ok (record p { started = true; loops = p.loops ++ start_threads start_loop 0 p.num_threads })

-- `loops_[i]`
unfoldable pub loop_at : ℕ → List ℕ → Result ℕ
loop_at i loops = elim (get_elem? loops i) [ none ↦ err out_of_bounds | some l ↦ ok l ]

unfoldable pub next_of : ThreadPool → Result (ℕ × ThreadPool)
next_of p = do
  l ← loop_at p.next p.loops
  let after = p.next + 1
  ok (l, record p { next = if leb (length p.loops) after then 0 else after })

unfoldable pub get_next_loop : Bool → ThreadPool → Result (ℕ × ThreadPool)
get_next_loop in_base_thread p = do
  check in_base_thread fatal
  assert p.started
  if length p.loops == 0 then ok (p.base_loop, p) else next_of p

unfoldable pub get_loop_for_hash : Bool → ℕ → ThreadPool → Result ℕ
get_loop_for_hash in_base_thread hash_code p = do
  check in_base_thread fatal
  if length p.loops == 0 then ok p.base_loop else loop_at (hash_code % length p.loops) p.loops

unfoldable pub get_all_loops : Bool → ThreadPool → Result (List ℕ)
get_all_loops in_base_thread p = do
  check in_base_thread fatal
  assert p.started
  ok (if length p.loops == 0 then p.base_loop ∷ [] else p.loops)
