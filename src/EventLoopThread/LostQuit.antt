-- ===== src/EventLoopThread/LostQuit.antt =====
-- A `quit` that comes before `loop()` is lost.
use epoll.Base.{ℕ, ◌≡◌, refl, true, false, some, arith}
use epoll.EventLoopThread.{
  joining, looping, EventLoopThread, new, Step, start, make, hand_over, take_over, take_null,
  tell_quit, wake, enter, leave, finish, begin_exit, see_loop, see_none, call_quit, call_null, join,
  Reach, here, next,
}

-- The owner waits in `join` for a loop that nobody tells to quit.
pub record IsStuck (l : ℕ) (s : EventLoopThread) : Type 0 where
  pub owner_lem : s.owner ≡ joining
  pub thread_lem : s.thread ≡ looping l
  pub quit_lem : s.quit ≡ false

Step-IsStuck : (l : ℕ) {s t : EventLoopThread} → Step s t → IsStuck l s → IsStuck l t
Step-IsStuck l (start at free) v = absurd (ground (arith, at, v.owner_lem))
Step-IsStuck l (make k at on) v = absurd (ground (arith, at, v.thread_lem))
Step-IsStuck l (hand_over k at) v = absurd (ground (arith, at, v.thread_lem))
Step-IsStuck l (wake k at has) v = absurd (ground (arith, at, v.owner_lem))
Step-IsStuck l (take_null at has) v = absurd (ground (arith, at, v.owner_lem))
Step-IsStuck l (take_over k at has) v = absurd (ground (arith, at, v.owner_lem))
Step-IsStuck l (tell_quit k at) v = absurd (ground (arith, at, v.owner_lem))
Step-IsStuck l (enter k at) v = absurd (ground (arith, at, v.thread_lem))
Step-IsStuck l (leave k at set) v = absurd (ground (arith, set, v.quit_lem))
Step-IsStuck l (finish k at) v = absurd (ground (arith, at, v.thread_lem))
Step-IsStuck l (begin_exit k at) v = absurd (ground (arith, at, v.owner_lem))
Step-IsStuck l (see_loop k at has) v = absurd (ground (arith, at, v.owner_lem))
Step-IsStuck l (see_none at has) v = absurd (ground (arith, at, v.owner_lem))
Step-IsStuck l (call_quit k m at has) v = absurd (ground (arith, at, v.owner_lem))
Step-IsStuck l (call_null k at has) v = absurd (ground (arith, at, v.owner_lem))
Step-IsStuck l (join at done) v = absurd (ground (arith, done, v.thread_lem))

Reach-IsStuck : (l : ℕ) {s t : EventLoopThread} → Reach s t → IsStuck l s → IsStuck l t
Reach-IsStuck l here v = v
Reach-IsStuck l (next r st) v = Step-IsStuck l st (Reach-IsStuck l r v)

abbrev pub stuck : ℕ → EventLoopThread
stuck l = record {
  owner = joining;
  thread = looping l;
  loop = some l;
  exiting = true;
  thread_started = true;
  quit = false;
}

-- The destructor may run between the return of `startLoop` and the thread's call of `loop()`,
-- which clears `_quit`: that state is reached, and from it on `join` never returns, whatever steps
-- follow.
pub join_stuck :
    (l : ℕ) → Reach new (stuck l) × ((t : EventLoopThread) → Reach (stuck l) t → t.owner ≡ joining)
join_stuck l =
    let started : Reach new _ = next here (start refl refl) in
    let served = next (next started (make l refl refl)) (hand_over l refl) in
    let owned = next (next served (wake l refl refl)) (take_over l refl refl) in
    let still : IsStuck l (stuck l) = record {
      owner_lem = refl;
      thread_lem = refl;
      quit_lem = refl;
    } in
    let left = next (next owned (begin_exit l refl)) (see_loop l refl refl) in
    (
      next (next left (call_quit l l refl refl)) (enter l refl),
      λ t r. (Reach-IsStuck l r still).owner_lem,
    )
