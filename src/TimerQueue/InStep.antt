-- ===== src/TimerQueue/InStep.antt =====
-- How the two sets of timers belong together.
use epoll.Base.{ℕ, ◌≡◌, Bool, true, false, ◌&&◌, ◌==◌, Option, none, some, length, ok, arith}
use epoll.TimerQueue.{Pairs, contains, Timer, TimerQueue, timer_at}
use epoll.TimerQueue.Sets.{is_sorted}

-- Whether the timer at an address expires at `when` and is active.
unfoldable pub runs_at : Option Timer → ℕ → ℕ → Pairs → Bool
runs_at none a when active = false
runs_at (some t) a when active = t.expiration == when && contains (a, t.sequence) active

-- The sets are ordered and of one size, and an expiration with an address is in `_timers` exactly
-- when the timer at the address expires then and is active.
pub record InStep (q : TimerQueue) : Type 0 where
  pub timers_sorted : is_sorted q.timers ≡ true
  pub active_sorted : is_sorted q.active_timers ≡ true
  pub size_lem : length q.timers ≡ length q.active_timers
  pub member_lem :
      (when a : ℕ) → contains (when, a) q.timers ≡ runs_at (q.heap a) a when q.active_timers

pub timer_lem : (a : ℕ) (t : Timer) (q : TimerQueue) → q.heap a ≡ some t → timer_at a q ≡ ok t
unfolding timer_at
timer_lem a t q here = ground (arith, here)
