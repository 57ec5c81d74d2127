-- ===== src/TimerQueue/Setup.antt =====
-- TimerQueue.cpp and Timer.h: the constructor and destructor of a queue, its timerfd, and what
-- `addTimer` and `cancel` hand to the loop's thread.
use epoll.Base.{
  ℕ, ◌+◌, Bool, true, false, List, [], ◌∷◌, ◌++◌, ◌==◌, Option, none, some, if◌then◌else◌, Result,
  ok, err, fatal, ◌>>=◌,
}
use epoll.Channel
use epoll.Channel.{Channel, LoopOps}
use epoll.TimerQueue.{
  Timer, TimerQueue, set_at, add_timer_in_loop, cancel_in_loop, TimeSpec, how_much_time_from_now,
}

-- The answer of timerfd_create, none for a negative one. LOG_SYSFATAL ends the program.
unfoldable pub create_timerfd : Option ℕ → Result ℕ
create_timerfd none = err fatal
create_timerfd (some fd) = ok fd

-- Whether the 8 bytes were read. A failure is only logged.
unfoldable pub read_timerfd : Option ℕ → Bool
read_timerfd none = false
read_timerfd (some n) = n == 8

-- `struct itimerspec`: once, after the time.
pub record ITimerSpec : Type 0 where
  pub it_interval : TimeSpec
  pub it_value : TimeSpec

-- What timerfd_settime is called with. A failure is only logged.
unfoldable pub reset_timerfd : ℕ → ℕ → ITimerSpec
reset_timerfd now expiration = record {
  it_interval = record { tv_sec = 0; tv_nsec = 0 };
  it_value = how_much_time_from_now now expiration;
}

-- The constructor of `Timer`. `positive` says whether an interval is above 0.0, and `created` is how
-- many timers there were before.
unfoldable pub new_timer : (ℕ → Bool) → ℕ → ℕ → ℕ → Timer
new_timer positive created when interval = record {
  expiration = when;
  interval = interval;
  repeat = positive interval;
  sequence = created + 1;
}

-- What waits in the loop's queue for the timers.
pub data TimerFunctor : Type 0 where
  call_add_timer_in_loop : ℕ → TimerFunctor
  call_cancel_in_loop : ℕ → ℕ → TimerFunctor

-- A queue of timers, the functors that wait in its loop, and `Timer::_s_numCreated`.
pub record Timing : Type 0 where
  pub queue : TimerQueue
  pub pending : List TimerFunctor
  pub num_created : ℕ

-- What a functor does in the loop's thread.
unfoldable pub call_functor : TimerFunctor → TimerQueue → Result TimerQueue
call_functor (call_add_timer_in_loop a) q = add_timer_in_loop true a q
call_functor (call_cancel_in_loop a sequence) q = cancel_in_loop true a sequence q

unfoldable pub run_in_loop : Bool → TimerFunctor → Timing → Result Timing
run_in_loop in_loop_thread f s =
    if in_loop_thread
    then (do q ← call_functor f s.queue; ok (record s { queue = q }))
    else ok (record s { pending = s.pending ++ (f ∷ []) })

-- `addTimer`, where `new` gives the address `a`. It returns the `TimerId`.
unfoldable pub add_timer : (ℕ → Bool) → Bool → ℕ → ℕ → ℕ → Timing → Result ((ℕ × ℕ) × Timing)
add_timer positive in_loop_thread a when interval s = do
  let t = new_timer positive s.num_created when interval
  let q : TimerQueue = record (s.queue) { heap = set_at a (some t) s.queue.heap }
  s' ←
      run_in_loop in_loop_thread (call_add_timer_in_loop a)
        (record s { queue = q; num_created = s.num_created + 1 })
  ok ((a, t.sequence), s')

unfoldable pub cancel : Bool → ℕ × ℕ → Timing → Result Timing
cancel in_loop_thread (a, sequence) s =
    run_in_loop in_loop_thread (call_cancel_in_loop a sequence) s

abbrev empty : TimerQueue
empty = record {
  heap = λ a. none;
  timers = [];
  active_timers = [];
  calling_expired_timers = false;
  canceling_timers = [];
  armed = none;
}

module _ {F : Type 0} (ops : LoopOps F) where
  open ops use {Loop}

  -- The constructor, with the channel of the timerfd at `address`.
  unfoldable pub new : ℕ → ℕ → Option ℕ → Loop → Result (TimerQueue × Channel × Loop)
  new loop_address address answer l = do
    fd ← create_timerfd answer
    (c, l') ← Channel.enable_reading ops (Channel.new loop_address address fd) l
    ok (empty, c, l')

  -- The destructor, which closes the timerfd last and leaves the timers allocated.
  unfoldable pub destroy : Channel → Loop → Result (Channel × Loop)
  destroy c l = do (c', l') ← Channel.disable_all ops c l; Channel.remove ops c' l'
