-- ===== src/TimerQueue.antt =====
-- TimerQueue.h, TimerQueue.cpp, Timer.h and Timer.cpp: the timers of a loop. `heap` holds the timers
-- at their addresses, and `armed` the expiration that the timerfd was last set for. A time is a
-- number of microseconds. `in_loop_thread` says whether the caller runs in the loop's thread.
pub mod Sets
pub mod InStep
pub mod Insertion
pub mod Cancellation
pub mod Expiry
pub mod Clock
pub mod Repeating
pub mod Entries
pub mod Reset
pub mod Setup
pub mod Undone
use epoll.Base.{
  ℕ, ◌-◌, ◌*◌, ◌/◌, ◌%◌, Bool, true, false, not, ◌&&◌, ◌||◌, List, [], ◌∷◌, ltb, ◌==◌, Option, none,
  some, if◌then◌else◌, length, Result, ok, err, check, assert, out_of_bounds, fatal, ◌>>=◌, ◌>>◌,
}

-- `std::set` of pairs: in increasing order, without repetition. `Entry` is an expiration with the
-- address of a timer, `ActiveTimer` an address with a sequence number.
abbrev pub Pairs : Type 0
Pairs = List (ℕ × ℕ)

abbrev pub less : ℕ × ℕ → ℕ × ℕ → Bool
less x y = ltb x.0 y.0 || (x.0 == y.0 && ltb x.1 y.1)

abbrev pub same_pair : ℕ × ℕ → ℕ × ℕ → Bool
same_pair x y = x.0 == y.0 && x.1 == y.1

unfoldable pub contains : ℕ × ℕ → Pairs → Bool
contains x [] = false
contains x (y ∷ s) = same_pair x y || contains x s

unfoldable pub put : ℕ × ℕ → Pairs → Pairs
put x [] = x ∷ []
put x (y ∷ s) = let more = put x s in if less x y then x ∷ y ∷ s else y ∷ more

unfoldable pub remove : ℕ × ℕ → Pairs → Pairs
remove x [] = []
remove x (y ∷ s) = let more = remove x s in if same_pair x y then s else y ∷ more

-- `begin()` up to `lower_bound(x)`, and the rest
unfoldable pub before : ℕ × ℕ → Pairs → Pairs
before x [] = []
before x (y ∷ s) = let more = before x s in if less y x then y ∷ more else []

unfoldable pub from : ℕ × ℕ → Pairs → Pairs
from x [] = []
from x (y ∷ s) = let more = from x s in if less y x then more else y ∷ s

pub record Timer : Type 0 where
  pub expiration : ℕ
  pub interval : ℕ
  pub repeat : Bool
  pub sequence : ℕ

pub record TimerQueue : Type 0 where
  pub heap : ℕ → Option Timer
  pub timers : Pairs
  pub active_timers : Pairs
  pub calling_expired_timers : Bool
  pub canceling_timers : Pairs
  pub armed : Option ℕ

-- `*timer`
unfoldable pub timer_at : ℕ → TimerQueue → Result Timer
timer_at a q = elim (q.heap a) [ none ↦ err out_of_bounds | some t ↦ ok t ]

unfoldable pub set_at : ℕ → Option Timer → (ℕ → Option Timer) → ℕ → Option Timer
set_at a new heap b = if b == a then new else heap b

abbrev pub assert_in_step : TimerQueue → Result (Unit {0})
assert_in_step q = assert (length q.timers == length q.active_timers)

-- `it == _timers.end() || when < it->first`, for the first entry or the end
abbrev pub is_before_first : ℕ → Pairs → Bool
is_before_first when [] = true
is_before_first when (y ∷ s) = ltb when y.0

unfoldable pub put_both : ℕ → Timer → TimerQueue → TimerQueue
put_both a t q = record q {
  timers = put (t.expiration, a) q.timers;
  active_timers = put (a, t.sequence) q.active_timers;
}

unfoldable pub insert : Bool → ℕ → TimerQueue → Result (Bool × TimerQueue)
insert in_loop_thread a q = do
  check in_loop_thread fatal
  assert_in_step q
  t ← timer_at a q
  assert (not (contains (t.expiration, a) q.timers))
  assert (not (contains (a, t.sequence) q.active_timers))
  let q' = put_both a t q
  assert_in_step q'
  ok (is_before_first t.expiration q.timers, q')

unfoldable pub add_timer_in_loop : Bool → ℕ → TimerQueue → Result TimerQueue
add_timer_in_loop in_loop_thread a q = do
  check in_loop_thread fatal
  (earliest_changed, q') ← insert in_loop_thread a q
  t ← timer_at a q'
  ok (if earliest_changed then record q' { armed = some t.expiration } else q')

-- `erase` from both sets, and `delete`
unfoldable pub drop_timer : ℕ → ℕ → TimerQueue → Result TimerQueue
drop_timer a sequence q = do
  t ← timer_at a q
  assert (contains (t.expiration, a) q.timers)
  ok (record q {
    timers = remove (t.expiration, a) q.timers;
    active_timers = remove (a, sequence) q.active_timers;
    heap = set_at a none q.heap;
  })

-- The set `_cancelingTimers` keeps a timer that it has already.
unfoldable pub remember : ℕ → ℕ → TimerQueue → TimerQueue
remember a sequence q =
    if contains (a, sequence) q.canceling_timers
    then q
    else record q { canceling_timers = put (a, sequence) q.canceling_timers }

-- The `TimerId` is the address and the sequence number.
unfoldable pub cancel_in_loop : Bool → ℕ → ℕ → TimerQueue → Result TimerQueue
cancel_in_loop in_loop_thread a sequence q = do
  check in_loop_thread fatal
  assert_in_step q
  q' ←
      if contains (a, sequence) q.active_timers
      then drop_timer a sequence q
      else ok (if q.calling_expired_timers then remember a sequence q else q)
  assert_in_step q'
  ok q'

unfoldable pub drop_active : TimerQueue → Pairs → Pairs → Result Pairs
drop_active q [] active = ok active
drop_active q (entry ∷ expired) active = do
  t ← timer_at entry.1 q
  assert (contains (entry.1, t.sequence) active)
  drop_active q expired (remove (entry.1, t.sequence) active)

-- UINTPTR_MAX
abbrev pub max_address : ℕ
max_address = 18446744073709551615

unfoldable pub get_expired : ℕ → TimerQueue → Result (Pairs × TimerQueue)
get_expired now q = do
  assert_in_step q
  let expired = before (now, max_address) q.timers
  assert (is_before_first now (from (now, max_address) q.timers))
  active ← drop_active q expired q.active_timers
  let q' : TimerQueue = record q { active_timers = active }
  assert_in_step q'
  ok (expired, q')

-- The callbacks run in the order of the entries. `run` is what a timer's callback does.
unfoldable pub run_expired :
    (Timer → TimerQueue → Result TimerQueue) → Pairs → TimerQueue → Result TimerQueue
run_expired run [] q = ok q
run_expired run (entry ∷ expired) q = do
  t ← timer_at entry.1 q
  q' ← run t q
  run_expired run expired q'

unfoldable pub handle_read :
    (Timer → TimerQueue → Result TimerQueue) → Bool → ℕ → TimerQueue → Result TimerQueue
handle_read run in_loop_thread now q = do
  check in_loop_thread fatal
  (expired, q') ← get_expired now q
  q'' ← run_expired run expired (record q' { calling_expired_timers = true; canceling_timers = [] })
  ok (record q'' { calling_expired_timers = false })

-- `struct timespec`
pub record TimeSpec : Type 0 where
  pub tv_sec : ℕ
  pub tv_nsec : ℕ

-- `Timestamp::kMicroSecondsPerSecond`
abbrev pub micro_seconds_per_second : ℕ
micro_seconds_per_second = 1000000

-- A time in the past gives a difference of 0 here, which is below 100 as the source's negative one.
unfoldable pub how_much_time_from_now : ℕ → ℕ → TimeSpec
how_much_time_from_now now when =
    let difference = when - now in
    let microseconds = if ltb difference 100 then 100 else difference in
    record {
      tv_sec = microseconds / micro_seconds_per_second;
      tv_nsec = (microseconds % micro_seconds_per_second) * 1000;
    }
