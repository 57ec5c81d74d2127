-- ===== src/TimerQueue/Repeating.antt =====
-- TimerQueue.cpp and Timer.cpp: `reset`, which puts repeating timers back after their callbacks and
-- deletes the others. `add_time` is the function of Timestamp.h, which reads an interval.
use epoll.Base.{ℕ, Bool, not, ◌&&◌, [], ◌∷◌, ltb, none, some, if◌then◌else◌, Result, ok, ◌>>=◌}
use epoll.TimerQueue.{Pairs, contains, Timer, TimerQueue, timer_at, set_at, insert}

-- `it->second->repeat()`, and the timer was not cancelled meanwhile.
unfoldable pub stays : ℕ → Timer → TimerQueue → Bool
stays a t q = t.repeat && not (contains (a, t.sequence) q.canceling_timers)

-- `nextExpire`, where a queue without timers leaves it invalid
unfoldable pub next_expire : Pairs → TimerQueue → Result ℕ
next_expire [] q = ok 0
next_expire (entry ∷ timers) q = do t ← timer_at entry.1 q; ok t.expiration

module _ (add_time : ℕ → ℕ → ℕ) where
  -- `Timestamp::invalid()` is 0.
  unfoldable pub restart : ℕ → Timer → Timer
  restart now t = record t { expiration = (if t.repeat then add_time now t.interval else 0) }

  unfoldable pub put_back : Bool → ℕ → ℕ → Timer → TimerQueue → Result TimerQueue
  put_back in_loop_thread now a t q = do
    let q' : TimerQueue = record q { heap = set_at a (some (restart now t)) q.heap }
    (earliest_changed, q'') ← insert in_loop_thread a q'
    ok q''

  -- The loop over the expired entries.
  unfoldable pub reset_all : Bool → ℕ → Pairs → TimerQueue → Result TimerQueue
  reset_all in_loop_thread now [] q = ok q
  reset_all in_loop_thread now (entry ∷ expired) q = do
    let a = entry.1
    t ← timer_at a q
    q' ←
        if stays a t q
        then put_back in_loop_thread now a t q
        else ok (record q { heap = set_at a none q.heap })
    reset_all in_loop_thread now expired q'

  unfoldable pub reset : Bool → Pairs → ℕ → TimerQueue → Result TimerQueue
  reset in_loop_thread expired now q = do
    q' ← reset_all in_loop_thread now expired q
    next ← next_expire q'.timers q'
    ok (if ltb 0 next then record q' { armed = some next } else q')
