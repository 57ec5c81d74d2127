-- ===== src/TimerQueue/Clock.antt =====
-- The time that the timerfd is set for.
use epoll.Base.{max, ℕ, ◌+◌, ◌-◌, ◌*◌, ◌≡◌, ◌<◌, arith}
use epoll.TimerQueue.{how_much_time_from_now}

-- `howMuchTimeFromNow` gives a proper timespec: less than a second of nanoseconds, and in all the
-- time until `when`, but at least 100 microseconds.
pub how_much_time_from_now_lem :
    (now when : ℕ)
    → let t = how_much_time_from_now now when in
      (t.tv_nsec < 1000000000) × (t.tv_sec * 1000000000 + t.tv_nsec ≡ max (when - now) 100 * 1000)
unfolding how_much_time_from_now
how_much_time_from_now_lem now when = (ground arith, ground arith)
