-- ===== src/Examples/Timers.antt =====
-- A queue with one timer, to which a second is added: witnesses.
use epoll.TimerQueue.Sets.{is_sorted}
use epoll.Base.{
  max, ltb, ℕ, suc, ◌+◌, ◌-◌, ◌*◌, ◌≡◌, ◌<◌, refl, true, false, [], ◌∷◌, ◌==◌, Option, none, some,
  if◌then◌else◌, length, ok, err, assertion, arith,
}
use epoll.TimerQueue.{
  contains, put, Timer, TimerQueue, put_both, is_before_first, add_timer_in_loop, cancel_in_loop,
  handle_read, max_address, how_much_time_from_now,
}
use epoll.TimerQueue.InStep.{runs_at, InStep}
use epoll.TimerQueue.Insertion.{put_both-InStep, add_timer_in_loop_lem}
use epoll.TimerQueue.Cancellation.{cancel_in_loop_lem}
use epoll.TimerQueue.Expiry.{handle_read_lem}
use epoll.TimerQueue.Repeating.{restart, stays, reset}
use epoll.TimerQueue.Entries.{is_listed, is_idle, are_idle}
use epoll.TimerQueue.Reset.{first_of, reset_lem}
use epoll.TimerQueue.Setup.{Timing, add_timer, cancel, call_functor}
use epoll.TimerQueue.Undone.{add_timer-cancel}
use epoll.EventLoop.{run_all}
use epoll.Examples.Kernel.{epoll_model}
use epoll.TimerQueue.Clock.{how_much_time_from_now_lem}

abbrev late_timer : Timer
late_timer = record { expiration = 500; interval = 0; repeat = false; sequence = 1 }

abbrev early_timer : Timer
early_timer = record { expiration = 300; interval = 50; repeat = true; sequence = 2 }

abbrev heap : ℕ → Option Timer
heap a = if a == 10 then some late_timer else (if a == 20 then some early_timer else none)

abbrev idle : TimerQueue
idle = record {
  heap = heap;
  timers = [];
  active_timers = [];
  calling_expired_timers = false;
  canceling_timers = [];
  armed = none;
}

runs_at-nil : (o : Option Timer) (a when : ℕ) → false ≡ runs_at o a when []
unfolding runs_at contains
runs_at-nil none a when = refl
runs_at-nil (some t) a when = ground arith

idle-InStep : InStep idle
unfolding is_sorted contains
idle-InStep = record {
  timers_sorted = refl;
  active_sorted = refl;
  size_lem = refl;
  member_lem = λ when a. runs_at-nil (heap a) a when;
}

abbrev one : TimerQueue
one = put_both 10 late_timer idle

one-InStep : InStep one
unfolding contains
one-InStep = put_both-InStep 10 late_timer idle idle-InStep refl refl

add_timer_in_loop_lem_example :
    (q' : TimerQueue) × (add_timer_in_loop true 20 one ≡ ok q')
    × InStep q'
    × (contains (300, 20) q'.timers ≡ true)
    × (q'.armed ≡ (if is_before_first 300 one.timers then some 300 else one.armed))
unfolding contains put put_both
add_timer_in_loop_lem_example = add_timer_in_loop_lem 20 early_timer one one-InStep refl refl

cancel_in_loop_lem_example :
    (q' : TimerQueue) × (cancel_in_loop true 10 1 one ≡ ok q')
    × InStep q'
    × (q'.heap 10 ≡ none)
    × (contains (10, 1) q'.active_timers ≡ false)
    × (suc (length q'.timers) ≡ length one.timers)
unfolding contains put put_both
cancel_in_loop_lem_example = cancel_in_loop_lem 10 late_timer one one-InStep refl refl

low : (when a : ℕ) → contains (when, a) one.timers ≡ true → a < max_address
unfolding contains put put_both
low when a h = ground (arith, h)

handle_read_lem_example : handle_read (λ t q. ok q) true 600 one ≡ err assertion
unfolding put put_both
handle_read_lem_example = handle_read_lem (λ t q. ok q) 600 one one-InStep low

how_much_time_from_now_lem_example :
    let t = how_much_time_from_now 5 2000010 in
    (t.tv_nsec < 1000000000) × (t.tv_sec * 1000000000 + t.tv_nsec ≡ max (2000010 - 5) 100 * 1000)
how_much_time_from_now_lem_example = how_much_time_from_now_lem 5 2000010

reset_lem_example :
    (q' : TimerQueue) × (reset (λ now interval. now + interval) true ((300, 20) ∷ []) 310 one
      ≡ ok q')
    × InStep q'
    × (q'.heap 20 ≡ (
        if stays 20 early_timer one
        then some (restart (λ now interval. now + interval) 310 early_timer)
        else none))
    × (contains (360, 20) q'.timers ≡ stays 20 early_timer one)
    × (q'.armed ≡ (if ltb 0 (first_of q'.timers) then some (first_of q'.timers) else one.armed))
unfolding are_idle is_idle is_listed restart contains put put_both
reset_lem_example =
    reset_lem (λ now interval. now + interval) 310 ((300, 20) ∷ []) one 20 early_timer one-InStep
      refl refl refl

abbrev timing : Timing
timing = record { queue = one; pending = []; num_created = 2 }

-- Both calls come from another thread.
add_timer-cancel_example :
    (s₁ : Timing) × (s₂ : Timing) × (q : TimerQueue) × (add_timer (ltb 0) false 30 400 0 timing
      ≡ ok ((30, 3), s₁))
    × (cancel false (30, 3) s₁ ≡ ok s₂)
    × (run_all epoll_model _ call_functor s₂.pending s₂.queue ≡ ok q)
    × InStep q
    × (q.heap 30 ≡ none)
    × (contains (30, 3) q.active_timers ≡ false)
unfolding contains put put_both
add_timer-cancel_example =
    add_timer-cancel epoll_model (ltb 0) false 30 400 0 timing one-InStep refl refl refl
