-- ===== src/TimerQueue/Undone.antt =====
-- A timer that is added and cancelled.
use epoll.Base.{
  ℕ, ◌+◌, ◌≡◌, refl, sym, ap, ◌∙◌, inl, inr, Bool, true, false, [], ◌==◌, none, some, Bool-cases,
  ok, arith, ==_iff,
}
use epoll.EventLoop.{run_all}
use epoll.Poller.{Epoll}
use epoll.TimerQueue.{
  contains, Timer, TimerQueue, set_at, put_both, add_timer_in_loop, cancel_in_loop,
}
use epoll.TimerQueue.InStep.{runs_at, InStep}
use epoll.TimerQueue.Sets.{contains-put}
use epoll.TimerQueue.Insertion.{put_both-InStep, armed-InStep, add_timer_in_loop_put}
use epoll.TimerQueue.Cancellation.{cancel_in_loop_lem}
use epoll.TimerQueue.Setup.{Timing, new_timer, call_functor, run_in_loop, add_timer, cancel}

-- A timer is allocated, and is in no set yet.
allocated-InStep :
    (a : ℕ) (t : Timer) (q : TimerQueue)
    → InStep q
    → q.heap a ≡ none
    → contains (a, t.sequence) q.active_timers ≡ false
    → InStep (record q { heap = set_at a (some t) q.heap })
unfolding set_at runs_at
allocated-InStep a t q v free new = record {
  timers_sorted = v.timers_sorted;
  active_sorted = v.active_sorted;
  size_lem = v.size_lem;
  member_lem = λ when b. elim (Bool-cases (b == a)) [
    | inl same ↦
        rw (same, (==_iff b a).0 same)
          (v.member_lem when a
            ∙ ap (λ o. runs_at o a when q.active_timers) free
            ∙ sym (ground (arith, new)))
    | inr other ↦ rw other (v.member_lem when b)
  ];
}

both_in_loop :
    (a : ℕ) (t : Timer) (q : TimerQueue)
    → InStep q
    → q.heap a ≡ none
    → contains (a, t.sequence) q.active_timers ≡ false
    → (q₁ : TimerQueue) × (q₂ : TimerQueue) × (add_timer_in_loop true a
          (record q { heap = set_at a (some t) q.heap })
        ≡ ok q₁)
      × (cancel_in_loop true a t.sequence q₁ ≡ ok q₂)
      × InStep q₂
      × (q₂.heap a ≡ none)
      × (contains (a, t.sequence) q₂.active_timers ≡ false)
unfolding set_at put_both
both_in_loop a t q v free new =
    let q₀ : TimerQueue = record q { heap = set_at a (some t) q.heap } in
    let v₀ = allocated-InStep a t q v free new in
    let here : q₀.heap a ≡ some t = ground (arith) in
    let (o, e) = add_timer_in_loop_put a t q₀ v₀ here new in
    let q₁ : TimerQueue = record (put_both a t q₀) { armed = o } in
    let v₁ = armed-InStep o (put_both a t q₀) (put_both-InStep a t q₀ v₀ here new) in
    let active : contains (a, t.sequence) q₁.active_timers ≡ true =
      ground (arith, contains-put (a, t.sequence) (a, t.sequence) q.active_timers) in
    let (q₂, e₂, v₂, gone, off, _) = cancel_in_loop_lem a t q₁ v₁ here active in
    (q₁, q₂, e, e₂, v₂, gone, off)

-- `addTimer` and then `cancel` of the `TimerId` that it returned, both in the loop's thread or both
-- in another one while the loop's queue is empty, succeed. When the loop has then run the functors
-- in its queue, the sets are in step and the timer is deleted and not active.
pub add_timer-cancel :
    (epoll : Epoll) (positive : ℕ → Bool) (in_loop_thread : Bool) (a when interval : ℕ) (s : Timing)
    → InStep s.queue
    → s.queue.heap a ≡ none
    → contains (a, s.num_created + 1) s.queue.active_timers ≡ false
    → s.pending ≡ []
    → (s₁ : Timing) × (s₂ : Timing) × (q : TimerQueue) × (add_timer positive in_loop_thread a when
          interval s
        ≡ ok ((a, s.num_created + 1), s₁))
      × (cancel in_loop_thread (a, s.num_created + 1) s₁ ≡ ok s₂)
      × (run_all epoll _ call_functor s₂.pending s₂.queue ≡ ok q)
      × InStep q
      × (q.heap a ≡ none)
      × (contains (a, s.num_created + 1) q.active_timers ≡ false)
unfolding add_timer cancel run_in_loop call_functor run_all new_timer
add_timer-cancel epoll positive true a when interval s v free new idle =
    let t = new_timer positive s.num_created when interval in
    let (q₁, q₂, e₁, e₂, v₂, gone, off) = both_in_loop a t s.queue v free new in
    let s₁ : Timing = record s { queue = q₁; num_created = s.num_created + 1 } in
    (s₁, record s₁ { queue = q₂ }, q₂, rw e₁ refl, rw e₂ refl, rw idle refl, v₂, gone, off)
add_timer-cancel epoll positive false a when interval s v free new idle =
    let t = new_timer positive s.num_created when interval in
    let (q₁, q₂, e₁, e₂, v₂, gone, off) = both_in_loop a t s.queue v free new in
    (_, _, q₂, refl, refl, rw (idle, e₁, e₂) refl, v₂, gone, off)
