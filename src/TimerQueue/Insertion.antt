-- ===== src/TimerQueue/Insertion.antt =====
-- Adding and cancelling timers keeps the two sets in step.
use epoll.Base.{
  ℕ, suc, ◌≡◌, refl, ap, ◌∙◌, inl, inr, true, false, ◌==◌, Option, none, some, if◌then◌else◌,
  Bool-cases, ok, arith, ==_iff,
}
use epoll.TimerQueue.{
  Pairs, contains, put, Timer, TimerQueue, is_before_first, put_both, insert, add_timer_in_loop,
}
use epoll.TimerQueue.InStep.{runs_at, InStep, timer_lem}
use epoll.TimerQueue.Sets.{contains-put, length-put, put-sorted}

both_new :
    (a : ℕ) (t : Timer) (q : TimerQueue)
    → InStep q
    → q.heap a ≡ some t
    → contains (a, t.sequence) q.active_timers ≡ false
    → contains (t.expiration, a) q.timers ≡ false
unfolding runs_at
both_new a t q v here new = rw (v.member_lem t.expiration a, here, new) (ground arith)

put_other :
    (o : Option Timer) (a sequence when b : ℕ) (active : Pairs)
    → b == a ≡ false
    → runs_at o b when (put (a, sequence) active) ≡ runs_at o b when active
unfolding runs_at
put_other none a sequence when b active other = refl
put_other (some t) a sequence when b active other =
    ground (arith, contains-put (a, sequence) (b, t.sequence) active, other)

put_member :
    (a : ℕ) (t : Timer) (q : TimerQueue)
    → InStep q
    → q.heap a ≡ some t
    → (when b : ℕ)
    → contains (when, b) (put (t.expiration, a) q.timers)
      ≡ runs_at (q.heap b) b when (put (a, t.sequence) q.active_timers)
unfolding runs_at
put_member a t q v here when b = elim (Bool-cases (b == a)) [
  | inl same ↦
      let timers = contains-put (t.expiration, a) (when, a) q.timers in
      let active = contains-put (a, t.sequence) (a, t.sequence) q.active_timers in
      let old = v.member_lem when a ∙ ap (λ o. runs_at o a when q.active_timers) here in
      rw ((==_iff b a).0 same, here) (ground (arith, timers, active, old))
  | inr other ↦
      let timers = contains-put (t.expiration, a) (when, b) q.timers in
      rw (put_other (q.heap b) a t.sequence when b q.active_timers other)
        (ground (arith, timers, v.member_lem when b, other))
]

pub put_both-InStep :
    (a : ℕ) (t : Timer) (q : TimerQueue)
    → InStep q
    → q.heap a ≡ some t
    → contains (a, t.sequence) q.active_timers ≡ false
    → InStep (put_both a t q)
unfolding put_both
put_both-InStep a t q v here new = record {
  timers_sorted = put-sorted (t.expiration, a) q.timers v.timers_sorted (both_new a t q v here new);
  active_sorted = put-sorted (a, t.sequence) q.active_timers v.active_sorted new;
  size_lem =
      rw (length-put (t.expiration, a) q.timers, length-put (a, t.sequence) q.active_timers)
        (ap suc v.size_lem);
  member_lem = λ when b. put_member a t q v here when b;
}

put_both-heap : (a : ℕ) (t : Timer) (q : TimerQueue) → (put_both a t q).heap a ≡ q.heap a
unfolding put_both
put_both-heap a t q = refl

put_both-armed : (a : ℕ) (t : Timer) (q : TimerQueue) → (put_both a t q).armed ≡ q.armed
unfolding put_both
put_both-armed a t q = refl

put_both-contains :
    (a : ℕ) (t : Timer) (q : TimerQueue) → contains (t.expiration, a) (put_both a t q).timers ≡ true
unfolding put_both
put_both-contains a t q = ground (arith, contains-put (t.expiration, a) (t.expiration, a) q.timers)

pub insert_lem :
    (a : ℕ) (t : Timer) (q : TimerQueue)
    → InStep q
    → q.heap a ≡ some t
    → contains (a, t.sequence) q.active_timers ≡ false
    → insert true a q ≡ ok (is_before_first t.expiration q.timers, put_both a t q)
unfolding insert
insert_lem a t q v here new =
    let old = both_new a t q v here new in
    let w = put_both-InStep a t q v here new in
    rw (timer_lem a t q here, old, new) (ground (arith, v.size_lem, w.size_lem))

-- The sets are in step whatever the timerfd is set for.
pub armed-InStep : (o : Option ℕ) (q : TimerQueue) → InStep q → InStep (record q { armed = o })
armed-InStep o q v = record {
  timers_sorted = v.timers_sorted;
  active_sorted = v.active_sorted;
  size_lem = v.size_lem;
  member_lem = v.member_lem;
}

-- Whatever the timerfd is set for, the timer is in both sets.
pub add_timer_in_loop_put :
    (a : ℕ) (t : Timer) (q : TimerQueue)
    → InStep q
    → q.heap a ≡ some t
    → contains (a, t.sequence) q.active_timers ≡ false
    → (o : Option ℕ) × (add_timer_in_loop true a q ≡ ok (record (put_both a t q) { armed = o }))
unfolding add_timer_in_loop
add_timer_in_loop_put a t q v here new =
    let again = timer_lem a t (put_both a t q) (put_both-heap a t q ∙ here) in
    elim (Bool-cases (is_before_first t.expiration q.timers)) [
      | inl first ↦ (some t.expiration, rw (insert_lem a t q v here new, again, first) refl)
      | inr later ↦ ((put_both a t q).armed, rw (insert_lem a t q v here new, again, later) refl)
    ]

-- `addTimerInLoop` of an allocated timer that is not active succeeds and keeps the two sets in step.
-- The timer is then active, and the timerfd is set for its expiration exactly when no other timer
-- expires before it or with it.
pub add_timer_in_loop_lem :
    (a : ℕ) (t : Timer) (q : TimerQueue)
    → InStep q
    → q.heap a ≡ some t
    → contains (a, t.sequence) q.active_timers ≡ false
    → (q' : TimerQueue) × (add_timer_in_loop true a q ≡ ok q')
      × InStep q'
      × (contains (t.expiration, a) q'.timers ≡ true)
      × (q'.armed ≡ (if is_before_first t.expiration q.timers then some t.expiration else q.armed))
unfolding add_timer_in_loop
add_timer_in_loop_lem a t q v here new =
    let w = put_both-InStep a t q v here new in
    let there = put_both-contains a t q in
    let again = timer_lem a t (put_both a t q) (put_both-heap a t q ∙ here) in
    elim (Bool-cases (is_before_first t.expiration q.timers)) [
      | inl first ↦ (
        record (put_both a t q) { armed = some t.expiration },
        rw (insert_lem a t q v here new, again, first) refl,
        armed-InStep (some t.expiration) (put_both a t q) w,
        there,
        rw first refl,
      )
      | inr later ↦ (
        put_both a t q,
        rw (insert_lem a t q v here new, again, later) refl,
        w,
        there,
        rw later (put_both-armed a t q),
      )
    ]
