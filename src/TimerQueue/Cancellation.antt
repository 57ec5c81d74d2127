-- ===== src/TimerQueue/Cancellation.antt =====
-- Cancelling a timer.
use epoll.Base.{
  ℕ, suc, ◌≡◌, refl, ap, ◌∙◌, inl, inr, true, false, ◌||◌, ◌==◌, Option, none, some, Bool-cases,
  length, ok, arith, ==_iff,
}
use epoll.TimerQueue.{
  Pairs, contains, put, remove, Timer, TimerQueue, set_at, drop_timer, remember, cancel_in_loop,
}
use epoll.TimerQueue.InStep.{runs_at, InStep, timer_lem}
use epoll.TimerQueue.Sets.{contains-put, length-remove, is_sorted, remove-sorted, contains-remove}

runs_at_own :
    (a : ℕ) (t : Timer) (q : TimerQueue)
    → q.heap a ≡ some t
    → contains (a, t.sequence) q.active_timers ≡ true
    → runs_at (q.heap a) a t.expiration q.active_timers ≡ true
unfolding runs_at
runs_at_own a t q here active = rw (here, active) (ground arith)

-- The state after a cancellation of the timer `t` at `a`.
without : ℕ → Timer → TimerQueue → TimerQueue
without a t q = record q {
  timers = remove (t.expiration, a) q.timers;
  active_timers = remove (a, t.sequence) q.active_timers;
  heap = set_at a none q.heap;
}

remove_other :
    (o : Option Timer) (a sequence when b : ℕ) (active : Pairs)
    → is_sorted active ≡ true
    → b == a ≡ false
    → runs_at o b when (remove (a, sequence) active) ≡ runs_at o b when active
unfolding runs_at
remove_other none a sequence when b active h other = refl
remove_other (some t) a sequence when b active h other =
    ground (arith, contains-remove (a, sequence) (b, t.sequence) active h, other)

remove_member :
    (a : ℕ) (t : Timer) (q : TimerQueue)
    → InStep q
    → q.heap a ≡ some t
    → (when b : ℕ)
    → contains (when, b) (remove (t.expiration, a) q.timers)
      ≡ runs_at (set_at a none q.heap b) b when (remove (a, t.sequence) q.active_timers)
unfolding set_at runs_at
remove_member a t q v here when b =
    let timers = contains-remove (t.expiration, a) (when, b) q.timers v.timers_sorted in
    elim (Bool-cases (b == a)) [
      | inl same ↦
          let old =
            v.member_lem when b
            ∙ ap (λ o. runs_at o b when q.active_timers) (ap q.heap ((==_iff b a).0 same) ∙ here) in
          rw same (ground (arith, timers, same, old))
      | inr other ↦
          rw
            (
              other,
              remove_other (q.heap b) a t.sequence when b q.active_timers v.active_sorted other,
            )
            (ground (arith, timers, v.member_lem when b, other))
    ]

without-InStep :
    (a : ℕ) (t : Timer) (q : TimerQueue)
    → InStep q
    → q.heap a ≡ some t
    → contains (a, t.sequence) q.active_timers ≡ true
    → contains (t.expiration, a) q.timers ≡ true
    → InStep (without a t q)
unfolding without
without-InStep a t q v here active listed = record {
  timers_sorted = remove-sorted (t.expiration, a) q.timers v.timers_sorted;
  active_sorted = remove-sorted (a, t.sequence) q.active_timers v.active_sorted;
  size_lem = omega (
    arith,
    v.size_lem,
    length-remove (t.expiration, a) q.timers listed,
    length-remove (a, t.sequence) q.active_timers active,
  );
  member_lem = λ when b. remove_member a t q v here when b;
}

drop_timer_lem :
    (a : ℕ) (t : Timer) (q : TimerQueue)
    → q.heap a ≡ some t
    → contains (t.expiration, a) q.timers ≡ true
    → drop_timer a t.sequence q ≡ ok (without a t q)
unfolding drop_timer without
drop_timer_lem a t q here listed = rw (timer_lem a t q here, listed) refl

-- `cancelInLoop` of an active timer succeeds: one entry leaves each set, the timer's, the timer is
-- deleted, and the sets stay in step.
pub cancel_in_loop_lem :
    (a : ℕ) (t : Timer) (q : TimerQueue)
    → InStep q
    → q.heap a ≡ some t
    → contains (a, t.sequence) q.active_timers ≡ true
    → (q' : TimerQueue) × (cancel_in_loop true a t.sequence q ≡ ok q')
      × InStep q'
      × (q'.heap a ≡ none)
      × (contains (a, t.sequence) q'.active_timers ≡ false)
      × (suc (length q'.timers) ≡ length q.timers)
unfolding cancel_in_loop without set_at
cancel_in_loop_lem a t q v here active =
    let listed : contains (t.expiration, a) q.timers ≡ true =
      v.member_lem t.expiration a ∙ runs_at_own a t q here active in
    let w = without-InStep a t q v here active listed in
    (
      without a t q,
      rw (active, drop_timer_lem a t q here listed) (ground (arith, v.size_lem, w.size_lem)),
      w,
      ground arith,
      ground
          (arith, contains-remove (a, t.sequence) (a, t.sequence) q.active_timers v.active_sorted),
      length-remove (t.expiration, a) q.timers listed,
    )

-- `cancelInLoop` of a timer that is not active, such as one that has run, faults nothing, leaves both
-- sets, the timers and the timerfd as they are, and outside the run of expired timers changes nothing.
pub cancel_in_loop_inactive :
    (a sequence : ℕ) (q : TimerQueue)
    → InStep q
    → contains (a, sequence) q.active_timers ≡ false
    → (q' : TimerQueue) × (cancel_in_loop true a sequence q ≡ ok q')
      × InStep q'
      × (q'.timers ≡ q.timers)
      × (q'.active_timers ≡ q.active_timers)
      × (q'.heap ≡ q.heap)
      × (q'.armed ≡ q.armed)
      × (contains (a, sequence) q'.canceling_timers
          ≡ (contains (a, sequence) q.canceling_timers || q.calling_expired_timers))
unfolding cancel_in_loop remember
cancel_in_loop_inactive a sequence q v gone = elim (Bool-cases q.calling_expired_timers) [
  | inr idle ↦ (
    q,
    rw (gone, idle, v.size_lem) (ground arith),
    v,
    refl,
    refl,
    refl,
    refl,
    ground (arith, idle),
  )
  | inl calling ↦ elim (Bool-cases (contains (a, sequence) q.canceling_timers)) [
    | inl known ↦ (
      q,
      rw (gone, calling, known, v.size_lem) (ground arith),
      v,
      refl,
      refl,
      refl,
      refl,
      ground (arith, known),
    )
    | inr fresh ↦ (
      record q { canceling_timers = put (a, sequence) q.canceling_timers },
      rw (gone, calling, fresh, v.size_lem) (ground arith),
      record {
        timers_sorted = v.timers_sorted;
        active_sorted = v.active_sorted;
        size_lem = v.size_lem;
        member_lem = v.member_lem;
      },
      refl,
      refl,
      refl,
      refl,
      ground (arith, contains-put (a, sequence) (a, sequence) q.canceling_timers, calling),
    )
  ]
]
