-- ===== src/TimerQueue/Expiry.antt =====
-- The expiry of timers. `getExpired` takes expired timers out of one of the two sets only.
use epoll.Base.{
  ℕ, ◌+◌, ◌≡◌, ◌<◌, refl, sym, ◌∙◌, ◌⊎◌, inl, inr, Bool, true, false, ◌&&◌, [], ◌∷◌, Option, none,
  some, if◌then◌else◌, Bool-cases, Option-cases, is_some, length, Result, ok, err, assertion, arith,
}
use epoll.TimerQueue.{
  Pairs, contains, remove, before, from, Timer, TimerQueue, is_before_first, drop_active,
  max_address, get_expired, run_expired, handle_read,
}
use epoll.TimerQueue.InStep.{runs_at, InStep, timer_lem}
use epoll.TimerQueue.Sets.{length-remove}

-- Every entry is of an allocated timer.
is_allocated : Pairs → TimerQueue → Bool
is_allocated [] q = true
is_allocated (entry ∷ s) q = is_some (q.heap entry.1) && is_allocated s q

allocated_of :
    (s : Pairs) (q : TimerQueue)
    → ((when a : ℕ) → contains (when, a) s ≡ true → is_some (q.heap a) ≡ true)
    → is_allocated s q ≡ true
unfolding is_allocated contains
allocated_of [] q h = refl
allocated_of (entry ∷ s) q h = ground (
  arith,
  h entry.0 entry.1 (ground arith),
  allocated_of s q (λ when a c. h when a (ground (arith, c))),
)

before-is_allocated :
    (x : ℕ × ℕ) (s : Pairs) (q : TimerQueue)
    → is_allocated s q ≡ true
    → is_allocated (before x s) q ≡ true
unfolding is_allocated before
before-is_allocated x [] q h = refl
before-is_allocated x (entry ∷ s) q h = ground (arith, before-is_allocated x s q)

-- Either an assert fails, or as many entries leave the active set as have expired.
drop_active_lem :
    (expired active : Pairs) (q : TimerQueue)
    → is_allocated expired q ≡ true
    → (drop_active q expired active ≡ err assertion)
      ⊎ ((left : Pairs) × (drop_active q expired active ≡ ok left)
          × (length left + length expired ≡ length active))
unfolding drop_active is_allocated
drop_active_lem [] active q h = inr (active, refl, omega arith)
drop_active_lem (entry ∷ expired) active q h = elim (Option-cases (q.heap entry.1)) [
  | inl lost ↦ absurd (ground (arith, h, lost))
  | inr (t, here) ↦ elim (Bool-cases (contains (entry.1, t.sequence) active)) [
    | inr missing ↦ inl (rw (timer_lem entry.1 t q here, missing) refl)
    | inl listed ↦
        let one = length-remove (entry.1, t.sequence) active listed in
        let fewer = remove (entry.1, t.sequence) active in
        elim (drop_active_lem expired fewer q (ground (arith, h, here))) [
          | inl e ↦ inl (rw (timer_lem entry.1 t q here, listed) e)
          | inr (left, e, count) ↦
              inr (left, rw (timer_lem entry.1 t q here, listed) e, omega (arith, one, count))
        ]
  ]
]

runs_allocated :
    (o : Option Timer) (a when : ℕ) (active : Pairs)
    → runs_at o a when active ≡ true
    → is_some o ≡ true
unfolding runs_at
runs_allocated none a when active h = cc
runs_allocated (some t) a when active h = refl

InStep-is_allocated : (q : TimerQueue) → InStep q → is_allocated q.timers q ≡ true
InStep-is_allocated q v =
    allocated_of q.timers q
      (λ when a c. runs_allocated (q.heap a) a when q.active_timers (sym (v.member_lem when a) ∙ c))

some_expired :
    (now : ℕ) (s : Pairs)
    → is_before_first now s ≡ false
    → ((when a : ℕ) → contains (when, a) s ≡ true → a < max_address)
    → 0 < length (before (now, max_address) s)
unfolding before contains
some_expired now [] late low = cc
some_expired now (y ∷ s) late low = ground (arith, late, low y.0 y.1 (ground arith))

none_expired :
    (now : ℕ) (s : Pairs)
    → is_before_first now s ≡ true
    → (before (now, max_address) s ≡ []) × (from (now, max_address) s ≡ s)
unfolding before from
none_expired now [] early = (refl, refl)
none_expired now (y ∷ s) early = (ground (arith, early), ground (arith, early))

get_expired_due :
    (now : ℕ) (q : TimerQueue)
    → InStep q
    → is_before_first now q.timers ≡ false
    → ((when a : ℕ) → contains (when, a) q.timers ≡ true → a < max_address)
    → get_expired now q ≡ err assertion
unfolding get_expired
get_expired_due now q v late low =
    let expired = before (now, max_address) q.timers in
    let due = some_expired now q.timers late low in
    let allocated = before-is_allocated (now, max_address) q.timers q (InStep-is_allocated q v) in
    elim (Bool-cases (is_before_first now (from (now, max_address) q.timers))) [
      | inr wrong ↦ rw wrong (ground (arith, v.size_lem))
      | inl right ↦ elim (drop_active_lem expired q.active_timers q allocated) [
        | inl e ↦ rw (right, e) (ground (arith, v.size_lem))
        | inr (left, e, count) ↦ rw (right, e) (ground (arith, v.size_lem, count, due))
      ]
    ]

get_expired_early :
    (now : ℕ) (q : TimerQueue)
    → InStep q
    → is_before_first now q.timers ≡ true
    → get_expired now q ≡ ok ([], q)
unfolding get_expired drop_active
get_expired_early now q v early =
    let (nothing, all) = none_expired now q.timers early in
    rw (nothing, all, early) (ground (arith, v.size_lem))

-- With the sets in step, and timers below the last address, `handleRead` runs no callback at any
-- time: before the first expiration it only clears the cancelled timers, and from then on it faults,
-- as `getExpired` takes the expired timers out of `_activeTimers` and leaves them in `_timers`.
pub handle_read_lem :
    (run : Timer → TimerQueue → Result TimerQueue) (now : ℕ) (q : TimerQueue)
    → InStep q
    → ((when a : ℕ) → contains (when, a) q.timers ≡ true → a < max_address)
    → handle_read run true now q ≡ (
        if is_before_first now q.timers
        then ok (record q { calling_expired_timers = false; canceling_timers = [] })
        else err assertion)
unfolding handle_read run_expired
handle_read_lem run now q v low = elim (Bool-cases (is_before_first now q.timers)) [
  | inl early ↦ rw (get_expired_early now q v early, early) refl
  | inr late ↦ rw (get_expired_due now q v late low, late) refl
]
