-- ===== src/TimerQueue/Reset.antt =====
-- What `reset` does with the timers that expired.
use epoll.Base.{
  ℕ, ◌≡◌, refl, sym, ap, ◌∙◌, inl, inr, Bool, true, false, [], ◌∷◌, ltb, ◌==◌, Option, none, some,
  if◌then◌else◌, Bool-cases, ok, arith, ==_iff,
}
use epoll.TimerQueue.{Pairs, contains, Timer, TimerQueue, set_at}
use epoll.TimerQueue.InStep.{runs_at, InStep, timer_lem}
use epoll.TimerQueue.Insertion.{armed-InStep}
use epoll.TimerQueue.Repeating.{restart, stays, reset_all, next_expire, reset}
use epoll.TimerQueue.Entries.{
  is_listed, is_idle, are_idle, IsReset, stays_same, deleted_one, kept_one,
}

-- The expiration of the first entry, or 0.
abbrev pub first_of : Pairs → ℕ
first_of [] = 0
first_of (entry ∷ s) = entry.0

runs_then :
    (o : Option Timer) (a when : ℕ) (active : Pairs)
    → runs_at o a when active ≡ true
    → (t : Timer) × (o ≡ some t) × (t.expiration ≡ when)
unfolding runs_at
runs_then none a when active h = cc
runs_then (some t) a when active h = (t, refl, ground (arith, h))

first_runs :
    (s : Pairs) (q : TimerQueue)
    → ((when a : ℕ) → contains (when, a) s ≡ runs_at (q.heap a) a when q.active_timers)
    → next_expire s q ≡ ok (first_of s)
unfolding next_expire contains
first_runs [] q h = refl
first_runs ((when, a) ∷ s) q h =
    let (t, here, at) =
      runs_then (q.heap a) a when q.active_timers (sym (h when a) ∙ ground (arith)) in
    rw (timer_lem a t q here) (ap ok at)

module _ (add_time : ℕ → ℕ → ℕ) (now : ℕ) where
  -- An entry, and then the rest.
  both_resets :
      (when a : ℕ) (expired : Pairs) (q q₁ q₂ : TimerQueue)
      → is_listed a expired ≡ false
      → IsReset add_time now ((when, a) ∷ []) q q₁
      → IsReset add_time now expired q₁ q₂
      → IsReset add_time now ((when, a) ∷ expired) q q₂
  unfolding is_listed
  both_resets when a expired q q₁ q₂ new v w = record {
    in_step = w.in_step;
    canceling_lem = w.canceling_lem ∙ v.canceling_lem;
    armed_lem = w.armed_lem ∙ v.armed_lem;
    heap_lem = λ b out. w.heap_lem b (ground (arith, out)) ∙ v.heap_lem b (ground (arith, out));
    active_lem = λ b sequence out.
        w.active_lem b sequence (ground (arith, out))
        ∙ v.active_lem b sequence (ground (arith, out));
    kept_lem = λ b t own here keeps. elim (Bool-cases (b == a)) [
      | inl same ↦
          let out : is_listed b expired ≡ false = rw ((==_iff b a).0 same) new in
          let (there, active) = v.kept_lem b t (ground (arith, same)) here keeps in
          (w.heap_lem b out ∙ there, w.active_lem b t.sequence out ∙ active)
      | inr other ↦
          w.kept_lem b t (ground (arith, own, other)) (v.heap_lem b (ground (arith, other)) ∙ here)
            (stays_same add_time now b t q q₁ v.canceling_lem ∙ keeps)
    ];
    deleted_lem = λ b t own here gone. elim (Bool-cases (b == a)) [
      | inl same ↦
          let out : is_listed b expired ≡ false = rw ((==_iff b a).0 same) new in
          w.heap_lem b out ∙ v.deleted_lem b t (ground (arith, same)) here gone
      | inr other ↦
          w.deleted_lem b t (ground (arith, own, other))
            (v.heap_lem b (ground (arith, other)) ∙ here)
            (stays_same add_time now b t q q₁ v.canceling_lem ∙ gone)
    ];
  }

  idle_same :
      (b : ℕ) (o : Option Timer) (active active' : Pairs)
      → ((sequence : ℕ) → contains (b, sequence) active' ≡ contains (b, sequence) active)
      → is_idle o b active ≡ true
      → is_idle o b active' ≡ true
  unfolding is_idle
  idle_same b none active active' same h = h
  idle_same b (some t) active active' same h = rw (same t.sequence) h

  -- The rest stays idle when one entry has been dealt with.
  still_idle :
      (when a : ℕ) (expired : Pairs) (q q₁ : TimerQueue)
      → IsReset add_time now ((when, a) ∷ []) q q₁
      → is_listed a expired ≡ false
      → are_idle expired q ≡ true
      → are_idle expired q₁ ≡ true
  unfolding are_idle is_listed
  still_idle when a [] q q₁ v new h = refl
  still_idle when a ((when', b) ∷ expired) q q₁ v new h =
      let out : is_listed b ((when, a) ∷ []) ≡ false = ground (arith, new) in
      let own =
        idle_same b (q.heap b) q.active_timers q₁.active_timers (λ n. v.active_lem b n out)
          (ground (arith, h)) in
      let rest = still_idle when a expired q q₁ v (ground (arith, new)) (ground (arith, h)) in
      rw (v.heap_lem b out) (ground (arith, own, rest, h))

  idle_timer :
      (a : ℕ) (o : Option Timer) (active : Pairs)
      → is_idle o a active ≡ true
      → (t : Timer) × (o ≡ some t) × (contains (a, t.sequence) active ≡ false)
  unfolding is_idle
  idle_timer a none active h = cc
  idle_timer a (some t) active h = (t, refl, ground (arith, h))

  reset_all_lem :
      (expired : Pairs) (q : TimerQueue)
      → InStep q
      → are_idle expired q ≡ true
      → (q' : TimerQueue) × (reset_all add_time true now expired q ≡ ok q')
        × IsReset add_time now expired q q'
  unfolding reset_all are_idle is_listed
  reset_all_lem [] q v h = (
    q,
    refl,
    record {
      in_step = v;
      canceling_lem = refl;
      armed_lem = refl;
      heap_lem = λ b out. refl;
      active_lem = λ b sequence out. refl;
      kept_lem = λ b t own here keeps. cc;
      deleted_lem = λ b t own here gone. cc;
    },
  )
  reset_all_lem ((when, a) ∷ expired) q v h =
      let (t, here, idle) = idle_timer a (q.heap a) q.active_timers (ground (arith, h)) in
      let new : is_listed a expired ≡ false = ground (arith, h) in
      let rest : are_idle expired q ≡ true = ground (arith, h) in
      elim (Bool-cases (stays a t q)) [
        | inl keeps ↦
            let (q₁, e₁, v₁) = kept_one add_time now when a t q v here idle keeps in
            let (q₂, e₂, v₂) =
              reset_all_lem expired q₁ v₁.in_step (still_idle when a expired q q₁ v₁ new rest) in
            (
              q₂,
              rw (timer_lem a t q here, keeps, e₁) e₂,
              both_resets when a expired q q₁ q₂ new v₁ v₂,
            )
        | inr goes ↦
            let q₁ : TimerQueue = record q { heap = set_at a none q.heap } in
            let v₁ = deleted_one add_time now when a t q v here idle goes in
            let (q₂, e₂, v₂) =
              reset_all_lem expired q₁ v₁.in_step (still_idle when a expired q q₁ v₁ new rest) in
            (q₂, rw (timer_lem a t q here, goes) e₂, both_resets when a expired q q₁ q₂ new v₁ v₂)
      ]

  runs_set :
      (a : ℕ) (t : Timer) (o : Option Timer) (active : Pairs) (b : Bool)
      → o ≡ (if b then some t else none)
      → (b ≡ true → contains (a, t.sequence) active ≡ true)
      → runs_at o a t.expiration active ≡ b
  unfolding runs_at
  runs_set a t o active true at listed = rw (at, listed refl) (ground arith)
  runs_set a t o active false at listed = rw at refl

  entry_of :
      (a : ℕ) (t : Timer) (expired : Pairs) (q q' : TimerQueue)
      → IsReset add_time now expired q q'
      → is_listed a expired ≡ true
      → q.heap a ≡ some t
      → (q'.heap a ≡ (if stays a t q then some (restart add_time now t) else none))
        × (contains ((restart add_time now t).expiration, a) q'.timers ≡ stays a t q)
  unfolding restart
  entry_of a t expired q q' w own here =
      let left : q'.heap a ≡ (if stays a t q then some (restart add_time now t) else none) =
        elim (Bool-cases (stays a t q)) [
          | inl keeps ↦ rw keeps (w.kept_lem a t own here keeps).0
          | inr goes ↦ rw goes (w.deleted_lem a t own here goes)
        ] in
      let at = w.in_step.member_lem (restart add_time now t).expiration a in
      (
        left,
        at
            ∙ runs_set a (restart add_time now t) (q'.heap a) q'.active_timers (stays a t q) left
                (λ keeps. (w.kept_lem a t own here keeps).1),
      )

  -- `reset` of timers that expired and are in neither set, with the sets in step, succeeds and keeps
  -- them in step. A repeating timer that was not cancelled is restarted and is an entry again, any
  -- other is deleted; and the timerfd is set for the first entry, unless there is none or its time
  -- is invalid.
  pub reset_lem :
      (expired : Pairs) (q : TimerQueue) (a : ℕ) (t : Timer)
      → InStep q
      → are_idle expired q ≡ true
      → is_listed a expired ≡ true
      → q.heap a ≡ some t
      → (q' : TimerQueue) × (reset add_time true expired now q ≡ ok q')
        × InStep q'
        × (q'.heap a ≡ (if stays a t q then some (restart add_time now t) else none))
        × (contains ((restart add_time now t).expiration, a) q'.timers ≡ stays a t q)
        × (q'.armed ≡ (if ltb 0 (first_of q'.timers) then some (first_of q'.timers) else q.armed))
  unfolding reset
  reset_lem expired q a t v idle own here =
      let (q', e, w) = reset_all_lem expired q v idle in
      let first = first_runs q'.timers q' w.in_step.member_lem in
      let (at, entry) = entry_of a t expired q q' w own here in
      elim (Bool-cases (ltb 0 (first_of q'.timers))) [
        | inl valid ↦ (
          record q' { armed = some (first_of q'.timers) },
          rw (e, first, valid) refl,
          armed-InStep (some (first_of q'.timers)) q' w.in_step,
          at,
          entry,
          rw valid refl,
        )
        | inr invalid ↦
            (q', rw (e, first, invalid) refl, w.in_step, at, entry, rw invalid w.armed_lem)
      ]
