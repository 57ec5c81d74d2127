-- ===== src/TimerQueue/Entries.antt =====
-- What `reset` does with the timer of one entry.
use epoll.Base.{
  ℕ, ◌≡◌, refl, sym, ap, ◌∙◌, inl, inr, Bool, true, false, not, ◌&&◌, ◌||◌, [], ◌∷◌, ◌==◌, Option,
  none, some, Bool-cases, ok, arith, ==_iff,
}
use mathlib.Core.Option.{some-injective}
use epoll.TimerQueue.{Pairs, contains, Timer, TimerQueue, set_at, put_both}
use epoll.TimerQueue.InStep.{runs_at, InStep}
use epoll.TimerQueue.Insertion.{put_both-InStep, insert_lem}
use epoll.TimerQueue.Sets.{contains-put}
use epoll.TimerQueue.Repeating.{restart, stays, put_back}

-- The address has an entry.
unfoldable pub is_listed : ℕ → Pairs → Bool
is_listed a [] = false
is_listed a (entry ∷ s) = a == entry.1 || is_listed a s

-- The address has a timer, and it is not active.
unfoldable pub is_idle : Option Timer → ℕ → Pairs → Bool
is_idle none a active = false
is_idle (some t) a active = not (contains (a, t.sequence) active)

-- The entries are of different timers, which are allocated and not active.
unfoldable pub are_idle : Pairs → TimerQueue → Bool
are_idle [] q = true
are_idle (entry ∷ s) q =
    is_idle (q.heap entry.1) entry.1 q.active_timers && not (is_listed entry.1 s) && are_idle s q

-- An address that holds no active timer has no entry.
idle_no_entry :
    (a : ℕ) (t : Timer) (q : TimerQueue)
    → InStep q
    → q.heap a ≡ some t
    → contains (a, t.sequence) q.active_timers ≡ false
    → (when : ℕ) → contains (when, a) q.timers ≡ false
unfolding runs_at
idle_no_entry a t q v here idle when = rw (v.member_lem when a, here, idle) (ground arith)

-- What lies at the address of an idle timer may change.
set_idle-InStep :
    (a : ℕ) (t : Timer) (new : Option Timer) (q : TimerQueue)
    → InStep q
    → q.heap a ≡ some t
    → contains (a, t.sequence) q.active_timers ≡ false
    → ((when : ℕ) → runs_at new a when q.active_timers ≡ false)
    → InStep (record q { heap = set_at a new q.heap })
unfolding set_at
set_idle-InStep a t new q v here idle quiet = record {
  timers_sorted = v.timers_sorted;
  active_sorted = v.active_sorted;
  size_lem = v.size_lem;
  member_lem = λ when b. elim (Bool-cases (b == a)) [
    | inl same ↦
        rw (same, (==_iff b a).0 same) (idle_no_entry a t q v here idle when ∙ sym (quiet when))
    | inr other ↦ rw other (v.member_lem when b)
  ];
}

module _ (add_time : ℕ → ℕ → ℕ) (now : ℕ) where
  -- What a run over entries leaves: the sets in step, other addresses as they were, the timers that
  -- stay restarted and active, the others deleted.
  pub record IsReset (expired : Pairs) (q q' : TimerQueue) : Type 0 where
    pub in_step : InStep q'
    pub canceling_lem : q'.canceling_timers ≡ q.canceling_timers
    pub armed_lem : q'.armed ≡ q.armed
    pub heap_lem : (b : ℕ) → is_listed b expired ≡ false → q'.heap b ≡ q.heap b
    pub active_lem :
        (b sequence : ℕ)
        → is_listed b expired ≡ false
        → contains (b, sequence) q'.active_timers ≡ contains (b, sequence) q.active_timers
    pub kept_lem :
        (b : ℕ) (t : Timer)
        → is_listed b expired ≡ true
        → q.heap b ≡ some t
        → stays b t q ≡ true
        → (q'.heap b ≡ some (restart add_time now t))
          × (contains (b, t.sequence) q'.active_timers ≡ true)
    pub deleted_lem :
        (b : ℕ) (t : Timer)
        → is_listed b expired ≡ true
        → q.heap b ≡ some t
        → stays b t q ≡ false
        → q'.heap b ≡ none

  pub stays_same :
      (b : ℕ) (t : Timer) (q q' : TimerQueue)
      → q'.canceling_timers ≡ q.canceling_timers
      → stays b t q' ≡ stays b t q
  unfolding stays
  stays_same b t q q' same = rw same refl

  listed_one : (b when a : ℕ) → is_listed b ((when, a) ∷ []) ≡ (b == a)
  unfolding is_listed
  listed_one b when a = ground arith

  -- An address has one timer.
  same_timer :
      (a b : ℕ) (t u : Timer) (q : TimerQueue)
      → b == a ≡ true
      → q.heap a ≡ some t
      → q.heap b ≡ some u
      → (b ≡ a) × (u ≡ t)
  same_timer a b t u q same here there =
      let at = (==_iff b a).0 same in (at, some-injective u t (sym there ∙ ap q.heap at ∙ here))

  stays_own :
      (a b : ℕ) (t u : Timer) (q : TimerQueue) → (b ≡ a) × (u ≡ t) → stays b u q ≡ stays a t q
  stays_own a b t u q (at, one) = rw (at, one) refl

  -- The timer of one entry is deleted.
  pub deleted_one :
      (when a : ℕ) (t : Timer) (q : TimerQueue)
      → InStep q
      → q.heap a ≡ some t
      → contains (a, t.sequence) q.active_timers ≡ false
      → stays a t q ≡ false
      → IsReset ((when, a) ∷ []) q (record q { heap = set_at a none q.heap })
  unfolding set_at runs_at
  deleted_one when a t q v here idle goes = record {
    in_step = set_idle-InStep a t none q v here idle (λ w. refl);
    canceling_lem = refl;
    armed_lem = refl;
    heap_lem = λ b out. rw (sym (listed_one b when a) ∙ out) refl;
    active_lem = λ b sequence out. refl;
    kept_lem = λ b u own there keeps.
        let same = same_timer a b t u q (sym (listed_one b when a) ∙ own) here there in
        absurd (ground (arith, stays_own a b t u q same, goes, keeps));
    deleted_lem = λ b u own there gone. rw (sym (listed_one b when a) ∙ own) refl;
  }

  -- The timer of one entry is put back.
  pub kept_one :
      (when a : ℕ) (t : Timer) (q : TimerQueue)
      → InStep q
      → q.heap a ≡ some t
      → contains (a, t.sequence) q.active_timers ≡ false
      → stays a t q ≡ true
      → (q' : TimerQueue) × (put_back add_time true now a t q ≡ ok q')
        × IsReset ((when, a) ∷ []) q q'
  unfolding put_back set_at restart put_both runs_at
  kept_one when a t q v here idle keeps =
      let t' = restart add_time now t in
      let q₀ : TimerQueue = record q { heap = set_at a (some t') q.heap } in
      let v₀ = set_idle-InStep a t (some t') q v here idle (λ w. ground (arith, idle)) in
      let here₀ : q₀.heap a ≡ some t' = ground (arith) in
      let w = put_both-InStep a t' q₀ v₀ here₀ idle in
      (
        put_both a t' q₀,
        rw (insert_lem a t' q₀ v₀ here₀ idle) refl,
        record {
          in_step = w;
          canceling_lem = refl;
          armed_lem = refl;
          heap_lem = λ b out. rw (sym (listed_one b when a) ∙ out) refl;
          active_lem = λ b sequence out.
              let other = sym (listed_one b when a) ∙ out in
              ground (arith, contains-put (a, t.sequence) (b, sequence) q.active_timers, other);
          kept_lem = λ b u own there stay.
              let (at, one) = same_timer a b t u q (sym (listed_one b when a) ∙ own) here there in
              let entry = contains-put (a, t.sequence) (a, t.sequence) q.active_timers in
              rw (at, one) (here₀, ground (arith, entry));
          deleted_lem = λ b u own there gone.
              let same = same_timer a b t u q (sym (listed_one b when a) ∙ own) here there in
              absurd (ground (arith, stays_own a b t u q same, gone, keeps));
        },
      )
