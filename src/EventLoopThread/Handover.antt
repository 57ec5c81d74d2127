-- ===== src/EventLoopThread/Handover.antt =====
-- The hand-over of the loop in `EventLoopThread::startLoop` and `threadFunc`.
use epoll.Base.{
  Bool-cases, ℕ, ◌≡◌, refl, sym, ap, ◌∙◌, ◌⊎◌, inl, inr, Bool, true, false, not, ◌&&◌, ◌||◌, ◌==◌,
  Option, none, some, Option-cases, is_some, arith, ==_iff,
}
use epoll.EventLoopThread.{
  OwnerAt, created, awaiting, awake, has_loop, has_null, leaving, quitting, calling_null, joining,
  gone, ThreadAt, unborn, made, shared, looping, looped, finished, EventLoopThread, new, Step,
  start, make, hand_over, wake, take_over, take_null, tell_quit, enter, leave, finish, begin_exit,
  see_loop, see_none, call_quit, call_null, join, Reach, here, next,
}

-- The loop that a thread has handed over, or none.
abbrev pub handed : ThreadAt → Option ℕ
handed unborn = none
handed (made l) = none
handed (shared l) = some l
handed (looping l) = some l
handed (looped l) = some l
handed finished = none

-- The loop that the owner uses, or none.
abbrev pub used : OwnerAt → Option ℕ
used created = none
used awaiting = none
used awake = none
used (has_loop l) = some l
used has_null = none
used leaving = none
used (quitting l) = some l
used calling_null = none
used joining = none
used gone = none

abbrev is_awake : OwnerAt → Bool
is_awake created = false
is_awake awaiting = false
is_awake awake = true
is_awake (has_loop l) = false
is_awake has_null = false
is_awake leaving = false
is_awake (quitting l) = false
is_awake calling_null = false
is_awake joining = false
is_awake gone = false

abbrev pub is_null : OwnerAt → Bool
is_null created = false
is_null awaiting = false
is_null awake = false
is_null (has_loop l) = false
is_null has_null = true
is_null leaving = false
is_null (quitting l) = false
is_null calling_null = false
is_null joining = false
is_null gone = false

-- The owner does not have a loop any more.
abbrev is_done : OwnerAt → Bool
is_done created = false
is_done awaiting = false
is_done awake = false
is_done (has_loop l) = false
is_done has_null = false
is_done leaving = false
is_done (quitting l) = false
is_done calling_null = true
is_done joining = true
is_done gone = true

-- The thread's `loop()` has returned.
abbrev pub is_over : ThreadAt → Bool
is_over unborn = false
is_over (made l) = false
is_over (shared l) = false
is_over (looping l) = false
is_over (looped l) = true
is_over finished = true

abbrev is_unborn : ThreadAt → Bool
is_unborn unborn = true
is_unborn (made l) = false
is_unborn (shared l) = false
is_unborn (looping l) = false
is_unborn (looped l) = false
is_unborn finished = false

-- Whether two addresses are the same, or both missing.
abbrev same_loop : Option ℕ → Option ℕ → Bool
same_loop none none = true
same_loop (some k) (some l) = k == l
same_loop _ _ = false

same_loop_lem : (o u : Option ℕ) → same_loop o u ≡ true → o ≡ u
same_loop_lem none none h = refl
same_loop_lem none (some l) h = cc
same_loop_lem (some k) none h = cc
same_loop_lem (some k) (some l) h = ap some ((==_iff k l).0 h)

-- `startLoop` has not returned.
abbrev is_young : OwnerAt → Bool
is_young created = true
is_young awaiting = true
is_young awake = true
is_young (has_loop l) = false
is_young has_null = true
is_young leaving = false
is_young (quitting l) = false
is_young calling_null = false
is_young joining = false
is_young gone = false

-- The owner is about to call a NULL.
abbrev pub calls_null : OwnerAt → Bool
calls_null created = false
calls_null awaiting = false
calls_null awake = false
calls_null (has_loop l) = false
calls_null has_null = false
calls_null leaving = false
calls_null (quitting l) = false
calls_null calling_null = true
calls_null joining = false
calls_null gone = false

-- The shared pointer is the loop that has been handed over; a loop that the owner uses is that one,
-- or its thread is at an end; and a loop ends only when `quit` has been called, after `startLoop`
-- has returned.
abbrev is_sound : EventLoopThread → Bool
is_sound s =
    same_loop s.loop (handed s.thread)
    && (not (is_some (used s.owner))
        || (same_loop (used s.owner) (handed s.thread) || is_over s.thread))
    && (not (is_awake s.owner) || is_some (handed s.thread))
    && not (is_null s.owner)
    && (not s.quit || not (is_young s.owner))
    && (not (is_over s.thread) || s.quit)
    && (not (calls_null s.owner) || is_over s.thread)
    && (is_unborn s.thread || s.thread_started)
    && (not (is_unborn s.thread) || is_young s.owner)

Step-is_sound : {s t : EventLoopThread} → Step s t → is_sound s ≡ true → is_sound t ≡ true
Step-is_sound (start at free) v = ground (arith, v, at, free)
Step-is_sound (make k at on) v = ground (arith, v, at, on)
Step-is_sound (hand_over k at) v = ground (arith, v, at)
Step-is_sound (wake k at has) v = ground (arith, v, at, has)
Step-is_sound (take_over k at has) v = ground (arith, v, at, has)
Step-is_sound (take_null at has) v = ground (arith, v, at, has)
Step-is_sound (tell_quit k at) v = ground (arith, v, at)
Step-is_sound (enter k at) v = ground (arith, v, at)
Step-is_sound (leave k at set) v = ground (arith, v, at, set)
Step-is_sound (finish k at) v = ground (arith, v, at)
Step-is_sound (begin_exit k at) v = ground (arith, v, at)
Step-is_sound (see_loop k at has) v = ground (arith, v, at, has)
Step-is_sound (see_none at has) v = ground (arith, v, at, has)
Step-is_sound (call_quit k m at has) v = ground (arith, v, at, has)
Step-is_sound (call_null k at has) v = ground (arith, v, at, has)
Step-is_sound (join at done) v = ground (arith, v, at, done)

Reach-is_sound : {s t : EventLoopThread} → Reach s t → is_sound s ≡ true → is_sound t ≡ true
Reach-is_sound here v = v
Reach-is_sound (next r st) v = Step-is_sound st (Reach-is_sound r v)

over_quit : (s : EventLoopThread) → is_sound s ≡ true → is_over s.thread ≡ true → s.quit ≡ true
over_quit s v over = ground (arith, v, over)

null_over :
    (s : EventLoopThread) → is_sound s ≡ true → calls_null s.owner ≡ true → is_over s.thread ≡ true
null_over s v null = ground (arith, v, null)

sound_shared : (s : EventLoopThread) → is_sound s ≡ true → s.loop ≡ handed s.thread
sound_shared s v = same_loop_lem s.loop (handed s.thread) (ground (arith, v))

sound_null : (s : EventLoopThread) → is_sound s ≡ true → is_null s.owner ≡ false
sound_null s v = ground (arith, v)

sound_used :
    (s : EventLoopThread) (l : ℕ)
    → is_sound s ≡ true
    → used s.owner ≡ some l
    → is_over s.thread ≡ false
    → used s.owner ≡ handed s.thread
sound_used s l v at on =
    same_loop_lem (used s.owner) (handed s.thread) (ground (arith, v, ap is_some at, on))

-- However the two threads interleave, `startLoop` never returns NULL. A loop that the owner uses
-- afterwards is the one that the thread has handed over, whose `loop()` has not returned, or `quit`
-- has been called and that `loop()` has returned; and only in the second case may the owner's
-- destructor call a NULL.
pub start_loop_lem :
    {s : EventLoopThread}
    → Reach new s
    → (is_null s.owner ≡ false)
      × ((used s.owner ≡ none)
          ⊎ ((used s.owner ≡ s.loop) × (s.loop ≡ handed s.thread) × (is_over s.thread ≡ false))
          ⊎ ((s.quit ≡ true) × (is_over s.thread ≡ true)))
      × (calls_null s.owner ≡ true → (s.quit ≡ true) × (is_over s.thread ≡ true))
start_loop_lem {s = s} r =
    let v = Reach-is_sound r refl in
    (
      sound_null s v,
      elim (Bool-cases (is_over s.thread)) [
        | inl over ↦ inr (inr (over_quit s v over, over))
        | inr on ↦ elim (Option-cases (used s.owner)) [
          | inl free ↦ inl free
          | inr (l, at) ↦
              let same = sound_shared s v in inr (inl (sound_used s l v at on ∙ sym same, same, on))
        ]
      ],
      λ null. let over = null_over s v null in (over_quit s v over, over),
    )
