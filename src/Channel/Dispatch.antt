-- ===== src/Channel/Dispatch.antt =====
-- `handleEvent` and `handleEventWithGuard`: from the events that arrived to the callbacks.
use epoll.Base.{
  ℕ, ◌≡◌, bit_or, refl, ap, ◌∙◌, inl, inr, Bool, true, false, not, ◌&&◌, List, [], ◌∷◌, ◌++◌,
  Option, none, some, if◌then◌else◌, Bool-cases, Result, ok, err, ◌>>=◌,
}
use epoll.Channel.{Channel, has, pollin, pollpri, pollout, pollerr, pollhup, pollnval, pollrdhup}

-- A state `S` that has a channel, and the four callbacks, each set or not. The read callback takes
-- the time of the poll.
pub record Owner (S : Type 0) : Type 0 where
  pub channel : S → Channel
  pub set_channel : Channel → S → S
  pub close_callback : Option (S → Result S)
  pub error_callback : Option (S → Result S)
  pub read_callback : Option (ℕ → S → Result S)
  pub write_callback : Option (S → Result S)

-- The four tests of the received events.
abbrev pub is_hung_up : ℕ → Bool
is_hung_up r = has r pollhup && not (has r pollin)

abbrev pub is_error : ℕ → Bool
is_error r = has r (bit_or pollerr pollnval)

abbrev pub is_readable : ℕ → Bool
is_readable r = has r (bit_or (bit_or pollin pollpri) pollrdhup)

abbrev pub is_writable : ℕ → Bool
is_writable r = has r pollout

module _ {S : Type 0} (owner : Owner S) where
  open owner use {channel, set_channel}

  -- `if (callback) callback()`
  unfoldable pub call : Option (S → Result S) → S → Result S
  call none s = ok s
  call (some callback) s = callback s

  unfoldable pub call_read : Option (ℕ → S → Result S) → ℕ → S → Result S
  call_read none receive_time s = ok s
  call_read (some callback) receive_time s = callback receive_time s

  abbrev pub revents_of : S → ℕ
  revents_of s = (channel s).revents

  abbrev pub set_event_handling : Bool → S → S
  set_event_handling b s = set_channel (record (channel s) { event_handling = b }) s

  unfoldable pub handle_event_with_guard : ℕ → S → Result S
  handle_event_with_guard receive_time s = do
    let s₀ = set_event_handling true s
    s₁ ← if is_hung_up (revents_of s₀) then call owner.close_callback s₀ else ok s₀
    s₂ ← if is_error (revents_of s₁) then call owner.error_callback s₁ else ok s₁
    s₃ ←
        if is_readable (revents_of s₂) then call_read owner.read_callback receive_time s₂ else ok s₂
    s₄ ← if is_writable (revents_of s₃) then call owner.write_callback s₃ else ok s₃
    ok (set_event_handling false s₄)

  -- `alive` says that the tied object can be locked.
  unfoldable pub handle_event : Bool → ℕ → S → Result S
  handle_event alive receive_time s =
      if (channel s).tied
      then (if alive then handle_event_with_guard receive_time s else ok s)
      else handle_event_with_guard receive_time s

  pub data Event : Type 0 where
    closing failing reading writing : Event

  unfoldable pub run_event : ℕ → Event → S → Result S
  unfolding call call_read
  run_event receive_time closing s = call owner.close_callback s
  run_event receive_time failing s = call owner.error_callback s
  run_event receive_time reading s = call_read owner.read_callback receive_time s
  run_event receive_time writing s = call owner.write_callback s

  unfoldable pub run_events : ℕ → List Event → S → Result S
  run_events receive_time [] s = ok s
  run_events receive_time (e ∷ es) s = run_event receive_time e s >>= run_events receive_time es

  abbrev pub only : Bool → Event → List Event
  only b e = if b then e ∷ [] else []

  -- The events that the received bits stand for, in the order in which they are handled.
  unfoldable pub events_of : ℕ → List Event
  events_of r =
      only (is_hung_up r) closing
      ++ (only (is_error r) failing
          ++ (only (is_readable r) reading ++ only (is_writable r) writing))

  after :
      (m : Result S) (k run finish : S → Result S)
      → ((s : S) → m ≡ ok s → k s ≡ (run s >>= finish))
      → (m >>= k) ≡ ((m >>= run) >>= finish)
  after (err fault) k run finish h = refl
  after (ok s) k run finish h = h s refl

  -- One stage, when the callbacks leave the received events alone.
  stage :
      (receive_time : ℕ) (r : ℕ) (test : ℕ → Bool) (e : Event) (es : List Event) (k : S → Result S)
      → ((e' : Event) (s s' : S)
          → run_event receive_time e' s ≡ ok s'
          → revents_of s' ≡ revents_of s)
      → ((s : S)
          → revents_of s ≡ r
          → k s ≡ (run_events receive_time es s >>= λ s'. ok (set_event_handling false s')))
      → (s : S) → revents_of s ≡ r
      → ((if test (revents_of s) then run_event receive_time e s else ok s) >>= k) ≡ (
          run_events receive_time (only (test r) e ++ es) s >>= λ s'.
          ok (set_event_handling false s'))
  unfolding run_events
  stage receive_time r test e es k keeps next s same = elim (Bool-cases (test r)) [
    | inr off ↦ rw (same, off) (next s same)
    | inl on ↦
        rw (same, on)
          (after (run_event receive_time e s) k (run_events receive_time es)
            (λ s'. ok (set_event_handling false s'))
            (λ s' done. next s' (keeps e s s' done ∙ same)))
  ]

  last_stage :
      (receive_time r : ℕ) (u : S)
      → revents_of u ≡ r
      → ((if is_writable (revents_of u) then call owner.write_callback u else ok u) >>= λ s'.
          ok (set_event_handling false s'))
        ≡ (run_events receive_time (only (is_writable r) writing) u >>= λ s'.
            ok (set_event_handling false s'))
  unfolding run_events run_event
  last_stage receive_time r u same = elim (Bool-cases (is_writable r)) [
    | inr off ↦ rw (same, off) refl
    | inl on ↦
        rw (same, on)
          (after (call owner.write_callback u) (λ s'. ok (set_event_handling false s'))
            (run_events receive_time []) (λ s'. ok (set_event_handling false s')) (λ s' done. refl))
  ]

  with_guard :
      (receive_time : ℕ) (s : S)
      → ((c : Channel) (s : S) → channel (set_channel c s) ≡ c)
      → ((e : Event) (s s' : S) → run_event receive_time e s ≡ ok s' → revents_of s' ≡ revents_of s)
      → handle_event_with_guard receive_time s ≡ (
          run_events receive_time (events_of (revents_of s)) (set_event_handling true s) >>= λ s'.
          ok (set_event_handling false s'))
  unfolding handle_event_with_guard events_of run_event
  with_guard receive_time s lens keeps =
      let r = revents_of s in
      let step = stage receive_time r in
      step is_hung_up closing _ _ keeps
        (step is_error failing _ _ keeps
          (step is_readable reading _ _ keeps (λ u same. last_stage receive_time r u same)))
        (set_event_handling true s)
        (ap (λ c. c.revents) (lens (record (channel s) { event_handling = true }) s))

  -- If the callbacks leave the received events alone, and what is stored as the channel is read
  -- back: `handleEvent` of a channel that is not tied, or whose owner lives, runs the callbacks of
  -- the received events, once each, in the order close, error, read, write, between setting and
  -- clearing the mark that an event is handled; the first fault ends it. With a dead owner nothing
  -- runs.
  pub handle_event_lem :
      (alive : Bool) (receive_time : ℕ) (s : S)
      → ((c : Channel) (s : S) → channel (set_channel c s) ≡ c)
      → ((e : Event) (s s' : S) → run_event receive_time e s ≡ ok s' → revents_of s' ≡ revents_of s)
      → handle_event alive receive_time s ≡ (
          if (channel s).tied && not alive
          then ok s
          else (run_events receive_time (events_of (revents_of s)) (set_event_handling true s)
              >>= λ s'. ok (set_event_handling false s')))
  unfolding handle_event
  handle_event_lem alive receive_time s lens keeps =
      let guarded = with_guard receive_time s lens keeps in
      elim (Bool-cases (channel s).tied) [
        | inr free ↦ rw free guarded
        | inl tied ↦ elim (Bool-cases alive) [
          | inl lives ↦ rw (tied, lives) guarded
          | inr dead ↦ rw (tied, dead) refl
        ]
      ]
