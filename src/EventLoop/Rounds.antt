-- ===== src/EventLoop/Rounds.antt =====
-- `EventLoop::loop`: rounds of polling, dispatch and functors until `quit` is set. A round is given
-- by what epoll_wait returns and the time. `printActiveChannels` only logs.
use epoll.Base.{
  ℕ, true, false, not, List, [], ◌∷◌, Option, none, some, if◌then◌else◌, Result, ok, check, assert,
  fatal, ◌>>=◌, ◌>>◌,
}
use epoll.Poller.{Epoll, EpollEvent}
use epoll.Poller.Poll.{Store, poll}
use epoll.EventLoop.{HasLoop, do_pending_functors, is_in_loop_thread}

abbrev pub Round : Type 0
Round = Option (List EpollEvent) × ℕ

module _ (epoll : Epoll) (F : Type 0) where
  -- A state that has a loop and the channels, with what a channel's `handleEvent` and a functor do.
  pub record Runtime (S : Type 0) : Type 0 where
    pub state : HasLoop epoll F S
    pub open state use *
    pub store_of : S → Store
    pub set_store : Store → S → S
    pub handle_event : ℕ → ℕ → S → Result S
    pub run : F → S → Result S

  -- Where a loop stands when the given rounds are over: it has ended, with rounds left, or it polls.
  pub data Outcome (S : Type 0) : Type 0 where
    ended : List Round → S → Outcome S
    polling : S → Outcome S

  module _ {S : Type 0} (rt : Runtime S) where
    open rt use {loop_of, set_loop, store_of, set_store}

    -- The loop over the active channels.
    unfoldable pub handle_active : ℕ → List ℕ → S → Result S
    handle_active time [] s = ok s
    handle_active time (a ∷ active) s = do
      let s₁ = set_loop (record (loop_of s) { current_active_channel = some a }) s
      s₂ ← rt.handle_event a time s₁
      handle_active time active s₂

    unfoldable pub round : Round → S → Result S
    round (answer, time) s = do
      let s₀ = set_loop (record (loop_of s) { active_channels = [] }) s
      (active, store) ← poll epoll answer (loop_of s₀).poller (store_of s₀)
      let s₁ = set_store store s₀
      let s₂ =
          set_loop
            (record (loop_of s₁) {
              active_channels = active;
              poll_return_time = time;
              event_handling = true;
            })
            s₁
      s₃ ← handle_active time active s₂
      let s₄ =
          set_loop (record (loop_of s₃) { current_active_channel = none; event_handling = false })
            s₃
      do_pending_functors epoll F rt.state rt.run s₄

    -- `while (!_quit)`
    unfoldable pub run_rounds : List Round → S → Result (Outcome S)
    run_rounds [] s = ok (
        if (loop_of s).quit
        then ended [] (set_loop (record (loop_of s) { looping = false }) s)
        else polling s)
    run_rounds (r ∷ rs) s =
        let more = round r s >>= run_rounds rs in
        if (loop_of s).quit
        then ok (ended (r ∷ rs) (set_loop (record (loop_of s) { looping = false }) s))
        else more

    unfoldable pub loop : ℕ → List Round → S → Result (Outcome S)
    loop tid rounds s = do
      assert (not (loop_of s).looping)
      check (is_in_loop_thread epoll F tid (loop_of s)) fatal
      run_rounds rounds (set_loop (record (loop_of s) { looping = true; quit = false }) s)
