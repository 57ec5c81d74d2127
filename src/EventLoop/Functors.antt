-- ===== src/EventLoop/Functors.antt =====
-- The queue of functors: `doPendingFunctors` runs what was queued before it began.
use epoll.Base.{
  ◌≡◌, refl, sym, ap, ◌∙◌, true, false, List, [], ◌∷◌, ◌++◌, Result, ok, append_assoc, append-nil,
}
use epoll.Poller.{Epoll}
use epoll.EventLoop.{EventLoop, own_loop, run_all, do_pending_functors}

-- A functor here records its number and queues the numbers that `spawn` gives.
module _ (epoll : Epoll) (F : Type 0) where
  -- A functor may queue others, and leaves the rest of the queue and the loop's flags alone.
  pub record Queues (spawn : F → List F) (run : F → EventLoop epoll F → Result (EventLoop epoll F))
      : Type 0 where
    pub queues_lem :
        (f : F) (l : EventLoop epoll F)
        → (l' : EventLoop epoll F) × (run f l ≡ ok l')
          × (l'.pending_functors ≡ l.pending_functors ++ spawn f)
          × (l'.calling_pending_functors ≡ l.calling_pending_functors)

  abbrev pub spawned : (F → List F) → List F → List F
  spawned spawn [] = []
  spawned spawn (f ∷ fs) = spawn f ++ spawned spawn fs

  run_all_lem :
      (spawn : F → List F) (run : F → EventLoop epoll F → Result (EventLoop epoll F))
      → Queues spawn run
      → (fs : List F) (l : EventLoop epoll F)
      → (l' : EventLoop epoll F) × (run_all epoll F run fs l ≡ ok l')
        × (l'.pending_functors ≡ l.pending_functors ++ spawned spawn fs)
  unfolding run_all
  run_all_lem spawn run q [] l = (l, refl, sym (append-nil l.pending_functors))
  run_all_lem spawn run q (f ∷ fs) l =
      let (l₁, e₁, p₁, c₁) = q.queues_lem f l in
      let (l₂, e₂, p₂) = run_all_lem spawn run q fs l₁ in
      (
        l₂,
        rw (e₁) e₂,
        p₂
            ∙ ap (λ k. k ++ spawned spawn fs) p₁
            ∙ append_assoc l.pending_functors (spawn f) (spawned spawn fs),
      )

  -- One round runs each functor that was pending once, and what these queue waits, in order, for
  -- the next round: a functor that queues itself does not keep the loop from polling.
  pub do_pending_functors_lem :
      (spawn : F → List F) (run : F → EventLoop epoll F → Result (EventLoop epoll F))
      (l : EventLoop epoll F)
      → Queues spawn run
      → (l' : EventLoop epoll F) × (do_pending_functors epoll F (own_loop epoll F) run l ≡ ok l')
        × (l'.pending_functors ≡ spawned spawn l.pending_functors)
        × (l'.calling_pending_functors ≡ false)
  unfolding do_pending_functors
  do_pending_functors_lem spawn run l q =
      let start : EventLoop epoll F = record l {
        calling_pending_functors = true;
        pending_functors = [];
      } in
      let (l', e, p) = run_all_lem spawn run q l.pending_functors start in
      (record l' { calling_pending_functors = false }, rw (e) refl, p, refl)
