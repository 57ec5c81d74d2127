-- ===== src/Examples/Lifecycles.antt =====
-- A connection over the concrete epoll from its start to its end, and a round of functors.
use epoll.Base.{◌≡◌, refl, false, List, [], ◌∷◌, ◌++◌, Result, ok, err, assertion, arith}
use epoll.EventLoop.{EventLoop, own_loop, do_pending_functors}
use epoll.EventLoop.Functors.{Queues, do_pending_functors_lem}
use epoll.TcpConnection.{
  Functor, call_write_complete, call_shutdown_in_loop, disconnecting, Callbacks, connect_destroyed,
}
use epoll.TcpConnection.Invariant.{Inv}
use epoll.TcpConnection.Lifecycle.{connect_destroyed_half_closed}
use epoll.Examples.Kernel.{epoll_model, ops, loop}
use epoll.Examples.Connections.{conn, conn-Inv}

abbrev silent : Callbacks ops
silent = record {
  connection_callback = λ w. ok w;
  message_callback = λ w. ok w;
  close_callback = λ w. ok w;
}

half-Inv : Inv ops (record conn { state = disconnecting })
half-Inv = record {
  tracks = conn-Inv.tracks;
  input_valid = omega arith;
  output_valid = omega arith;
  mask = omega arith;
  flow = λ _. refl;
  quiet = λ down. cc;
  registered = λ _ e. cc;
}

connect_destroyed_half_closed_example :
    connect_destroyed ops silent (record conn { state = disconnecting }) ≡ err assertion
connect_destroyed_half_closed_example =
    connect_destroyed_half_closed ops silent (record conn { state = disconnecting }) half-Inv refl
      refl

-- A write-complete callback that queues a shutdown.
abbrev spawn : Functor → List Functor
spawn call_write_complete = call_shutdown_in_loop ∷ []
spawn _ = []

abbrev run : Functor → EventLoop epoll_model Functor → Result (EventLoop epoll_model Functor)
run f l = ok (record l { pending_functors = l.pending_functors ++ spawn f })

run-Queues : Queues epoll_model Functor spawn run
run-Queues = record {
  queues_lem =
      λ f l. (record l { pending_functors = l.pending_functors ++ spawn f }, refl, refl, refl);
}

do_pending_functors_lem_example :
    let l : EventLoop epoll_model Functor = record loop {
      pending_functors = call_write_complete ∷ call_write_complete ∷ [];
    } in
    (l' : EventLoop epoll_model Functor) × (do_pending_functors epoll_model Functor
        (own_loop epoll_model Functor)
        run
        l
      ≡ ok l')
    × (l'.pending_functors ≡ call_shutdown_in_loop ∷ call_shutdown_in_loop ∷ [])
    × (l'.calling_pending_functors ≡ false)
do_pending_functors_lem_example =
    do_pending_functors_lem epoll_model Functor spawn run
      (record loop { pending_functors = call_write_complete ∷ call_write_complete ∷ [] }) run-Queues
