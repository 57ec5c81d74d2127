-- ===== src/Examples/Dispatch.antt =====
-- A channel whose callbacks write to a log, and a poll that finds it readable: witnesses.
use epoll.Base.{
  ℕ, ◌≡◌, refl, true, false, List, [], ◌∷◌, ◌++◌, ◌==◌, none, some, if◌then◌else◌, Result, ok,
  arith,
}
use epoll.Channel.{Channel, pos}
use epoll.Channel.Dispatch.{
  Owner, handle_event, run_event, Event, closing, failing, reading, writing, handle_event_lem,
  run_events, call, call_read, events_of,
}
use epoll.Poller.{EpollEvent, find}
use epoll.Poller.Poll.{Store, poll, updated, received, are_known, is_known, poll_lem}
use epoll.Examples.Kernel.{epoll_model, poller}

-- The channel and the log.
abbrev Logged : Type 0
Logged = Channel × List ℕ

abbrev note : ℕ → Logged → Result Logged
note n s = ok (s.0, s.1 ++ (n ∷ []))

abbrev logger : Owner Logged
logger = record {
  channel = λ s. s.0;
  set_channel = λ c s. (c, s.1);
  close_callback = some (note 1);
  error_callback = none;
  read_callback = some (λ time s. note time s);
  write_callback = some (note 4);
}

abbrev watched : Channel
watched = record {
  owner_loop = 7;
  address = 100;
  fd = 5;
  events = 7;
  revents = 5;
  index = pos 1;
  event_handling = false;
  added_to_loop = true;
  tied = true;
}

keeps :
    (e : Event logger) (s s' : Logged)
    → run_event logger 33 e s ≡ ok s'
    → s'.0.revents ≡ s.0.revents
unfolding run_event call call_read
keeps closing s s' h = cc
keeps failing s s' h = cc
keeps reading s s' h = cc
keeps writing s s' h = cc

handle_event_lem_example : handle_event logger true 33 (watched, []) ≡ ok (watched, 33 ∷ 4 ∷ [])
unfolding run_events run_event call call_read events_of
handle_event_lem_example = handle_event_lem logger true 33 (watched, []) (λ c s. refl) keeps

abbrev readable_event : EpollEvent
readable_event = record { events = 1; ptr = 100 }

abbrev store : Store
store a = if a == 100 then some watched else none

poll_lem_example :
    (store' : Store) × (poll epoll_model (some (readable_event ∷ [])) poller store
      ≡ ok (100 ∷ [], store'))
    × ((a : ℕ) → store' a ≡ updated (received a (readable_event ∷ [])) (store a))
unfolding are_known is_known find
poll_lem_example = poll_lem epoll_model (readable_event ∷ []) poller store (omega arith) refl
