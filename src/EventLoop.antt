-- ===== src/EventLoop.antt =====
-- EventLoop.h and EventLoop.cpp: the loop's state, its queue of functors, and what it passes on to
-- the poller. `F` is the type of the functors, `tid` the thread that runs the operation.
pub mod Ops
pub mod Functors
pub mod Rounds
use epoll.Base.{
  ℕ, ◌+◌, Bool, true, false, not, ◌&&◌, ◌||◌, List, [], ◌∷◌, ◌++◌, ◌==◌, Option, none, some,
  if◌then◌else◌, is_some, Result, ok, check, assert, fatal, ◌>>=◌, ◌>>◌,
}
use epoll.Channel.{Channel}
use epoll.Poller.{Epoll, Poller}
use epoll.Poller

-- `find(begin, end, address) == end`
abbrev pub absent : ℕ → List ℕ → Bool
absent a [] = true
absent a (x ∷ xs) = not (x == a) && absent a xs

abbrev pub is_current : Option ℕ → ℕ → Bool
is_current none a = false
is_current (some x) a = x == a

module _ (epoll : Epoll) (F : Type 0) where
  pub record EventLoop : Type 0 where
    pub address : ℕ
    pub looping : Bool
    pub quit : Bool
    pub event_handling : Bool
    pub calling_pending_functors : Bool
    pub thread_id : ℕ
    pub poll_return_time : ℕ
    pub poller : Poller epoll
    pub active_channels : List ℕ
    pub current_active_channel : Option ℕ
    pub pending_functors : List F

  -- The constructor, at an address in the thread `tid`; `in_this_thread` is `t_loopInThisThread`
  -- before. A second loop in a thread ends the program.
  unfoldable pub new : ℕ → ℕ → Poller epoll → Option ℕ → Result (EventLoop × Option ℕ)
  new address tid poller in_this_thread = do
    check (not (is_some in_this_thread)) fatal
    ok (
      record {
        address = address;
        looping = false;
        quit = false;
        event_handling = false;
        calling_pending_functors = false;
        thread_id = tid;
        poll_return_time = 0;
        poller = poller;
        active_channels = [];
        current_active_channel = none;
        pending_functors = [];
      },
      some address,
    )

  -- The destructor: the new `t_loopInThisThread`.
  unfoldable pub destroy : EventLoop → Option ℕ
  destroy l = none

  abbrev pub is_in_loop_thread : ℕ → EventLoop → Bool
  is_in_loop_thread tid l = l.thread_id == tid

  -- `abortNotInLoopThread` ends in LOG_FATAL.
  abbrev pub assert_in_loop_thread : ℕ → EventLoop → Result (Unit {0})
  assert_in_loop_thread tid l = check (is_in_loop_thread tid l) fatal

  -- The wake-up of a loop in another thread is a comment in the source.
  unfoldable pub queue_in_loop : F → EventLoop → EventLoop
  queue_in_loop cb l = record l { pending_functors = l.pending_functors ++ (cb ∷ []) }

  -- `run` is what a functor does when it is called.
  unfoldable pub run_in_loop :
      (F → EventLoop → Result EventLoop) → ℕ → F → EventLoop → Result EventLoop
  unfolding queue_in_loop
  run_in_loop run tid cb l = if is_in_loop_thread tid l then run cb l else ok (queue_in_loop cb l)

  -- A state that has a loop.
  pub record HasLoop (S : Type 0) : Type 0 where
    pub loop_of : S → EventLoop
    pub set_loop : EventLoop → S → S

  -- The loop alone.
  abbrev pub own_loop : HasLoop EventLoop
  own_loop = record { loop_of = λ l. l; set_loop = λ l' l. l' }

  unfoldable pub run_all : {S : Type 0} → (F → S → Result S) → List F → S → Result S
  run_all run [] s = ok s
  run_all run (f ∷ fs) s = run f s >>= run_all run fs

  unfoldable pub do_pending_functors : {S : Type 0} → HasLoop S → (F → S → Result S) → S → Result S
  do_pending_functors state run s = do
    let l = state.loop_of s
    let functors = l.pending_functors
    let swapped : EventLoop = record l { calling_pending_functors = true; pending_functors = [] }
    s' ← run_all run functors (state.set_loop swapped s)
    ok (state.set_loop (record (state.loop_of s') { calling_pending_functors = false }) s')

  unfoldable pub stop : EventLoop → EventLoop
  stop l = record l { quit = true }

  module _ (tid : ℕ) where
    unfoldable pub update_channel : Channel → EventLoop → Result (Channel × EventLoop)
    update_channel c l = do
      assert (c.owner_loop == l.address)
      assert_in_loop_thread tid l
      (c', p) ← Poller.update_channel epoll c l.poller
      ok (c', record l { poller = p })

    unfoldable pub remove_channel : Channel → EventLoop → Result (Channel × EventLoop)
    remove_channel c l = do
      assert (c.owner_loop == l.address)
      assert_in_loop_thread tid l
      assert (
          not l.event_handling
          || (is_current l.current_active_channel c.address || absent c.address l.active_channels))
      (c', p) ← Poller.remove_channel epoll c l.poller
      ok (c', record l { poller = p })

    unfoldable pub has_channel : Channel → EventLoop → Result Bool
    has_channel c l = do
      assert (c.owner_loop == l.address)
      assert_in_loop_thread tid l
      ok (Poller.has_channel epoll c l.poller)
