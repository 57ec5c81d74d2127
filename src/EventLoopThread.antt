-- ===== src/EventLoopThread.antt =====
-- EventLoopThread.h and EventLoopThread.cpp: a thread with a loop, and its owner, as two programs
-- that take steps in any order. A read or a write of a shared variable is one step.
pub mod Handover
pub mod LostQuit
use epoll.Base.{ℕ, ◌≡◌, Bool, true, false, Option, none, some, ◌>>=◌, ◌>>◌}

-- Where the owner stands: before `startLoop`, in its wait, after the wait, with the loop that was
-- returned, with a NULL that was returned, in the destructor after `exiting_` is set, before the call
-- of `quit`, at the call of a NULL, in `join`, or at the end.
pub data OwnerAt : Type 0 where
  created : OwnerAt
  awaiting : OwnerAt
  awake : OwnerAt
  has_loop : ℕ → OwnerAt
  has_null : OwnerAt
  leaving : OwnerAt
  quitting : ℕ → OwnerAt
  calling_null : OwnerAt
  joining : OwnerAt
  gone : OwnerAt

-- Where `threadFunc` stands: not begun, with its loop made, with the loop handed over, in `loop()`,
-- after it, or at the end.
pub data ThreadAt : Type 0 where
  unborn : ThreadAt
  made : ℕ → ThreadAt
  shared : ℕ → ThreadAt
  looping : ℕ → ThreadAt
  looped : ℕ → ThreadAt
  finished : ThreadAt

-- `loop_`, `exiting_`, whether the thread is started, and `_quit` of its loop.
pub record EventLoopThread : Type 0 where
  pub owner : OwnerAt
  pub thread : ThreadAt
  pub loop : Option ℕ
  pub exiting : Bool
  pub thread_started : Bool
  pub quit : Bool

abbrev pub new : EventLoopThread
new = record {
  owner = created;
  thread = unborn;
  loop = none;
  exiting = false;
  thread_started = false;
  quit = false;
}

-- The steps. The thread's loop lies at an address that the system chooses. The owner may tell the
-- loop that it was given to quit, also before its destructor; nobody else does.
pub data Step (s : EventLoopThread) : EventLoopThread → Type 0 where
  -- startLoop: the assert, and `thread_.start()`
  start :
      s.owner ≡ created
      → s.thread_started ≡ false
      → Step s (record s { owner = awaiting; thread_started = true })
  -- threadFunc: the constructor of the loop and the callback
  make :
      (l : ℕ)
      → s.thread ≡ unborn
      → s.thread_started ≡ true
      → Step s (record s { thread = made l; quit = false })
  -- threadFunc: `loop_ = &loop` and `cond_.notify()`, under the lock
  hand_over : (l : ℕ) → s.thread ≡ made l → Step s (record s { thread = shared l; loop = some l })
  -- startLoop: the wait ends when `loop_` is not NULL
  wake : (l : ℕ) → s.owner ≡ awaiting → s.loop ≡ some l → Step s (record s { owner = awake })
  -- startLoop: `return loop_`, after the lock is released
  take_over : (l : ℕ) → s.owner ≡ awake → s.loop ≡ some l → Step s (record s { owner = has_loop l })
  take_null : s.owner ≡ awake → s.loop ≡ none → Step s (record s { owner = has_null })
  -- EventLoop::quit, which the owner calls on the loop that it has
  tell_quit : (l : ℕ) → s.owner ≡ has_loop l → Step s (record s { quit = true })
  -- EventLoop::loop: `_quit = false`
  enter : (l : ℕ) → s.thread ≡ shared l → Step s (record s { thread = looping l; quit = false })
  -- EventLoop::loop: `_quit` is found set
  leave : (l : ℕ) → s.thread ≡ looping l → s.quit ≡ true → Step s (record s { thread = looped l })
  -- threadFunc: `loop_ = NULL`, and the loop's destructor
  finish : (l : ℕ) → s.thread ≡ looped l → Step s (record s { thread = finished; loop = none })
  -- ~EventLoopThread: `exiting_ = true`
  begin_exit :
      (l : ℕ) → s.owner ≡ has_loop l → Step s (record s { owner = leaving; exiting = true })
  -- ~EventLoopThread: `loop_` is not NULL
  see_loop :
      (l : ℕ) → s.owner ≡ leaving → s.loop ≡ some l → Step s (record s { owner = quitting l })
  -- ~EventLoopThread: `loop_` is NULL
  see_none : s.owner ≡ leaving → s.loop ≡ none → Step s (record s { owner = gone })
  -- ~EventLoopThread: `loop_->quit()`, which reads `loop_` again
  call_quit :
      (l k : ℕ)
      → s.owner ≡ quitting l
      → s.loop ≡ some k
      → Step s (record s { owner = joining; quit = true })
  call_null :
      (l : ℕ) → s.owner ≡ quitting l → s.loop ≡ none → Step s (record s { owner = calling_null })
  -- ~EventLoopThread: `join` returns when the thread is finished
  join : s.owner ≡ joining → s.thread ≡ finished → Step s (record s { owner = gone })

pub data Reach (s : EventLoopThread) : EventLoopThread → Type 0 where
  here : Reach s s
  next : {t u : EventLoopThread} → Reach s t → Step t u → Reach s u
