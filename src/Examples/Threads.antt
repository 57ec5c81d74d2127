-- ===== src/Examples/Threads.antt =====
-- A loop in a thread of its own, left at once, or told to quit and left too late: witnesses.
use epoll.Base.{◌≡◌, refl, true, false, none, ◌⊎◌}
use epoll.EventLoopThread.{
  calling_null, finished, joining, EventLoopThread, new, start, make, hand_over, wake, take_over,
  tell_quit, enter, begin_exit, see_loop, leave, finish, call_null, Reach, here, next,
}
use epoll.EventLoopThread.Handover.{calls_null, is_null, used, handed, is_over, start_loop_lem}
use epoll.EventLoopThread.LostQuit.{stuck, join_stuck}

-- The owner tells the loop at address 9 to quit, its destructor finds the loop still there, and then
-- the thread comes to its end: the owner is about to call a NULL.
abbrev too_late : EventLoopThread
too_late = record {
  owner = calling_null;
  thread = finished;
  loop = none;
  exiting = true;
  thread_started = true;
  quit = true;
}

too_late_run : Reach new too_late
too_late_run =
    let begun : Reach new _ = next here (start refl refl) in
    let served = next (next begun (make 9 refl refl)) (hand_over 9 refl) in
    let owned = next (next served (wake 9 refl refl)) (take_over 9 refl refl) in
    let told = next (next owned (enter 9 refl)) (tell_quit 9 refl) in
    let left = next (next told (begin_exit 9 refl)) (see_loop 9 refl refl) in
    let over = next (next left (leave 9 refl refl)) (finish 9 refl) in
    next over (call_null 9 refl refl)

start_loop_lem_example :
    (is_null too_late.owner ≡ false)
    × ((used too_late.owner ≡ none)
        ⊎ ((used too_late.owner ≡ too_late.loop)
            × (too_late.loop ≡ handed too_late.thread)
            × (is_over too_late.thread ≡ false))
        ⊎ ((too_late.quit ≡ true) × (is_over too_late.thread ≡ true)))
    × (calls_null too_late.owner ≡ true → (too_late.quit ≡ true) × (is_over too_late.thread ≡ true))
start_loop_lem_example = start_loop_lem too_late_run

join_stuck_example :
    Reach new (stuck 9) × ((t : EventLoopThread) → Reach (stuck 9) t → t.owner ≡ joining)
join_stuck_example = join_stuck 9
