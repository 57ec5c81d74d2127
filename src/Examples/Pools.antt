-- ===== src/Examples/Pools.antt =====
-- Pools of three loops and of none: witnesses.
use epoll.Base.{ℕ, ◌+◌, ◌*◌, ◌≡◌, refl, true, [], ◌∷◌, length, ok, err, assertion, arith}
use epoll.EventLoopThreadPool.{ThreadPool, new, set_thread_num, start, get_next_loop}
use epoll.EventLoopThreadPool.RoundRobin.{pick, pick_all}
use epoll.EventLoopThreadPool.Start.{start_lem}

abbrev three : ThreadPool
three = record {
  base_loop = 50;
  started = true;
  num_threads = 3;
  next = 1;
  loops = 100 ∷ 200 ∷ 300 ∷ [];
}

pick_all_example : pick 3 three ≡ ok (200 ∷ 300 ∷ 100 ∷ [], three)
pick_all_example = pick_all three refl (omega arith)

abbrev stack : ℕ → ℕ
stack i = 1000 + 100 * i

start_lem_example :
    (p : ThreadPool) × (start stack true (set_thread_num 2 (new 50)) ≡ ok p)
    × (length p.loops ≡ 2)
    × ((l : ℕ) × (p' : ThreadPool) × (get_next_loop true p ≡ ok (l, p')))
    × (start stack true p ≡ err assertion)
start_lem_example = start_lem stack 50 2
