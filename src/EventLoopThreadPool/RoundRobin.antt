-- ===== src/EventLoopThreadPool/RoundRobin.antt =====
-- `getNextLoop` called again and again.
use epoll.Base.{
  ℕ, zero, suc, ◌+◌, ◌-◌, ◌≡◌, ◌≤◌, ◌<◌, refl, ap, ◌∙◌, true, List, [], ◌∷◌, ◌++◌, leb,
  if◌then◌else◌, length, take, drop, Result, ok, arith, drop_of_length, ◌>>=◌,
}
use epoll.EventLoopThreadPool.{ThreadPool, loop_at, next_of, get_next_loop}

-- The loops that `n` calls return, and the pool after them.
unfoldable pub pick : ℕ → ThreadPool → Result (List ℕ × ThreadPool)
pick zero p = ok ([], p)
pick (suc n) p = do (l, p') ← get_next_loop true p; (ls, p'') ← pick n p'; ok (l ∷ ls, p'')

-- A started pool with threads, whose `next` is one of them.
pub record IsReady (p : ThreadPool) : Type 0 where
  pub started_lem : p.started ≡ true
  pub in_range : p.next < length p.loops

wrap : ℕ → ℕ → ℕ
wrap size i = if leb size i then 0 else i

at_drop :
    (i : ℕ) (l : List ℕ)
    → i < length l
    → (x : ℕ) × (loop_at i l ≡ ok x) × (drop i l ≡ x ∷ drop (suc i) l)
unfolding loop_at
at_drop i [] h = absurd (omega arith)
at_drop zero (x ∷ l) h = (x, refl, refl)
at_drop (suc i) (x ∷ l) h = at_drop i l (omega arith)

next_lem :
    (p : ThreadPool)
    → IsReady p
    → (x : ℕ) × (get_next_loop true p
        ≡ ok (x, record p { next = wrap (length p.loops) (p.next + 1) }))
      × (drop p.next p.loops ≡ x ∷ drop (p.next + 1) p.loops)
unfolding get_next_loop next_of wrap
next_lem p r =
    let (x, e, d) = at_drop p.next p.loops r.in_range in
    (
      x,
      ground (arith, r.started_lem, r.in_range, e),
      d ∙ ap (λ k. x ∷ drop k p.loops) {x = suc p.next} (omega arith),
    )

-- As long as the end of the vector is not passed, the loops from `next` on are returned in order.
pick_run :
    (n : ℕ) (p : ThreadPool)
    → IsReady p
    → p.next + n ≤ length p.loops
    → pick n p
      ≡ ok (take n (drop p.next p.loops), record p { next = wrap (length p.loops) (p.next + n) })
unfolding pick wrap
pick_run zero p r h = ground (arith, r.in_range)
pick_run (suc zero) p r h = let (x, e, d) = next_lem p r in rw (e, d) refl
pick_run (suc (suc n)) p r h =
    let (x, e, d) = next_lem p r in
    let p' : ThreadPool = record p { next = p.next + 1 } in
    let ready : IsReady p' = record { started_lem = r.started_lem; in_range = omega (arith, h) } in
    let inside : wrap (length p.loops) (p.next + 1) ≡ p.next + 1 = ground (arith, h) in
    let far : p.next + suc (suc n) ≡ (p.next + 1) + suc n = omega arith in
    rw (e, inside, pick_run (suc n) p' ready (omega (arith, h)), d, far) refl

-- And past the end of the vector they start from its front.
pick-wrap :
    (m n : ℕ) (p : ThreadPool)
    → IsReady p
    → p.next + suc m ≡ length p.loops
    → n ≤ length p.loops
    → pick (suc m + n) p
      ≡ ok (drop p.next p.loops ++ take n p.loops, record p { next = wrap (length p.loops) n })
unfolding pick wrap
pick-wrap zero n p r end h =
    let (x, e, d) = next_lem p r in
    let front : ThreadPool = record p { next = 0 } in
    let ready : IsReady front = record {
      started_lem = r.started_lem;
      in_range = omega (arith, end);
    } in
    let back : wrap (length p.loops) (p.next + 1) ≡ 0 = ground (arith, end) in
    let count : suc zero + n ≡ suc n = omega arith in
    let size : 0 + n ≡ n = omega arith in
    let rest : drop (p.next + 1) p.loops ≡ [] =
      drop_of_length (p.next + 1) p.loops (omega (arith, end)) in
    rw (count, e, back, pick_run n front ready (omega (arith, h)), d, rest, size) refl
pick-wrap (suc m) n p r end h =
    let (x, e, d) = next_lem p r in
    let p' : ThreadPool = record p { next = p.next + 1 } in
    let ready : IsReady p' = record {
      started_lem = r.started_lem;
      in_range = omega (arith, end);
    } in
    let inside : wrap (length p.loops) (p.next + 1) ≡ p.next + 1 = ground (arith, end) in
    let count : suc (suc m) + n ≡ suc (suc m + n) = omega arith in
    rw (count, e, inside, pick-wrap m n p' ready (omega (arith, end)) h, d) refl

-- In a started pool with threads, as many calls in a row as there are loops return every loop once,
-- in the order of the vector from `next` on, and leave the pool as it was.
pub pick_all :
    (p : ThreadPool)
    → p.started ≡ true
    → p.next < length p.loops
    → pick (length p.loops) p ≡ ok (drop p.next p.loops ++ take p.next p.loops, p)
unfolding wrap
pick_all p on h =
    let ready : IsReady p = record { started_lem = on; in_range = h } in
    let m = length p.loops - p.next - 1 in
    let end : p.next + suc m ≡ length p.loops = omega (arith, h) in
    let count : length p.loops ≡ suc m + p.next = omega (arith, h) in
    let same : wrap (length p.loops) p.next ≡ p.next = ground (arith, h) in
    ap (λ k. pick k p) count
    ∙ pick-wrap m p.next p ready end (omega (arith, h))
    ∙ ap (λ k. ok (drop p.next p.loops ++ take p.next p.loops, record p { next = k })) same
