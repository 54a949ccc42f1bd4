-- ===== src/Demos/Workers.antt =====
-- `threading_demo` of src/demos.rs.
use apogee.Base.{
  ◌≢◌, ℕ, suc, ◌+◌, ◌<◌, ◌≡◌, ◌∙◌, refl, [], ◌∷◌, ◌==◌, if◌then◌else◌, word, add64, arith,
}
use apogee.Thread.{Threads, add_thread}
use apogee.Thread.Consistent.{IsConsistent}
use apogee.Thread.Steps.{spawn-add_thread, add_thread-IsConsistent}
use apogee.Demos.{Yields, worker_a, worker_b, Spawned, spawn_kernel, threading_demo}
use apogee.Demos.Measure.{measure}
use apogee.Demos.Finish.{IsQuiet, Finishes, drive-Finishes}

add_thread_frame :
    (t : Threads) (process stack rsp : ℕ)
    → t.next_id + 1 < word
    → ((add_thread t process stack rsp).0.sched.current ≡ t.sched.current)
      × ((add_thread t process stack rsp).0.next_id ≡ t.next_id + 1)
      × ((add_thread t process stack rsp).1 ≡ t.next_id)
unfolding add_thread add64
add_thread_frame t process stack rsp h = (refl, omega arith, refl)

module _ (t : Threads) (a b : Spawned) (q : IsQuiet t) (room : t.next_id + 2 < word) where
  abbrev one : Threads
  one = (add_thread t 0 a.stack a.rsp).0

  abbrev two : Threads
  two = (add_thread one 0 b.stack b.rsp).0

  spawned :
      IsConsistent two
      × (two.sched.current ≡ 0)
      × (two.sched.ready ≡ t.next_id ∷ suc t.next_id ∷ [])
      × ((add_thread one 0 b.stack b.rsp).1 ≡ suc t.next_id)
      × (0 < t.next_id)
  spawned =
      let (v, ready, _) = add_thread-IsConsistent t 0 a.stack a.rsp (omega arith) q.consistent in
      let (current, next, _) = add_thread_frame t 0 a.stack a.rsp (omega arith) in
      let (w, ready', _) = add_thread-IsConsistent one 0 b.stack b.rsp (omega (arith, next)) v in
      let (current', _, id) = add_thread_frame one 0 b.stack b.rsp (omega (arith, next)) in
      (
        w,
        current' ∙ current ∙ q.bootstrap,
        ready' ∙ rw (ready, next, q.no_ready) (ground arith),
        id ∙ ground (arith, next),
        q.consistent.positive,
      )

  abbrev workers : Yields → Yields
  workers left x =
      if x == t.next_id then worker_a else if x == (suc t.next_id) then worker_b else left x

  measure-workers : (left : Yields) → measure (workers left) two ≡ 9
  measure-workers left =
      let (_, current, ready, _, positive) = spawned in rw (current, ready) (ground arith)

-- The threading demo ends in the bootstrap thread without a panic, with both workers gone: from a
-- state with no other thread, with two thread ids left and room for both on the heap, ten turns are fuel
-- enough.
pub threading_demo-Finishes :
    (rsp : ℕ → ℕ) (fuel : ℕ) (left : Yields) (a b : Spawned) (t : Threads)
    → IsQuiet t
    → t.next_id + 2 < word
    → 9 < fuel
    → a.stack ≢ 0
    → b.stack ≢ 0
    → Finishes (threading_demo rsp fuel left a b t)
unfolding threading_demo spawn_kernel
threading_demo-Finishes rsp fuel left a b t q room h first_stack second_stack =
    let (v, _, _, id, _) = spawned t a b q room in
    let (_, _, first) = add_thread_frame t 0 a.stack a.rsp (omega (arith, room)) in
    let small = measure-workers t a b q room left in
    rw
      (
        spawn-add_thread t 0 a.stack a.rsp first_stack,
        spawn-add_thread (one t a b q room) 0 b.stack b.rsp second_stack,
        threading_demo,
        first,
        id,
      )
      (drive-Finishes rsp fuel (workers t a b q room left) (two t a b q room) v
        (omega (arith, small)))
