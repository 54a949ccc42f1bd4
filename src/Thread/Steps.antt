-- ===== src/Thread/Steps.antt =====
-- `spawn`, `yield_now` and `exit_thread` of src/thread.rs keep the invariant and do not panic.
use apogee.Base.{some, ◌≢◌, ℕ, ◌+◌, ◌<◌, ◌≡◌, refl, List, [], ◌∷◌, ◌++◌, true, word, add64, arith}
use apogee.Base.Maps.{keys, count, count-append, count-insert_new, length-insert_new}
use apogee.Scheduler.{note_thread_spawned}
use apogee.Thread.{
  Threads, ThreadScheduler, KernelThread, Outcome, running, panicked, spawn, add_thread,
  drain_reaper, has_context, save_context, rotate, yield_now,
}
use apogee.Thread.Consistent.{
  IsConsistent, drain_reaper-IsConsistent, has_context-true, count-save_context,
  length-save_context, save_context_frame,
}

-- The call ends without a panic, in a state of which `P` holds.
abbrev pub Ends : (Threads → Type 0) → Outcome → Type 0
Ends P (running t) = P t
Ends P panicked = ⊥

-- A spawned thread is queued last under an id that no thread has, and the invariant is kept, as
-- long as the 64-bit ids do not run out.
pub add_thread-IsConsistent :
    (t : Threads) (process stack rsp : ℕ)
    → t.next_id + 1 < word
    → IsConsistent t
    → IsConsistent (add_thread t process stack rsp).0
      × ((add_thread t process stack rsp).0.sched.ready ≡ t.sched.ready ++ t.next_id ∷ [])
      × (count t.next_id (keys t.sched.threads) ≡ 0)
unfolding add_thread note_thread_spawned add64
add_thread-IsConsistent t process stack rsp h v =
    let new = v.fresh t.next_id (omega arith) in
    let thread : KernelThread = record {
      id = t.next_id;
      process = process;
      rsp = rsp;
      stack = stack;
    } in
    (
      record {
        places = λ x. ground (
          arith,
          v.places x,
          count-append x t.sched.ready (t.next_id ∷ []),
          count-insert_new x t.next_id thread t.sched.threads new,
        );
        single = λ x. ground (
          arith,
          v.single x,
          v.positive,
          count-insert_new x t.next_id thread t.sched.threads new,
        );
        fresh = λ x k.
            ground (arith, v.fresh x, count-insert_new x t.next_id thread t.sched.threads new);
        positive = omega (arith, v.positive);
        alive = omega (arith, v.alive, length-insert_new t.next_id thread t.sched.threads new);
      },
      refl,
      new,
    )

-- With memory for it a thread is added.
pub spawn-add_thread :
    (t : Threads) (process stack rsp : ℕ)
    → stack ≢ 0
    → spawn t process stack rsp ≡ some (add_thread t process stack rsp)
unfolding spawn
spawn-add_thread t process stack rsp h = ground arith

module _ (t : Threads) (next : ℕ) (rest : List ℕ) (rsp : ℕ) (v : IsConsistent t)
    (popped : t.sched.ready ≡ next ∷ rest) where
  abbrev queued : ThreadScheduler
  queued = record t.sched { ready = rest ++ t.sched.current ∷ []; current = next }

  next_context : has_context t.sched next ≡ true
  next_context = has_context-true t.sched next (ground (arith, v.places next))

  current_context : has_context t.sched t.sched.current ≡ true
  current_context =
      has_context-true t.sched t.sched.current (ground (arith, v.places t.sched.current))

  pub rotate_lem :
      rotate t next rest rsp
      ≡ running (record t { sched = save_context queued t.sched.current rsp })
  unfolding rotate
  rotate_lem = rw (current_context, next_context) refl

  pub rotate-IsConsistent :
      IsConsistent (record t { sched = save_context queued t.sched.current rsp })
  rotate-IsConsistent =
      let s = queued in
      let id = t.sched.current in
      let frame = save_context_frame s id rsp in
      record {
        places = λ x. ground (
          arith,
          frame,
          v.places x,
          count-append x rest (id ∷ []),
          count-save_context s id rsp x,
        );
        single = λ x. ground (arith, v.single x, count-save_context s id rsp x);
        fresh = λ x k. ground (arith, v.fresh x k, count-save_context s id rsp x);
        positive = v.positive;
        alive = ground (arith, frame, v.alive, length-save_context s id rsp);
      }

-- `yield_now` never panics on a consistent scheduler and leaves it consistent.
pub yield_now-Ends : (t : Threads) (rsp : ℕ) → IsConsistent t → Ends IsConsistent (yield_now t rsp)
unfolding yield_now
yield_now-Ends t rsp v = go (drain_reaper t).sched.ready refl
  where
    go : (q : List ℕ) → (drain_reaper t).sched.ready ≡ q → Ends IsConsistent (yield_now t rsp)
    go [] e = rw (e, yield_now) (drain_reaper-IsConsistent t v)
    go (next ∷ rest) e =
        rw
          (
            e,
            yield_now,
            rotate_lem (drain_reaper t) next rest rsp (drain_reaper-IsConsistent t v) e,
          )
          (rotate-IsConsistent (drain_reaper t) next rest rsp (drain_reaper-IsConsistent t v) e)
