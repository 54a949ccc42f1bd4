-- ===== src/Thread/Exit.antt =====
-- `exit_thread` of src/thread.rs on a thread that is not the bootstrap one.
use apogee.Base.{
  ℕ, ◌<◌, ◌≡◌, refl, sym, ap, ◌∙◌, ◌≢◌, inl, inr, List, [], ◌∷◌, none, some, true, Option-cases,
  arith,
}
use apogee.Base.Maps.{lookup, remove, keys, count, lookup-some, count-remove, length-remove}
use apogee.Thread.{
  Threads, ThreadScheduler, KernelThread, drain_reaper, has_context, park, exit_thread,
}
use apogee.Thread.Consistent.{
  IsConsistent, drain_reaper-IsConsistent, drain_reaper-none, has_context-true,
}
use apogee.Thread.Steps.{Ends}

-- What `exit_thread` leaves when `next` is first in the queue.
abbrev left : Threads → KernelThread → ℕ → List ℕ → Threads
left d boxed next rest = record d {
  sched = record d.sched {
    threads = remove d.sched.current d.sched.threads;
    reaper = some boxed;
    ready = rest;
    current = next;
  };
}

module _ (d : Threads) (v : IsConsistent d) (real : d.sched.current ≢ 0)
    (empty : d.sched.reaper ≡ none) where
  current_tracked : 0 < count d.sched.current (keys d.sched.threads)
  current_tracked = ground (arith, v.places d.sched.current)

  park_lem :
      (boxed : KernelThread)
      → lookup d.sched.current d.sched.threads ≡ some boxed
      → park d.sched
        ≡ record d.sched { threads = remove d.sched.current d.sched.threads; reaper = some boxed }
  unfolding park
  park_lem boxed found = ground arith

  left_context :
      (next : ℕ) (rest : List ℕ)
      → d.sched.ready ≡ next ∷ rest
      → 0 < count next (0 ∷ keys (remove d.sched.current d.sched.threads))
  left_context next rest e =
      ground
        (arith, v.places next, v.single next, count-remove next d.sched.current d.sched.threads)

  left-IsConsistent :
      (boxed : KernelThread) (next : ℕ) (rest : List ℕ)
      → d.sched.ready ≡ next ∷ rest
      → IsConsistent (left d boxed next rest)
  left-IsConsistent boxed next rest e = record {
    places = λ x.
        ground (arith, v.places x, current_tracked, count-remove x d.sched.current d.sched.threads);
    single = λ x. ground (arith, v.single x, count-remove x d.sched.current d.sched.threads);
    fresh = λ x k. ground (arith, v.fresh x k, count-remove x d.sched.current d.sched.threads);
    positive = v.positive;
    alive = ground (arith, v.alive, length-remove d.sched.current d.sched.threads current_tracked);
  }

  queue_not_empty : d.sched.ready ≢ []
  queue_not_empty e = ground (arith, v.places 0)

  exit_from :
      (boxed : KernelThread) (next : ℕ) (rest : List ℕ)
      → lookup d.sched.current d.sched.threads ≡ some boxed
      → d.sched.ready ≡ next ∷ rest
      → has_context
          (record d.sched { threads = remove d.sched.current d.sched.threads; reaper = some boxed })
          next
        ≡ true
  exit_from boxed next rest found e =
      has_context-true
        (record d.sched { threads = remove d.sched.current d.sched.threads; reaper = some boxed })
        next (left_context next rest e)

-- What `exit_thread` promises of the state that it leaves.
pub record HasExited (t u : Threads) : Type 0 where
  pub consistent : IsConsistent u
  -- The thread is no longer tracked; it waits in the reaper slot.
  pub gone : count t.sched.current (keys u.sched.threads) ≡ 0
  pub parked : u.sched.reaper ≡ lookup t.sched.current t.sched.threads
  -- The first thread of the queue runs, and the others keep their order.
  pub order : t.sched.ready ≡ u.sched.current ∷ u.sched.ready

module _ (t : Threads) (v : IsConsistent t) (real : t.sched.current ≢ 0) where
  abbrev d : Threads
  d = drain_reaper t

  kept_sched :
      (d.sched.current ≡ t.sched.current)
      × (d.sched.threads ≡ t.sched.threads)
      × (d.sched.ready ≡ t.sched.ready)
  kept_sched = unfold drain_reaper in (ground arith, ground arith, ground arith)

  d_real : d.sched.current ≢ 0
  d_real e = real (sym kept_sched.0 ∙ e)

  left-HasExited :
      (boxed : KernelThread) (next : ℕ) (rest : List ℕ)
      → lookup d.sched.current d.sched.threads ≡ some boxed
      → d.sched.ready ≡ next ∷ rest
      → HasExited t (left d boxed next rest)
  left-HasExited boxed next rest found e =
      let w = drain_reaper-IsConsistent t v in
      record {
        consistent = left-IsConsistent d w d_real (drain_reaper-none t) boxed next rest e;
        gone = ground (
          arith,
          kept_sched,
          v.single t.sched.current,
          count-remove t.sched.current d.sched.current d.sched.threads,
        );
        parked = ground (arith, kept_sched);
        order = ground (arith, kept_sched);
      }

-- With a consistent scheduler `exit_thread` on any thread but the bootstrap one never panics. The
-- thread leaves the map for the reaper slot, the first thread of the queue runs next, and the
-- invariant is kept.
pub exit_thread-Ends :
    (t : Threads) → IsConsistent t → t.sched.current ≢ 0 → Ends (HasExited t) (exit_thread t)
unfolding exit_thread
exit_thread-Ends t v real = go (drain_reaper t).sched.ready refl
  where
    w : IsConsistent (drain_reaper t)
    w = drain_reaper-IsConsistent t v

    here : (drain_reaper t).sched.current ≢ 0
    here = d_real t v real

    go : (q : List ℕ) → (drain_reaper t).sched.ready ≡ q → Ends (HasExited t) (exit_thread t)
    go [] e = absurd (queue_not_empty (drain_reaper t) w here (drain_reaper-none t) e)
    go (next ∷ rest) e =
        elim (Option-cases (lookup (drain_reaper t).sched.current (drain_reaper t).sched.threads)) [
          | inl missing ↦ absurd (
              lookup-some _ _ (current_tracked (drain_reaper t) w here (drain_reaper-none t))
                missing)
          | inr (boxed, found) ↦
              let parked = park_lem (drain_reaper t) w here (drain_reaper-none t) boxed found in
              let popped : (park (drain_reaper t).sched).ready ≡ next ∷ rest =
                ap (λ (s : ThreadScheduler). s.ready) parked ∙ e in
              let runs =
                exit_from (drain_reaper t) w here (drain_reaper-none t) boxed next rest found e in
              rw (popped, exit_thread, parked, runs)
                (left-HasExited t v real boxed next rest found e)
        ]
