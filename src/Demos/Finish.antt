-- ===== src/Demos/Finish.antt =====
-- The loop of src/demos.rs ends, with every thread gone.
use apogee.Base.{
  ℕ, zero, suc, ◌<◌, ◌≡◌, ◌≢◌, refl, ◌∙◌, inl, inr, List, [], ◌∷◌, none, true, false, ◌==◌,
  Bool-cases, List-cases, arith,
}
use apogee.Base.Maps.{count, no_keys}
use apogee.Thread.{
  Threads, Outcome, running, panicked, drain_reaper, yield_now, exit_thread, ready_count,
}
use apogee.Thread.Consistent.{IsConsistent, drain_reaper-IsConsistent, drain_reaper-none}
use apogee.Thread.Steps.{Ends}
use apogee.Thread.RoundRobin.{HasYielded, drain_reaper_frame, yield_now-HasYielded}
use apogee.Thread.Exit.{HasExited, exit_thread-Ends}
use apogee.Demos.{Driven, finished, failed, out_of_fuel, Yields, yielded, drive}
use apogee.Demos.Measure.{work, measure, work-append, work-yielded}

-- Only the bootstrap thread is left.
pub record IsQuiet (t : Threads) : Type 0 where
  pub consistent : IsConsistent t
  pub bootstrap : t.sched.current ≡ 0
  pub no_ready : t.sched.ready ≡ []
  pub no_threads : t.sched.threads ≡ []

pub ready-IsQuiet :
    (t : Threads) → IsConsistent t → t.sched.current ≡ 0 → t.sched.ready ≡ [] → IsQuiet t
ready-IsQuiet t v here empty = record {
  consistent = v;
  bootstrap = here;
  no_ready = empty;
  no_threads = no_keys t.sched.threads (λ x. ground (arith, v.places x));
}

-- A thread that is not the bootstrap one leaves that one waiting.
queue_not_empty : (t : Threads) → IsConsistent t → t.sched.current ≢ 0 → t.sched.ready ≢ []
queue_not_empty t v real e = ground (arith, v.places 0)

pub ready_count_none : (t : Threads) → t.sched.ready ≡ [] → (ready_count t == 0) ≡ true
unfolding ready_count
ready_count_none t e = rw e refl

pub ready_count_some :
    (t : Threads) (next : ℕ) (rest : List ℕ)
    → t.sched.ready ≡ next ∷ rest
    → (ready_count t == 0) ≡ false
unfolding ready_count
ready_count_some t next rest e = ground arith

once : (t : Threads) → IsConsistent t → count t.sched.current t.sched.ready ≡ 0
once t v = ground (arith, v.places t.sched.current, v.single t.sched.current)

-- A yield turns the queue, and leaves the work.
work-HasYielded :
    (left : Yields) (t u : Threads) (rsp next : ℕ) (rest : List ℕ)
    → t.sched.ready ≡ next ∷ rest
    → HasYielded t rsp next rest u
    → work left (u.sched.current ∷ u.sched.ready) ≡ work left (t.sched.current ∷ t.sched.ready)
work-HasYielded left t u rsp next rest e y =
    rw (y.runs, y.queue, e, work-append left rest (t.sched.current ∷ [])) (omega arith)

-- A yield of the bootstrap thread, an exit and a yield of another thread lower the measure.
less_bootstrap :
    (left : Yields) (t u : Threads) (rsp next : ℕ) (rest : List ℕ)
    → IsConsistent t
    → t.sched.current ≡ 0
    → t.sched.ready ≡ next ∷ rest
    → HasYielded t rsp next rest u
    → measure left u < measure left t
less_bootstrap left t u rsp next rest v here e y =
    ground (arith, work-HasYielded left t u rsp next rest e y, once t v, y.runs)

less_exit :
    (left : Yields) (t u : Threads)
    → t.sched.current ≢ 0
    → HasExited t u
    → measure left u < measure left t
less_exit left t u real x = rw x.order (ground arith)

less_yield :
    (left : Yields) (t u : Threads) (rsp next : ℕ) (rest : List ℕ)
    → t.sched.current ≢ 0
    → 0 < left t.sched.current
    → t.sched.ready ≡ next ∷ rest
    → HasYielded t rsp next rest u
    → measure (yielded left t.sched.current) u < measure left t
less_yield left t u rsp next rest real more e y = ground (
  arith,
  work-HasYielded (yielded left t.sched.current) t u rsp next rest e y,
  work-yielded left t.sched.current (t.sched.current ∷ t.sched.ready) real more,
)

-- The run goes on to an end.
abbrev pub Finishes : Driven → Type 0
Finishes (finished t) = IsQuiet t
Finishes failed = ⊥
Finishes out_of_fuel = ⊥

Finishes-running :
    (P : Threads → Type 0) (k : Threads → Driven) (o : Outcome)
    → Ends P o
    → ((u : Threads) → P u → Finishes (k u))
    → Finishes (elim o [ running u ↦ k u | panicked ↦ failed ])
Finishes-running P k (running u) p h = h u p
Finishes-running P k panicked p h = absurd p

-- The loop `while ready_count() > 0 { yield_now() }` ends in the bootstrap thread, with the scheduler
-- consistent, no thread tracked and none ready: from a consistent scheduler in which every other
-- thread yields a number of times and then exits, whatever those numbers and whoever runs first, no
-- call panics and twice the calls that the threads have left and two more turns are fuel enough.
pub drive-Finishes :
    (rsp : ℕ → ℕ) (fuel : ℕ) (left : Yields) (t : Threads)
    → IsConsistent t
    → measure left t < fuel
    → Finishes (drive rsp fuel left t)
unfolding drive
drive-Finishes rsp zero left t v h = absurd (omega arith)
drive-Finishes rsp (suc fuel) left t v h =
    let yields : (after : Yields) (next : ℕ) (rest : List ℕ)
        → t.sched.ready ≡ next ∷ rest
        → ((u : Threads) → HasYielded t (rsp fuel) next rest u → measure after u < fuel)
        → Finishes (elim (yield_now t (rsp fuel)) [
          | running u ↦ drive rsp fuel after u
          | panicked ↦ failed
        ]) =
      λ after next rest e less.
        Finishes-running (HasYielded t (rsp fuel) next rest) (drive rsp fuel after)
          (yield_now t (rsp fuel)) (yield_now-HasYielded t (rsp fuel) next rest v e)
          λ u y. drive-Finishes rsp fuel after u y.consistent (less u y) in
    elim (Bool-cases (t.sched.current == 0)) [
      | inl here ↦ elim (List-cases t.sched.ready) [
        | inl empty ↦
            rw (here, drive, ready_count_none t empty) (ready-IsQuiet t v (ground arith) empty)
        | inr (next, rest, e) ↦
            rw (here, drive, ready_count_some t next rest e)
              (yields left next rest e (λ u y.
                omega (arith, less_bootstrap left t u (rsp fuel) next rest v (ground arith) e y)))
      ]
      | inr real ↦ elim (Bool-cases (left t.sched.current == 0)) [
        | inl last ↦
            rw (real, last, drive)
              (Finishes-running (HasExited t) (drive rsp fuel left) (exit_thread t)
                (exit_thread-Ends t v (ground arith))
                λ u x.
                  drive-Finishes rsp fuel left u x.consistent
                    (omega (arith, less_exit left t u (ground arith) x)))
        | inr more ↦ elim (List-cases t.sched.ready) [
          | inl empty ↦ absurd (queue_not_empty t v (ground arith) empty)
          | inr (next, rest, e) ↦
              rw (real, more, drive)
                (yields (yielded left t.sched.current) next rest e (λ u y. omega (
                  arith,
                  less_yield left t u (rsp fuel) next rest (ground arith) (ground arith) e y,
                )))
        ]
      ]
    ]

-- The yield of `userland_demo` behind its loop: the last thread that exited is dropped.
pub yield_now-IsQuiet :
    (t : Threads) (rsp : ℕ)
    → IsQuiet t
    → (u : Threads) × (yield_now t rsp ≡ running u)
      × IsQuiet u
      × (u.sched.reaper ≡ none)
      × (u.counters.threads_alive ≡ 0)
unfolding yield_now drain_reaper
yield_now-IsQuiet t rsp q =
    let d = drain_reaper t in
    let w = drain_reaper-IsConsistent t q.consistent in
    let none_left = drain_reaper-none t in
    let frame = drain_reaper_frame t in
    let quiet = ready-IsQuiet d w (frame.1 ∙ q.bootstrap) (frame.0 ∙ q.no_ready) in
    (
      d,
      rw (quiet.no_ready, yield_now) refl,
      quiet,
      none_left,
      ground (arith, w.alive, quiet.no_threads, none_left),
    )
