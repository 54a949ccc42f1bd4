-- ===== src/Thread/RoundRobin.antt =====
-- The order in which `yield_now` of src/thread.rs runs the threads.
use apogee.Base.{
  ℕ, zero, suc, ◌≡◌, ◌∙◌, ◌≢◌, refl, inl, inr, List, [], ◌∷◌, ◌++◌, Option, none, some, length,
  get_elem?, get_elem?-append_left, ◌==◌, if◌then◌else◌, Option-cases, arith,
}
use apogee.Base.Maps.{lookup, lookup-some, lookup-insert}
use apogee.Thread.{
  Threads, ThreadScheduler, Outcome, running, panicked, drain_reaper, save_context, yield_now,
}
use apogee.Thread.Consistent.{
  IsConsistent, drain_reaper-IsConsistent, drain_reaper-none, save_context_frame,
}
use apogee.Thread.Steps.{Ends, rotate_lem, rotate-IsConsistent}

-- The stack pointer saved for a thread, if the scheduler knows the thread.
abbrev pub saved_rsp : ThreadScheduler → ℕ → Option ℕ
saved_rsp s id =
    if id == 0
    then some s.bootstrap_rsp
    else elim (lookup id s.threads) [ none ↦ none | some thread ↦ some thread.rsp ]

-- The process that a thread belongs to, if the scheduler knows the thread.
abbrev pub tag : ThreadScheduler → ℕ → Option ℕ
tag s id = elim (lookup id s.threads) [ none ↦ none | some thread ↦ some thread.process ]

-- `u` is `t` after a switch to the first thread of the queue.
pub record HasYielded (t : Threads) (rsp next : ℕ) (rest : List ℕ) (u : Threads) : Type 0 where
  pub consistent : IsConsistent u
  pub runs : u.sched.current ≡ next
  pub queue : u.sched.ready ≡ rest ++ t.sched.current ∷ []
  -- The stack pointer of the thread that gave up the CPU is saved, and no other changes.
  pub saved : saved_rsp u.sched t.sched.current ≡ some rsp
  pub others : (x : ℕ) → x ≢ t.sched.current → saved_rsp u.sched x ≡ saved_rsp t.sched x
  -- Every thread belongs to the process it did.
  pub tags : (x : ℕ) → tag u.sched x ≡ tag t.sched x
  pub reaper_empty : u.sched.reaper ≡ none

abbrev queued : Threads → ℕ → List ℕ → ThreadScheduler
queued t next rest = record t.sched { ready = rest ++ t.sched.current ∷ []; current = next }

saved-save_context :
    (s : ThreadScheduler) (id rsp : ℕ)
    → (id ≢ 0 → lookup id s.threads ≢ none)
    → saved_rsp (save_context s id rsp) id ≡ some rsp
unfolding save_context
saved-save_context s id rsp known = elim (Option-cases (lookup id s.threads)) [
  | inl missing ↦ ground arith
  | inr (thread, found) ↦
      ground (arith, lookup-insert id id (record thread { rsp = rsp }) s.threads)
]

saved-save_context_ne :
    (s : ThreadScheduler) (id rsp x : ℕ)
    → x ≢ id
    → saved_rsp (save_context s id rsp) x ≡ saved_rsp s x
unfolding save_context
saved-save_context_ne s id rsp x h = elim (Option-cases (lookup id s.threads)) [
  | inl missing ↦ ground arith
  | inr (thread, found) ↦ ground (arith, lookup-insert id x (record thread { rsp = rsp }) s.threads)
]

tag-save_context : (s : ThreadScheduler) (id rsp x : ℕ) → tag (save_context s id rsp) x ≡ tag s x
unfolding save_context
tag-save_context s id rsp x = elim (Option-cases (lookup id s.threads)) [
  | inl missing ↦ ground arith
  | inr (thread, found) ↦ ground (arith, lookup-insert id x (record thread { rsp = rsp }) s.threads)
]

rotate-HasYielded :
    (d : Threads) (rsp next : ℕ) (rest : List ℕ)
    → IsConsistent d
    → d.sched.reaper ≡ none
    → d.sched.ready ≡ next ∷ rest
    → HasYielded d rsp next rest
        (record d { sched = save_context (queued d next rest) d.sched.current rsp })
rotate-HasYielded d rsp next rest v empty e =
    let s = queued d next rest in
    let id = d.sched.current in
    let frame = save_context_frame s id rsp in
    record {
      consistent = rotate-IsConsistent d next rest rsp v e;
      runs = frame.1;
      queue = frame.0;
      saved =
          saved-save_context s id rsp
            λ real. lookup-some id d.sched.threads (ground (arith, v.places id));
      others = saved-save_context_ne s id rsp;
      tags = tag-save_context s id rsp;
      reaper_empty = frame.2 ∙ empty;
    }

pub drain_reaper_frame :
    (t : Threads)
    → ((drain_reaper t).sched.ready ≡ t.sched.ready)
      × ((drain_reaper t).sched.current ≡ t.sched.current)
      × ((x : ℕ) → saved_rsp (drain_reaper t).sched x ≡ saved_rsp t.sched x)
      × ((drain_reaper t).sched.threads ≡ t.sched.threads)
unfolding drain_reaper
drain_reaper_frame t = (ground arith, ground arith, λ x. ground arith, ground arith)

HasYielded-drain_reaper :
    (t u : Threads) (rsp next : ℕ) (rest : List ℕ)
    → HasYielded (drain_reaper t) rsp next rest u
    → HasYielded t rsp next rest u
HasYielded-drain_reaper t u rsp next rest y =
    let (ready, current, same, threads) = drain_reaper_frame t in
    record {
      consistent = y.consistent;
      runs = y.runs;
      queue = rw (← current) y.queue;
      saved = rw (← current) y.saved;
      others = λ x h. y.others x (λ e. h (e ∙ current)) ∙ same x;
      tags = λ x. y.tags x ∙ rw (threads, tag) refl;
      reaper_empty = y.reaper_empty;
    }

-- With a consistent scheduler a yield with a thread waiting never panics. The first thread of the
-- queue runs next, the one that yielded stands at the end of the queue, its stack pointer is saved
-- and no other saved pointer changes, no thread changes its process, the reaper slot is empty and
-- the invariant is kept.
pub yield_now-HasYielded :
    (t : Threads) (rsp next : ℕ) (rest : List ℕ)
    → IsConsistent t
    → t.sched.ready ≡ next ∷ rest
    → Ends (HasYielded t rsp next rest) (yield_now t rsp)
unfolding yield_now
yield_now-HasYielded t rsp next rest v e =
    let d = drain_reaper t in
    let w : IsConsistent d = drain_reaper-IsConsistent t v in
    let popped : d.sched.ready ≡ next ∷ rest = (drain_reaper_frame t).0 ∙ e in
    rw (popped, yield_now, rotate_lem d next rest rsp w popped)
      (HasYielded-drain_reaper t _ rsp next rest
        (rotate-HasYielded d rsp next rest w (drain_reaper-none t) popped))

-- Yields one after the other, each with the stack pointer at which it happens.
unfoldable pub yields : List ℕ → Threads → Outcome
yields [] t = running t
yields (rsp ∷ rsps) t = elim (yield_now t rsp) [ running u ↦ yields rsps u | panicked ↦ panicked ]

Ends-yields :
    (P : Threads → Type 0) (Q : Threads → Type 0) (o : Outcome) (rsps : List ℕ)
    → Ends P o
    → ((u : Threads) → P u → Ends Q (yields rsps u))
    → Ends Q (elim o [ running u ↦ yields rsps u | panicked ↦ panicked ])
Ends-yields P Q (running u) rsps p k = k u p
Ends-yields P Q panicked rsps p k = p

yields_none : (rsps : List ℕ) (u : Threads) → length rsps ≡ 0 → yields rsps u ≡ running u
unfolding yields
yields_none [] u h = refl
yields_none (rsp ∷ rsps) u h = absurd (omega arith)

-- Round robin: with a consistent scheduler, the thread at place `i` of the ready queue runs after
-- `i + 1` yields, none of which panics, and the scheduler is consistent then.
pub yields-turn :
    (rsps : List ℕ) (t : Threads) (i y : ℕ)
    → IsConsistent t
    → get_elem? t.sched.ready i ≡ some y
    → length rsps ≡ suc i
    → Ends (λ u. IsConsistent u × (u.sched.current ≡ y)) (yields rsps t)
unfolding yields
yields-turn [] t i y v g h = absurd (omega arith)
yields-turn (rsp ∷ rsps) t i y v g h =
    go t.sched.ready i refl g (omega arith) (λ u j w k. yields-turn rsps u j y w k)
  where
    Done : Threads → Type 0
    Done u = IsConsistent u × (u.sched.current ≡ y)

    go :
        (q : List ℕ) (i : ℕ)
        → t.sched.ready ≡ q
        → get_elem? t.sched.ready i ≡ some y
        → length rsps ≡ i
        → ((u : Threads) (j : ℕ)
            → IsConsistent u
            → get_elem? u.sched.ready j ≡ some y
            → length rsps ≡ suc j
            → Ends Done (yields rsps u))
        → Ends Done (yields (rsp ∷ rsps) t)
    go [] i e g h ih = absurd (ground arith)
    go (next ∷ rest) zero e g h ih =
        Ends-yields (HasYielded t rsp next rest) Done (yield_now t rsp) rsps
          (yield_now-HasYielded t rsp next rest v e)
          λ u w. rw (yields_none rsps u h) (w.consistent, ground (arith, w.runs))
    go (next ∷ rest) (suc j) e g h ih =
        Ends-yields (HasYielded t rsp next rest) Done (yield_now t rsp) rsps
          (yield_now-HasYielded t rsp next rest v e)
          λ u w. ih u j w.consistent (rw w.queue (get_elem?-append_left rest _ j y (rw e at g))) h
