-- ===== src/Thread/Consistent.antt =====
-- The invariant of the thread scheduler of src/thread.rs, and that the parts of `yield_now` and
-- `exit_thread` keep it.
use apogee.Base.{
  ℕ, ◌+◌, ◌%◌, ◌≤◌, ◌<◌, ◌≡◌, inl, inr, ◌∷◌, Option, none, some, true, length, Option-cases, word,
  arith,
}
use apogee.Base.Maps.{
  lookup, keys, count, lookup-some, count-keys, count-insert_old, length-insert_old,
}
use apogee.Scheduler.{note_thread_exited}
use apogee.Thread.{Threads, ThreadScheduler, KernelThread, drain_reaper, has_context, save_context}

abbrev pub reaped : Option KernelThread → ℕ
reaped none = 0
reaped (some thread) = 1

-- Every tracked thread, and the bootstrap thread, is either the running one or stands in the ready
-- queue, once; nothing else does. Thread ids are not 0 and below the next one, and the live counter
-- counts the tracked threads and the one in the reaper slot.
pub record IsConsistent (t : Threads) : Type 0 where
  pub places :
      (x : ℕ) → count x (t.sched.current ∷ t.sched.ready) ≡ count x (0 ∷ keys t.sched.threads)
  pub single : (x : ℕ) → count x (0 ∷ keys t.sched.threads) ≤ 1
  pub fresh : (x : ℕ) → t.next_id ≤ x → count x (keys t.sched.threads) ≡ 0
  pub positive : 1 ≤ t.next_id
  pub alive : t.counters.threads_alive ≡ (length t.sched.threads + reaped t.sched.reaper) % word

pub drain_reaper-IsConsistent : (t : Threads) → IsConsistent t → IsConsistent (drain_reaper t)
unfolding drain_reaper note_thread_exited
drain_reaper-IsConsistent t v = elim (Option-cases t.sched.reaper) [
  | inl empty ↦ rw (empty, drain_reaper) v
  | inr (dead, full) ↦
      rw (full, drain_reaper)
        (record {
          places = v.places;
          single = v.single;
          fresh = v.fresh;
          positive = v.positive;
          alive = ground (arith, v.alive);
        })
]

pub drain_reaper-none : (t : Threads) → (drain_reaper t).sched.reaper ≡ none
unfolding drain_reaper
drain_reaper-none t = ground arith

-- A thread that stands in the queue has a context.
pub has_context-true :
    (s : ThreadScheduler) (x : ℕ) → 0 < count x (0 ∷ keys s.threads) → has_context s x ≡ true
unfolding has_context
has_context-true s x h = ground (arith, lookup-some x s.threads)

pub count-save_context :
    (s : ThreadScheduler) (id rsp x : ℕ)
    → count x (keys (save_context s id rsp).threads) ≡ count x (keys s.threads)
unfolding save_context
count-save_context s id rsp x = elim (Option-cases (lookup id s.threads)) [
  | inl missing ↦ ground arith
  | inr (thread, found) ↦ ground (
    arith,
    count-keys id thread s.threads found,
    count-insert_old x id (record thread { rsp = rsp }) s.threads,
  )
]

pub length-save_context :
    (s : ThreadScheduler) (id rsp : ℕ) → length (save_context s id rsp).threads ≡ length s.threads
unfolding save_context
length-save_context s id rsp = elim (Option-cases (lookup id s.threads)) [
  | inl missing ↦ ground arith
  | inr (thread, found) ↦ ground (
    arith,
    count-keys id thread s.threads found,
    length-insert_old id (record thread { rsp = rsp }) s.threads,
  )
]

-- `save_context` touches no other field.
pub save_context_frame :
    (s : ThreadScheduler) (id rsp : ℕ)
    → let r = save_context s id rsp in
      (r.ready ≡ s.ready) × (r.current ≡ s.current) × (r.reaper ≡ s.reaper)
unfolding save_context
save_context_frame s id rsp = (ground arith, ground arith, ground arith)
