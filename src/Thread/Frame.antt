-- ===== src/Thread/Frame.antt =====
-- What `yield_now` and `exit_thread` of src/thread.rs do not touch.
use apogee.Base.{ℕ, ◌≡◌, inl, inr, List, Bool-cases, List-cases, arith}
use apogee.Scheduler.{note_thread_exited}
use apogee.Thread.{
  Threads, Outcome, running, panicked, drain_reaper, has_context, rotate, yield_now, park,
  exit_thread,
}

-- The next thread id and the count of processes.
abbrev pub Keeps : Threads → Threads → Type 0
Keeps t u = (u.next_id ≡ t.next_id) × (u.counters.processes_alive ≡ t.counters.processes_alive)

abbrev pub KeptBy : Threads → Outcome → Type 0
KeptBy t (running u) = Keeps t u
KeptBy t panicked = Unit

drain_reaper-Keeps : (t : Threads) → Keeps t (drain_reaper t)
unfolding drain_reaper note_thread_exited
drain_reaper-Keeps t = (ground arith, ground arith)

rotate-KeptBy :
    (t d : Threads) (next : ℕ) (rest : List ℕ) (rsp : ℕ)
    → Keeps t d
    → KeptBy t (rotate d next rest rsp)
unfolding rotate
rotate-KeptBy t d next rest rsp k = elim (Bool-cases (has_context d.sched d.sched.current)) [
  | inr lost ↦ rw lost tt
  | inl here ↦ elim (Bool-cases (has_context d.sched next)) [
    | inr lost ↦ rw (here, lost) tt
    | inl there ↦ rw (here, there) k
  ]
]

pub yield_now-KeptBy : (t : Threads) (rsp : ℕ) → KeptBy t (yield_now t rsp)
unfolding yield_now
yield_now-KeptBy t rsp =
    let k = drain_reaper-Keeps t in
    elim (List-cases (drain_reaper t).sched.ready) [
      | inl empty ↦ rw (empty, yield_now) k
      | inr (next, rest, e) ↦ rw (e, yield_now) (rotate-KeptBy t (drain_reaper t) next rest rsp k)
    ]

pub exit_thread-KeptBy : (t : Threads) → KeptBy t (exit_thread t)
unfolding exit_thread
exit_thread-KeptBy t =
    let k = drain_reaper-Keeps t in
    let parked = park (drain_reaper t).sched in
    elim (List-cases parked.ready) [
      | inl empty ↦ rw (empty, exit_thread) tt
      | inr (next, rest, e) ↦ elim (Bool-cases (has_context parked next)) [
        | inr lost ↦ rw (e, exit_thread, lost) tt
        | inl there ↦ rw (e, exit_thread, there) k
      ]
    ]
