-- ===== src/Thread/Switching/Contexts.antt =====
-- The contexts of the threads of src/thread.rs across a yield.
use apogee.Base.{
  ℕ, ◌+◌, ◌-◌, ◌≤◌, ◌<◌, ◌≡◌, ◌≢◌, ◌⊎◌, refl, ◌∙◌, List, ◌∷◌, Option, none, some, word, arith,
}
use apogee.Base.Maps.{count}
use apogee.Thread.{Threads, Outcome, running, panicked, drain_reaper, yield_now}
use apogee.Thread.Consistent.{IsConsistent}
use apogee.Thread.Steps.{Ends}
use apogee.Thread.RoundRobin.{saved_rsp, HasYielded, drain_reaper_frame, yield_now-HasYielded}
use apogee.Thread.Stack.{Memory, Stack, Saved, switch_out, Resumed, switch_in}
use apogee.Thread.Stack.Switch.{
  switch_out_sp, switch_out_mem, switch_in_loads, switch_in-switch_out,
}
use apogee.Thread.Switching.{Yielded, switch_to, yield_switch}

-- The frame of a waiting thread: where it is saved, and what it holds.
pub record Frame : Type 0 where
  pub sp : ℕ
  pub context : Resumed

-- Every waiting thread has a saved frame, apart from the slots that `s` pushes to.
pub record AreSaved (t : Threads) (s : Stack) (frames : ℕ → Frame) (waiting : List ℕ) : Type 0 where
  pub saved : (id : ℕ) → 0 < count id waiting → saved_rsp t.sched id ≡ some (frames id).sp
  pub holds : (id : ℕ) → 0 < count id waiting → switch_in (frames id).sp s.mem ≡ (frames id).context
  pub below : (id : ℕ) → 0 < count id waiting → (frames id).sp + 56 < word
  pub apart :
      (id : ℕ) → 0 < count id waiting → ((frames id).sp + 56 ≤ s.sp - 48) ⊎ (s.sp ≤ (frames id).sp)

-- The seven slots are all that a load reads.
switch_in-same :
    (sp : ℕ) (mem mem' : Memory)
    → sp + 56 < word
    → ((x : ℕ) → sp ≤ x → x < sp + 56 → mem' x ≡ mem x)
    → switch_in sp mem' ≡ switch_in sp mem
switch_in-same sp mem mem' h same =
    rw
      (
        switch_in_loads sp mem h,
        switch_in_loads sp mem' h,
        same sp (omega arith) (omega arith),
        same (sp + 8) (omega arith) (omega arith),
        same (sp + 16) (omega arith) (omega arith),
        same (sp + 24) (omega arith) (omega arith),
        same (sp + 32) (omega arith) (omega arith),
        same (sp + 40) (omega arith) (omega arith),
        same (sp + 48) (omega arith) (omega arith),
      )
      refl

module _ (registers : Saved) (s : Stack) (low : 48 ≤ s.sp) (high : s.sp + 8 < word) where
  -- Pushing the registers leaves a frame that is apart.
  frame_kept :
      (f : ℕ)
      → f + 56 < word
      → (f + 56 ≤ s.sp - 48) ⊎ (s.sp ≤ f)
      → switch_in f (switch_out registers s).mem ≡ switch_in f s.mem
  frame_kept f h apart =
      switch_in-same f s.mem (switch_out registers s).mem h
        λ x l u. ground (arith, switch_out_mem registers s x low (omega arith))

  -- What the thread that gives up the processor comes back with.
  abbrev pub own : Resumed
  own = record { registers = registers; rsp = s.sp + 8; rip = s.mem s.sp }

  own_frame : switch_in (s.sp - 48) (switch_out registers s).mem ≡ own
  own_frame =
      let e = switch_out_sp registers s low (omega arith) in
      rw e at (
        switch_in-switch_out registers s (switch_out registers s).mem low high
          (refl, refl, refl, refl, refl, refl, refl))

-- What a yield to `next` leaves.
pub record HasSwitched (t : Threads) (registers : Saved) (s : Stack) (frames : ℕ → Frame) (next : ℕ)
    (rest : List ℕ) (y : Yielded) : Type 0 where
  pub yielded : HasYielded t (s.sp - 48) next rest y.threads
  -- The thread that runs has the context that it had when it was switched away from.
  pub loaded : y.loaded ≡ some (frames next).context
  -- The thread that gave up the processor has its registers in a frame, over its return address.
  pub own_saved : saved_rsp y.threads.sched t.sched.current ≡ some (s.sp - 48)
  pub own_holds :
      switch_in (s.sp - 48) y.mem
      ≡ record { registers = registers; rsp = s.sp + 8; rip = s.mem s.sp }
  -- The frames of the others are as they were.
  pub saved :
      (id : ℕ) → 0 < count id (next ∷ rest) → saved_rsp y.threads.sched id ≡ some (frames id).sp
  pub holds :
      (id : ℕ) → 0 < count id (next ∷ rest) → switch_in (frames id).sp y.mem ≡ (frames id).context

abbrev pub Switches : (Yielded → Type 0) → Option Yielded → Type 0
Switches P none = ⊥
Switches P (some y) = P y

module _ (t : Threads) (registers : Saved) (s : Stack) (frames : ℕ → Frame) (next : ℕ)
    (rest : List ℕ) (v : IsConsistent t) (ready : t.sched.ready ≡ next ∷ rest) (low : 48 ≤ s.sp)
    (high : s.sp + 8 < word) (k : AreSaved t s frames (next ∷ rest)) where
  waiting_other : (id : ℕ) → 0 < count id (next ∷ rest) → id ≢ t.sched.current
  waiting_other id h e = ground (arith, v.places id, v.single id)

  switched :
      (o : Outcome)
      → Ends (HasYielded t (s.sp - 48) next rest) o
      → Switches (HasSwitched t registers s frames next rest) (elim o [
        | panicked ↦ none
        | running u ↦ elim (saved_rsp u.sched next) [
          | none ↦ none
          | some sp ↦ some (record {
            threads = u;
            mem = (switch_out registers s).mem;
            loaded = some (switch_in sp (switch_out registers s).mem);
          })
        ]
      ])
  switched panicked e = absurd e
  switched (running u) y =
      let saved : (id : ℕ)
          → 0 < count id (next ∷ rest)
          → saved_rsp u.sched id ≡ some (frames id).sp =
        λ id h. y.others id (waiting_other id h) ∙ k.saved id h in
      let holds : (id : ℕ)
          → 0 < count id (next ∷ rest)
          → switch_in (frames id).sp (switch_out registers s).mem ≡ (frames id).context =
        λ id h.
          frame_kept registers s low high (frames id).sp (k.below id h) (k.apart id h)
          ∙ k.holds id h in
      let first : 0 < count next (next ∷ rest) = ground arith in
      rw (saved next first) (record {
        yielded = y;
        loaded = rw (holds next first) refl;
        own_saved = y.saved;
        own_holds = own_frame registers s low high;
        saved = saved;
        holds = holds;
      })

  -- A yield of the running thread, with its return address on top of a stack that has room for six
  -- registers and does not wrap around, on a consistent scheduler whose waiting threads have frames
  -- apart from that room: the first of the queue goes on with the context with which it was switched
  -- away from, the thread that yielded has a frame that loads its registers and its return address,
  -- with that address popped, and every other waiting thread still has its frame.
  pub yield_switch-Switches :
      Switches (HasSwitched t registers s frames next rest) (yield_switch t registers s)
  unfolding yield_switch switch_to
  yield_switch-Switches =
      let popped : (drain_reaper t).sched.ready ≡ next ∷ rest = (drain_reaper_frame t).0 ∙ ready in
      let yields : Ends (HasYielded t (s.sp - 48) next rest)
          (yield_now t (switch_out registers s).sp) =
        rw (switch_out_sp registers s low (omega arith))
          (yield_now-HasYielded t (s.sp - 48) next rest v ready) in
      rw (popped, yield_switch) (switched (yield_now t (switch_out registers s).sp) yields)
