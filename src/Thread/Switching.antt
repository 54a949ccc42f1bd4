-- ===== src/Thread/Switching.antt =====
-- `yield_now` of src/thread.rs with the `switch_context` behind it, over one memory: the contexts of
-- the threads are the frames on their stacks.
pub mod Contexts
mod Tests
use apogee.Base.{ℕ, List, [], ◌∷◌, Option, none, some}
use apogee.Thread.{Threads, running, panicked, drain_reaper, yield_now}
use apogee.Thread.RoundRobin.{saved_rsp}
use apogee.Thread.Stack.{Memory, Stack, Saved, switch_out, Resumed, switch_in}

-- What runs after a call of `yield_now`: the scheduler, memory and, if the processor switched, what
-- was loaded for the thread that runs.
pub record Yielded : Type 0 where
  pub threads : Threads
  pub mem : Memory
  pub loaded : Option Resumed

-- `yield_now` when `next` is the first of the queue. The registers are pushed on the stack at `s`,
-- whose top is the return address, and the frame of `next` is loaded.
unfoldable pub switch_to : Threads → ℕ → Saved → Stack → Option Yielded
switch_to t next registers s =
    let out = switch_out registers s in
    elim (yield_now t out.sp) [
      | panicked ↦ none
      | running u ↦ elim (saved_rsp u.sched next) [
        | none ↦ none
        | some sp ↦
            some (record { threads = u; mem = out.mem; loaded = some (switch_in sp out.mem) })
      ]
    ]

unfoldable pub yield_switch : Threads → Saved → Stack → Option Yielded
unfolding switch_to
yield_switch t registers s = elim (drain_reaper t).sched.ready [
  | [] ↦ elim (yield_now t s.sp) [
    | panicked ↦ none
    | running u ↦ some (record { threads = u; mem = s.mem; loaded = none })
  ]
  | next ∷ rest ↦ switch_to t next registers s
]
