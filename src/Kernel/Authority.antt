-- ===== src/Kernel/Authority.antt =====
-- Who may ask what of `Kernel::call` of src/kernel/mod.rs.
use apogee.Base.{
  ℕ, ◌≡◌, refl, sym, ap, ◌∙◌, ◌≢◌, inl, inr, Bool, true, false, not, ◌||◌, ◌==◌, ==_iff, Bool-cases,
  Option-cases, arith,
}
use apogee.Base.Maps.{lookup, lookup-remove_ne}
use apogee.Thread
use apogee.Thread.{Outcome}
use apogee.Keyboard.{Crates}
use apogee.Kernel.{
  Machine, Moment, Answer, answers, never_returns, panics, spawn, exit, continue, call,
}
use apogee.Kernel.Abi.{
  Caller, kernel, user, irq, denied, Request, process_create, process_exit, process_snapshot,
  process_count, thread_spawn, thread_yield, thread_exit, scheduler_stats, memory_stats,
  timer_ticks, input_read_byte, console_write, err, ok,
}

-- The requests that only the kernel may make, and the process that a request names.
abbrev pub is_privileged : Request → Bool
is_privileged (process_create entry stack_top) = true
is_privileged process_count = true
is_privileged (thread_spawn entry tag) = true
is_privileged _ = false

abbrev pub names_other : ℕ → Request → Bool
names_other self (process_exit pid status) = not (self == pid)
names_other self (process_snapshot pid) = not (self == pid)
names_other self _ = false

abbrev pub is_forbidden : Caller → Request → Bool
is_forbidden kernel request = false
is_forbidden irq request = is_privileged request
is_forbidden (user pid) request = is_privileged request || names_other pid request

module _ {c : Crates} where
  abbrev pub is_denied : Answer c → Bool
  is_denied (answers m (err denied)) = true
  is_denied _ = false

  -- The process `pid` is registered as it was in `m`, in the state that a call leaves.
  abbrev pub Untouched : Machine c → ℕ → Answer c → Type 0
  Untouched m pid (answers after response) = lookup pid after.processes ≡ lookup pid m.processes
  Untouched m pid (never_returns after) = lookup pid after.processes ≡ lookup pid m.processes
  Untouched m pid panics = Unit

module _ (c : Crates) (m : Machine c) (now : Moment) where
  exit-not_denied :
      (pid status : ℕ) → is_denied (call c m now kernel (process_exit pid status)) ≡ false
  unfolding call
  exit-not_denied pid status = elim (Bool-cases (exit c m pid status).1) [
    | inl removed ↦ rw (removed, call) refl
    | inr unknown ↦ rw (unknown, call) refl
  ]

  continue-not_denied :
      (o : Outcome) (f : Machine c → Answer c)
      → ((after : Machine c) → is_denied (f after) ≡ false)
      → is_denied (continue c m o f) ≡ false
  continue-not_denied (Outcome.running t) f h = h (record m { threads = t })
  continue-not_denied Outcome.panicked f h = refl

  yield-not_denied : (caller : Caller) → is_denied (call c m now caller thread_yield) ≡ false
  unfolding call
  yield-not_denied caller =
      continue-not_denied (Thread.yield_now m.threads now.rsp) (λ after. answers after ok)
        (λ after. refl)

  leave-not_denied : (caller : Caller) → is_denied (call c m now caller thread_exit) ≡ false
  unfolding call
  leave-not_denied caller =
      continue-not_denied (Thread.exit_thread m.threads) never_returns (λ after. refl)

  spawn-not_denied :
      (entry tag : ℕ) → is_denied (call c m now kernel (thread_spawn entry tag)) ≡ false
  unfolding call
  spawn-not_denied entry tag = elim (Option-cases (spawn c m now entry tag)) [
    | inl null ↦ rw (null, call) refl
    | inr ((after, id), made) ↦ rw (made, call) refl
  ]

  -- A request is denied exactly when its caller may not make it: a process and an interrupt handler
  -- may not create or count processes or spawn threads, and a process may neither end nor look at
  -- another one.
  pub call-is_denied :
      (caller : Caller) (request : Request)
      → is_denied (call c m now caller request) ≡ is_forbidden caller request
  unfolding call
  call-is_denied kernel (process_exit pid status) = exit-not_denied pid status
  call-is_denied kernel (process_snapshot pid) = refl
  call-is_denied kernel (process_create entry stack_top) = refl
  call-is_denied kernel process_count = refl
  call-is_denied kernel (thread_spawn entry tag) = spawn-not_denied entry tag
  call-is_denied kernel thread_yield = yield-not_denied kernel
  call-is_denied kernel thread_exit = leave-not_denied kernel
  call-is_denied kernel scheduler_stats = refl
  call-is_denied kernel memory_stats = refl
  call-is_denied kernel timer_ticks = refl
  call-is_denied kernel input_read_byte = refl
  call-is_denied kernel (console_write bytes) = refl
  call-is_denied irq (process_exit pid status) = exit-not_denied pid status
  call-is_denied irq (process_snapshot pid) = refl
  call-is_denied irq (process_create entry stack_top) = refl
  call-is_denied irq process_count = refl
  call-is_denied irq (thread_spawn entry tag) = refl
  call-is_denied irq thread_yield = yield-not_denied irq
  call-is_denied irq thread_exit = leave-not_denied irq
  call-is_denied irq scheduler_stats = refl
  call-is_denied irq memory_stats = refl
  call-is_denied irq timer_ticks = refl
  call-is_denied irq input_read_byte = refl
  call-is_denied irq (console_write bytes) = refl
  call-is_denied (user self) (process_exit pid status) = elim (Bool-cases (self == pid)) [
    | inl same ↦ ground (arith, exit-not_denied pid status)
    | inr other ↦ ground arith
  ]
  call-is_denied (user self) (process_snapshot pid) = ground arith
  call-is_denied (user self) (process_create entry stack_top) = refl
  call-is_denied (user self) process_count = refl
  call-is_denied (user self) (thread_spawn entry tag) = refl
  call-is_denied (user self) thread_yield = yield-not_denied (user self)
  call-is_denied (user self) thread_exit = leave-not_denied (user self)
  call-is_denied (user self) scheduler_stats = refl
  call-is_denied (user self) memory_stats = refl
  call-is_denied (user self) timer_ticks = refl
  call-is_denied (user self) input_read_byte = refl
  call-is_denied (user self) (console_write bytes) = refl

  exit-Untouched :
      (self pid other status : ℕ)
      → pid ≢ self
      → Untouched m pid (call c m now (user self) (process_exit other status))
  unfolding call exit
  exit-Untouched self pid other status apart = elim (Bool-cases (self == other)) [
    | inr not_self ↦ rw (not_self, call) refl
    | inl itself ↦ elim (Option-cases (lookup other m.processes)) [
      | inl missing ↦ rw (itself, missing, call, exit) refl
      | inr (p, found) ↦
          rw (itself, found, call, exit)
            (lookup-remove_ne other pid m.processes
              (λ e. apart (sym e ∙ sym ((==_iff self other).0 itself))))
    ]
  ]

  snapshot-Untouched :
      (self pid other : ℕ) → Untouched m pid (call c m now (user self) (process_snapshot other))
  unfolding call
  snapshot-Untouched self pid other = elim (Bool-cases (self == other)) [
    | inr not_self ↦ rw (not_self, call) refl
    | inl itself ↦ rw (itself, call) refl
  ]

  continue-Untouched :
      (pid : ℕ) (o : Outcome) (f : Machine c → Answer c)
      → ((after : Machine c) → after.processes ≡ m.processes → Untouched m pid (f after))
      → Untouched m pid (continue c m o f)
  continue-Untouched pid (Outcome.running t) f h = h (record m { threads = t }) refl
  continue-Untouched pid Outcome.panicked f h = tt

  -- Whatever a process asks of the kernel, the registration of every other process stays as it is.
  pub call-Untouched :
      (self pid : ℕ) (request : Request)
      → pid ≢ self
      → Untouched m pid (call c m now (user self) request)
  unfolding call
  call-Untouched self pid (process_exit other status) apart =
      exit-Untouched self pid other status apart
  call-Untouched self pid thread_yield apart =
      continue-Untouched pid (Thread.yield_now m.threads now.rsp) (λ after. answers after ok)
        (λ after e. ap (lookup pid) e)
  call-Untouched self pid thread_exit apart =
      continue-Untouched pid (Thread.exit_thread m.threads) never_returns
        (λ after e. ap (lookup pid) e)
  call-Untouched self pid (process_create entry stack_top) apart = refl
  call-Untouched self pid (process_snapshot other) apart = snapshot-Untouched self pid other
  call-Untouched self pid process_count apart = refl
  call-Untouched self pid (thread_spawn entry tag) apart = refl
  call-Untouched self pid scheduler_stats apart = refl
  call-Untouched self pid memory_stats apart = refl
  call-Untouched self pid timer_ticks apart = refl
  call-Untouched self pid input_read_byte apart = refl
  call-Untouched self pid (console_write bytes) apart = refl
