-- ===== src/Syscall/Dispatch.antt =====
-- What the system calls of src/syscall.rs do.
use apogee.Base.{
  ℕ, ◌+◌, ◌≤◌, ◌<◌, ◌^◌, ◌%◌, ◌≡◌, refl, sym, ap, ◌∙◌, ◌≢◌, inl, inr, List, Option, none, false,
  ◌==◌, ==_iff, Bool-cases, Option-cases, arith,
}
use apogee.Base.Maps.{lookup, IsMap, lookup-remove_self, lookup-remove_ne, remove-IsMap}
use apogee.Scheduler.{note_process_exited}
use apogee.Thread
use apogee.Thread.{Threads, current_process}
use apogee.Thread.Consistent.{IsConsistent}
use apogee.Thread.Steps.{Ends}
use apogee.Thread.Exit.{HasExited, exit_thread-Ends}
use apogee.Keyboard.{Crates}
use apogee.Kernel.{Machine, Moment, answers, never_returns, continue, exit, print_bytes, call}
use apogee.Kernel.Abi.{Caller, user, bad_handle, bad_pointer, errno, process_exit, err}
use apogee.Kernel.Lifecycle.{without, exit_self}
use apogee.Syscall.{
  SyscallFrame, Outcome, returns, left, faults, bytes_at, match_answer, exit_host_thread, sys_exit,
  write_value, sys_write, syscall_dispatch,
}
use apogee.Syscall.Window.{
  IsUserRange, user_bytes_inside, user_bytes_outside, IsReadable, Holds, read_bytes-Holds,
  bytes_at-Holds, read_bytes_fault,
}

-- `write` comes back with the bytes on the screen and their number.
abbrev pub Writes : {c : Crates} → Machine c → (ℕ → Option ℕ) → SyscallFrame → Outcome c → Type 0
Writes {c = c} m mem frame o =
    (bytes : List ℕ) × Holds (bytes_at mem frame.rsi frame.rdx) bytes
    × (o ≡ returns (record m { writer = print_bytes c m.writer bytes }) frame.rdx)

module _ (c : Crates) (m : Machine c) (now : Moment) (mem : ℕ → Option ℕ)
    (frame : SyscallFrame) where
  pub sys_write_lem :
      (caller : Caller)
      → frame.rdi ≡ 1
      → IsUserRange frame.rsi frame.rdx
      → IsReadable mem frame.rsi frame.rdx
      → Writes m mem frame (sys_write c m now mem caller frame)
  unfolding sys_write call match_answer write_value
  sys_write_lem caller fd range readable =
      let (bytes, holds, long) = bytes_at-Holds mem frame.rsi frame.rdx readable in
      (
        bytes,
        holds,
        rw
            (
              (==_iff frame.rdi 1).1 fd,
              user_bytes_inside mem frame.rsi frame.rdx range,
              read_bytes-Holds (bytes_at mem frame.rsi frame.rdx) bytes holds,
              sys_write,
              long,
            )
            refl,
      )

  sys_write_fault :
      (caller : Caller)
      → frame.rdi ≡ 1
      → IsUserRange frame.rsi frame.rdx
      → (a : ℕ) → frame.rsi ≤ a
      → a < frame.rsi + frame.rdx
      → mem a ≡ none
      → sys_write c m now mem caller frame ≡ faults
  unfolding sys_write
  sys_write_fault caller fd range a low high unmapped =
      rw
        (
          (==_iff frame.rdi 1).1 fd,
          user_bytes_inside mem frame.rsi frame.rdx range,
          read_bytes_fault mem frame.rsi frame.rdx a low high unmapped,
          sys_write,
        )
        refl

  pub sys_write_outside :
      (caller : Caller)
      → frame.rdi ≡ 1
      → (IsUserRange frame.rsi frame.rdx → ⊥)
      → sys_write c m now mem caller frame ≡ returns m (errno bad_pointer)
  unfolding sys_write
  sys_write_outside caller fd range =
      rw ((==_iff frame.rdi 1).1 fd, user_bytes_outside mem frame.rsi frame.rdx range, sys_write)
        refl

  pub sys_write_other :
      (caller : Caller)
      → frame.rdi ≢ 1
      → sys_write c m now mem caller frame ≡ returns m (errno bad_handle)
  unfolding sys_write
  sys_write_other caller fd = elim (Bool-cases (frame.rdi == 1)) [
    | inl same ↦ absurd (fd ((==_iff frame.rdi 1).0 same))
    | inr apart ↦ rw (apart, sys_write) refl
  ]

  -- `write` to standard output prints the bytes of a buffer in the user window and returns their
  -- number, when all of them are on mapped pages. When one is not, the kernel takes a page fault. A
  -- buffer that is not in the window, and any other descriptor, is refused with its error and
  -- changes nothing.
  pub write-dispatch :
      frame.rax ≡ 1
      → (frame.rdi ≡ 1
          → IsUserRange frame.rsi frame.rdx
          → IsReadable mem frame.rsi frame.rdx
          → Writes m mem frame (syscall_dispatch c m now mem frame))
        × (frame.rdi ≡ 1
            → IsUserRange frame.rsi frame.rdx
            → (a : ℕ) → frame.rsi ≤ a
            → a < frame.rsi + frame.rdx
            → mem a ≡ none
            → syscall_dispatch c m now mem frame ≡ faults)
        × (frame.rdi ≡ 1
            → (IsUserRange frame.rsi frame.rdx → ⊥)
            → syscall_dispatch c m now mem frame ≡ returns m (errno bad_pointer))
        × (frame.rdi ≢ 1 → syscall_dispatch c m now mem frame ≡ returns m (errno bad_handle))
  write-dispatch e =
      let caller = user (current_process m.threads) in
      let writes : syscall_dispatch c m now mem frame ≡ sys_write c m now mem caller frame =
        unfold syscall_dispatch in ground (arith, e) in
      (
        λ fd range readable. rw writes (sys_write_lem caller fd range readable),
        λ fd range a low high unmapped.
            writes ∙ sys_write_fault caller fd range a low high unmapped,
        λ fd range. writes ∙ sys_write_outside caller fd range,
        λ fd. writes ∙ sys_write_other caller fd,
      )

-- The host thread of a process is gone for good, and the processes are as they were.
abbrev pub HostExited : {c : Crates} → Machine c → Outcome c → Type 0
HostExited m o =
    (u : Machine _) × (o ≡ left u) × (u.processes ≡ m.processes) × HasExited m.threads u.threads

exit_host_thread-HostExited :
    (c : Crates) (m : Machine c)
    → IsConsistent m.threads
    → m.threads.sched.current ≢ 0
    → HostExited m (exit_host_thread c m)
unfolding exit_host_thread match_answer
exit_host_thread-HostExited c m v real =
    go (Thread.exit_thread m.threads) (exit_thread-Ends m.threads v real)
  where
    go :
        (o : Thread.Outcome)
        → Ends (HasExited m.threads) o
        → HostExited m (match_answer c (continue c m o never_returns) (λ response. 0))
    go (Thread.running t) e = (record m { threads = t }, refl, refl, e)
    go Thread.panicked e = absurd e

-- The counter of processes is not part of what the threads promise.
without-IsConsistent :
    {c : Crates} (m : Machine c) (pid : ℕ)
    → IsConsistent m.threads
    → IsConsistent (without m pid).threads
unfolding note_process_exited
without-IsConsistent m pid v = record {
  places = v.places;
  single = v.single;
  fresh = v.fresh;
  positive = v.positive;
  alive = v.alive;
}

exit_missing :
    (c : Crates) (m : Machine c) (now : Moment) (pid status : ℕ)
    → lookup pid m.processes ≡ none
    → call c m now (user pid) (process_exit pid status) ≡ answers m (err bad_handle)
unfolding call
exit_missing c m now pid status missing =
    let not_removed : exit c m pid status ≡ (m, false) = unfold exit in rw (missing, exit) refl in
    rw ((==_iff pid pid).1 refl, not_removed, call) refl

-- What `sys_exit` leaves behind in `u`.
pub record HasLeft {c : Crates} (m : Machine c) (pid : ℕ) (u : Machine c) : Type 0 where
  pub unregistered : lookup pid u.processes ≡ none
  pub others : (x : ℕ) → x ≢ pid → lookup x u.processes ≡ lookup x m.processes
  pub host : HasExited m.threads u.threads
  pub single : IsMap u.processes

module _ (c : Crates) (m : Machine c) (now : Moment) (v : IsConsistent m.threads)
    (real : m.threads.sched.current ≢ 0) (single : IsMap m.processes) where
  pub sys_exit-HasLeft :
      (pid status : ℕ) → (u : Machine c) × (sys_exit c m now pid status ≡ left u) × HasLeft m pid u
  unfolding sys_exit
  sys_exit-HasLeft pid status = elim (Option-cases (lookup pid m.processes)) [
    | inl missing ↦
        let (u, out, same, gone) = exit_host_thread-HostExited c m v real in
        (
          u,
          rw (exit_missing c m now pid status missing, sys_exit) out,
          record {
            unregistered = rw same missing;
            others = λ x h. ap (lookup x) same;
            host = gone;
            single = rw same single;
          },
        )
    | inr (p, found) ↦
        let (u, out, same, gone) =
          exit_host_thread-HostExited c (without m pid) (without-IsConsistent m pid v) real in
        (
          u,
          rw (exit_self c m now pid status p found, sys_exit) out,
          record {
            unregistered = rw same (lookup-remove_self pid m.processes single);
            others =
                λ x h. ap (lookup x) same ∙ lookup-remove_ne pid x m.processes (λ e. h (sym e));
            host = record {
              consistent = gone.consistent;
              gone = gone.gone;
              parked = gone.parked;
              order = gone.order;
            };
            single = rw same (remove-IsMap pid m.processes single);
          },
        )
  ]

  -- With a consistent scheduler and a registry without repeated pids `exit` never returns and never
  -- panics when it runs on a thread other than the bootstrap one. The
  -- calling process is no longer registered, every other process still is as it was, and its host
  -- thread is parked for the reaper while the next one in the queue runs.
  pub exit-dispatch :
      (mem : ℕ → Option ℕ) (frame : SyscallFrame)
      → frame.rax ≡ 0
      → (u : Machine c) × (syscall_dispatch c m now mem frame ≡ left u)
        × HasLeft m (current_process m.threads) u
  unfolding syscall_dispatch
  exit-dispatch mem frame e =
      let (u, out, done) = sys_exit-HasLeft (current_process m.threads) (frame.rdi % 2 ^ 32) in
      (u, ground (arith, out), done)
