-- ===== src/Boot/Whole.antt =====
-- `kernel_main` of src/main.rs from its start to the executor loop.
use apogee.Base.{ℕ, ◌+◌, ◌*◌, ◌/◌, ◌<◌, ◌≤◌, ◌≡◌, ◌≢◌, refl, ◌∙◌, none, some, word, arith}
use apogee.Base.Maps.{lookup}
use apogee.Keyboard.{Crates}
use apogee.Paging.{Paging}
use apogee.Memory.Mapping.{example_address, create_example_mapping}
use apogee.Allocator.{heap_start, heap_size}
use apogee.Allocator.InitHeap
use apogee.Allocator.InitHeap.{MapToError, init_heap}
use apogee.Gdt.{Selectors}
use apogee.Syscall.{user_code_base}
use apogee.Userland.{Setup, user_stack_base}
use apogee.Task.{Futures}
use apogee.Task.Executor.{State}
use apogee.Demos.Finish.{IsQuiet}
use apogee.Demos.Process
use apogee.Demos.Process.{Demo, userland_demo}
use apogee.Demos.Process.Whole.{Completes, SamePages}
use apogee.Boot.{Inputs, Booted, loops, panicked, spent, start_executor, after_userland}
use apogee.Boot.Started.{HasTasks, start_executor-HasTasks}

-- The kernel in its executor loop.
pub record HasStarted {p : Paging} {c : Crates} {fs : Futures} (i : Inputs fs) (s u : Setup p c)
    (e : State c fs) : Type 0 where
  pub quiet : IsQuiet u.machine.threads
  pub processes : (x : ℕ) → lookup x u.machine.processes ≡ lookup x s.machine.processes
  -- The first page shows the frame of the screen, and every page of the heap is mapped.
  pub screen :
      p.translate_page u.mapper (p.containing_address 0)
      ≡ some (p.containing_address example_address)
  pub heap :
      (a : ℕ)
      → heap_start ≤ a
      → a < heap_start + heap_size
      → (frame : ℕ) × (p.translate_page u.mapper (a / 4096 * 4096) ≡ some frame)
  pub tasks : HasTasks i e

module _ (p : Paging) (c : Crates) (fs : Futures) where
  abbrev pub page_zero : ℕ
  page_zero = p.containing_address 0

  -- A boot panics only where `expect` does: the example mapping or the heap failed.
  pub data Fails (s : Setup p c) : Type 0 where
    no_example : create_example_mapping p page_zero s.mapper s.frames ≡ none → Fails s
    no_heap :
        (mapper : p.Mapper) (frames : p.Frames) (m : InitHeap.Memory p) (e : MapToError)
        → create_example_mapping p page_zero s.mapper s.frames ≡ some (mapper, frames)
        → init_heap p (record { mapper = mapper; frames = frames; allocator = s.machine.allocator })
          ≡ (m, some e)
        → Fails s

  abbrev pub Boots : Inputs fs → Setup p c → Booted p c fs → Type 0
  Boots i s (loops u e) = HasStarted i s u e
  Boots i s panicked = Fails s
  Boots i s spent = ⊥

  pub zero_page : page_zero ≡ 0
  zero_page = p.containing_address_lem 0 ∙ refl

  heap_page :
      (a : ℕ)
      → heap_start ≤ a
      → a < heap_start + heap_size
      → (a / 4096 * 4096 ≢ user_code_base) × (a / 4096 * 4096 ≢ user_stack_base)
  heap_page a low high = (λ e. absurd (omega arith), λ e. absurd (omega arith))

  -- What the set-up of memory maps.
  pub record Maps (mapper : p.Mapper) : Type 0 where
    pub screen : p.translate_page mapper page_zero ≡ some (p.containing_address example_address)
    pub heap :
        (a : ℕ)
        → heap_start ≤ a
        → a < heap_start + heap_size
        → (frame : ℕ) × (p.translate_page mapper (a / 4096 * 4096) ≡ some frame)

  Maps-SamePages : (s u : Setup p c) → SamePages p s u → Maps s.mapper → Maps u.mapper
  Maps-SamePages s u same v = record {
    screen =
        same page_zero (λ e. absurd (omega (arith, zero_page)))
          (λ e. absurd (omega (arith, zero_page)))
        ∙ v.screen;
    heap = λ a low high.
        let (frame, there) = v.heap a low high in
        let (code, stack) = heap_page a low high in
        (frame, same (a / 4096 * 4096) code stack ∙ there);
  }

  module _ (sels : Selectors) (i : Inputs fs) (ids : i.next_task + 1 < word) where
    started :
        (s u : Setup p c)
        → IsQuiet u.machine.threads
        → ((x : ℕ) → lookup x u.machine.processes ≡ lookup x s.machine.processes)
        → Maps u.mapper
        → Boots i s (start_executor p c fs sels i u)
    started s u q same v =
        let (e, out, tasks) = start_executor-HasTasks p c fs sels i ids u in
        rw out
          (record { quiet = q; processes = same; screen = v.screen; heap = v.heap; tasks = tasks })

    pub after_userland-Boots :
        (s m : Setup p c) (d : Demo p c)
        → IsQuiet m.machine.threads
        → ((x : ℕ) → lookup x m.machine.processes ≡ lookup x s.machine.processes)
        → Maps m.mapper
        → Completes m d
        → Boots i s (after_userland p c fs sels i d)
    unfolding after_userland
    after_userland-Boots s m (Process.not_created u e) q same v (kept, pages) =
        started s u (rw kept q) (λ x. rw kept (same x)) (Maps-SamePages m u pages v)
    after_userland-Boots s m (Process.completed u) q same v (done, pages) =
        started s u done.quiet (λ x. done.processes x ∙ same x) (Maps-SamePages m u pages v)
    after_userland-Boots s m Process.broken q same v d = absurd d
    after_userland-Boots s m Process.spent q same v d = absurd d
