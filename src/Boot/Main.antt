-- ===== src/Boot/Main.antt =====
-- `kernel_main` of src/main.rs reaches the executor loop.
use apogee.Base.{
  ◌≢◌, ℕ, ◌+◌, ◌<◌, ◌≡◌, refl, sym, subst, ◌∙◌, ◌++◌, List, [], ◌∷◌, Option, none, some, length,
  All, word, arith,
}
use apogee.Base.Maps.{lookup}
use apogee.Keyboard.{Crates}
use apogee.Kernel.Registry.{IsRegistry}
use apogee.Paging.{Paging}
use apogee.Memory.Mapping.{
  example_address, create_example_mapping, create_example_mapping-MapsExample,
}
use apogee.Allocator.InitHeap
use apogee.Allocator.InitHeap.{MapToError, init_heap}
use apogee.Allocator.InitHeap.Pages.{HeapOutcome, init_heap-HeapOutcome, init_heap-Keeps}
use apogee.Gdt.{Selectors}
use apogee.Syscall.{SyscallFrame}
use apogee.Interrupts.{Interrupt, system_call}
use apogee.Userland.{Setup}
use apogee.Task.{Futures}
use apogee.Demos
use apogee.Demos.{threading_demo}
use apogee.Demos.Finish.{IsQuiet, Finishes}
use apogee.Demos.Workers.{threading_demo-Finishes}
use apogee.Demos.Frame.{TakesTwo, threading_demo-TakesTwo}
use apogee.Demos.Process.{userland_demo}
use apogee.Demos.Process.Passing.{IsPassing}
use apogee.Demos.Process.Whole.{Completes, userland_demo-Completes}
use apogee.Boot.{
  Inputs, with_threads, after_threading, with_heap, after_heap, after_example, kernel_main,
}
use apogee.Boot.Whole.{page_zero, no_example, no_heap, Boots, Maps, after_userland-Boots}

module _ (p : Paging) (c : Crates) (fs : Futures) (sels : Selectors) (i : Inputs fs)
    (frame : SyscallFrame) (mem : ℕ → Option ℕ) (es : List Interrupt) (ids : i.next_task + 1 < word)
    (is_exit : frame.rax ≡ 0) (passing : All IsPassing es)
    (raises : i.events ≡ es ++ system_call frame mem ∷ []) (user : length es + 3 < i.user_fuel)
    (threads : 9 < i.thread_fuel) (first_stack : i.stack_a.stack ≢ 0)
    (second_stack : i.stack_b.stack ≢ 0) (host_stack : (i.now i.user_fuel).stack ≢ 0) where
  after_threading-Boots :
      (s m : Setup p c) (d : Demos.Driven)
      → IsRegistry m.machine
      → (m.machine.threads.next_id + 3 < word)
      → ((x : ℕ) → lookup x m.machine.processes ≡ lookup x s.machine.processes)
      → Maps p c fs m.mapper
      → Finishes d
      → TakesTwo m.machine.threads d
      → Boots p c fs i s (after_threading p c fs sels i m d)
  unfolding after_threading
  after_threading-Boots s m (Demos.finished t) v room same maps q k =
      let w : Setup p c = with_threads p c fs sels i m t in
      let done =
        userland_demo-Completes p c sels i.now frame mem is_exit es passing w i.user_fuel q
          (record {
            single = v.single;
            keyed = v.keyed;
            alive = k.1 ∙ v.alive;
            fresh = v.fresh;
            positive = v.positive;
          })
          (omega (arith, k.0)) user host_stack in
      after_userland-Boots p c fs sels i ids s w
        (userland_demo p c sels i.now i.user_fuel i.events w) q same maps
        (subst (λ events. Completes w (userland_demo p c sels i.now i.user_fuel events w))
          (sym raises) done)
  after_threading-Boots s m Demos.failed v room same maps q k = absurd q
  after_threading-Boots s m Demos.out_of_fuel v room same maps q k = absurd q

  module _ (s : Setup p c) (q : IsQuiet s.machine.threads) (v : IsRegistry s.machine)
      (room : s.machine.threads.next_id + 3 < word) where
    after_heap-Boots :
        (m : InitHeap.Memory p) (o : InitHeap.Memory p × Option MapToError)
        → create_example_mapping p (page_zero p c fs) s.mapper s.frames ≡ some (m.mapper, m.frames)
        → m.allocator ≡ s.machine.allocator
        → p.translate_page m.mapper (page_zero p c fs) ≡ some (p.containing_address example_address)
        → init_heap p m ≡ o
        → Boots p c fs i s (after_heap p c fs sels i s o)
    unfolding after_heap
    after_heap-Boots m (u, some e) made given screen h =
        no_heap m.mapper m.frames u e made (rw given at h)
    after_heap-Boots m (u, none) made given screen h =
        let w : Setup p c = with_heap p c fs sels i s u in
        let heaped : HeapOutcome p m (u, none) = rw h at (init_heap-HeapOutcome p m) in
        after_threading-Boots s w _
          (record {
            single = v.single;
            keyed = v.keyed;
            alive = v.alive;
            fresh = v.fresh;
            positive = v.positive;
          })
          room (λ x. refl)
          (record {
            screen = init_heap-Keeps p m u h _ _ screen;
            heap = λ a low high. heaped.1 a low high;
          })
          (threading_demo-Finishes i.rsp i.thread_fuel (λ id. 0) i.stack_a i.stack_b
            s.machine.threads q (omega arith) threads first_stack second_stack)
          (threading_demo-TakesTwo i.rsp i.thread_fuel (λ id. 0) i.stack_a i.stack_b
            s.machine.threads (omega arith) first_stack second_stack)

    after_example-Boots :
        (o : Option (p.Mapper × p.Frames))
        → create_example_mapping p (page_zero p c fs) s.mapper s.frames ≡ o
        → Boots p c fs i s (after_example p c fs sels i s o)
    unfolding after_example
    after_example-Boots none h = no_example h
    after_example-Boots (some (mapper, frames)) h =
        let shown =
          rw h at (create_example_mapping-MapsExample p (page_zero p c fs) s.mapper s.frames) in
        let m : InitHeap.Memory p = record {
          mapper = mapper;
          frames = frames;
          allocator = s.machine.allocator;
        } in
        after_heap-Boots m (init_heap p m) h refl shown.0 refl

    -- A boot reaches the executor loop or panics where the mapping of the example page or the set-up
    -- of the heap fails. In the executor loop both startup tasks wait, the example first, only the
    -- bootstrap thread is left, the processes are registered that were before, the first page shows
    -- the frame of the screen, and every page of the heap is mapped. At the start only the bootstrap
    -- thread is there and the registry is sound; three thread ids and two task ids are left; the demo
    -- process makes system calls other than `exit` and `yield`, of which no `write` names bytes that
    -- are not mapped, with ticks and keys at any time, and then exits; ten turns are fuel for the threading demo, and four more than the
    -- interrupts before the exit for the process; and the heap has room for the three threads.
    pub kernel_main-Boots : Boots p c fs i s (kernel_main p c fs sels i s)
    unfolding kernel_main
    kernel_main-Boots =
        after_example-Boots (create_example_mapping p (page_zero p c fs) s.mapper s.frames) refl
