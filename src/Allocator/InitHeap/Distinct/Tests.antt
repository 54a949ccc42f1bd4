-- ===== src/Allocator/InitHeap/Distinct/Tests.antt =====
-- `init_heap` of src/allocator/mod.rs with the frames of src/memory.rs, over page tables that hold
-- nothing and two usable regions of which the first is too small for the heap.
use apogee.Base.{◌≡◌, refl, true, false, List, [], ◌∷◌, none, All, add64, sub64, arith}
use apogee.Base.Maps.{lookup, insert}
use apogee.Memory.{MemoryRegion, select, frame_count, search, next_frame, init}
use apogee.Memory.Frames.{IsRegion}
use apogee.Memory.Source.{init-IsAbove}
use apogee.Paging.Monotonic.{monotonic, allocate_frame, monotonic-Ascends}
use apogee.Allocator.{heap_start}
use apogee.Allocator.FixedSizeBlock.{empty}
use apogee.Allocator.InitHeap.{Memory, map_pages, init_allocator, init_heap}
use apogee.Allocator.InitHeap.Distinct.{InOrder, init_heap-InOrder}

abbrev memory_map : List MemoryRegion
memory_map =
    record { start_addr = 0x1000; end_addr = 0x3000; usable = true }
    ∷ record { start_addr = 0x3000; end_addr = 0x100000; usable = false }
    ∷ record { start_addr = 0x100000; end_addr = 0x200000; usable = true }
    ∷ []

memory_map-valid : All IsRegion memory_map
memory_map-valid = (
  record { start_aligned = refl; ordered = omega arith; bounded = omega arith },
  (
    record { start_aligned = refl; ordered = omega arith; bounded = omega arith },
    (record { start_aligned = refl; ordered = omega arith; bounded = omega arith }, tt),
  ),
)

abbrev boot : Memory monotonic
boot = record { mapper = []; frames = init memory_map; allocator = empty }

abbrev ready : Memory monotonic
ready = (init_heap monotonic boot).0

boot_ready : init_heap monotonic boot ≡ (ready, none)
unfolding init_heap map_pages init_allocator lookup insert allocate_frame next_frame search select
    frame_count add64 sub64
boot_ready = refl

init_heap-InOrder_example : InOrder monotonic monotonic-Ascends ready.mapper 0 heap_start 25
init_heap-InOrder_example =
    init_heap-InOrder monotonic monotonic-Ascends boot ready 0
      (init-IsAbove memory_map memory_map-valid (omega arith, (omega arith, tt))) boot_ready
