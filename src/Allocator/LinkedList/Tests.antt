-- ===== src/Allocator/LinkedList/Tests.antt =====
-- The allocator of src/allocator/linkedlist.rs on a heap of one page at 0x1000, with one block
-- taken and given back.
use apogee.Base.{
  ℕ, ◌+◌, ◌%◌, ◌≡◌, refl, ◌↔◌, true, ◌||◌, [], ◌∷◌, All, add64, sub64, not64, checked_add,
  saturating_add, saturating_sub, arith,
}
use apogee.Allocator.{Layout, align_up}
use apogee.Allocator.Align.{IsLayout}
use apogee.Allocator.LinkedList.{
  LinkedListAllocator, end_addr, allocation_size, allocation_align, empty, coalesce_from, coalesce,
  insert_region, add_free_region, init, free_bytes, fit, unlink_fit, put_back, find_region, alloc,
  dealloc, dealloc_asserts,
}
use apogee.Allocator.LinkedList.Bytes.{in_block, is_free}
use apogee.Allocator.LinkedList.Insert.{IsWellFormed, IsSpare}
use apogee.Allocator.LinkedList.Fits.{TooSmall}
use apogee.Allocator.LinkedList.Find.{IsAllocated}
use apogee.Allocator.LinkedList.Safety.{alloc-IsAllocated, alloc_null, dealloc_lem}
use apogee.Allocator.LinkedList.Client.{Heap, allocs, frees, run, IsSound}
use apogee.Allocator.LinkedList.Client.Sound.{run-IsSound}

abbrev request : Layout
request = record { size = 100; align = 64 }

request-IsLayout : IsLayout request
request-IsLayout = record {
  exponent = 6;
  align_pow = refl;
  exponent_le = omega arith;
  size_pos = omega arith;
  size_lt = omega arith;
}

abbrev heap : LinkedListAllocator
heap = record {
  head = record { start_addr = 0x1008; size = 0xff8 } ∷ [];
  heap_start = 0x1001;
  heap_end = 0x2000;
}

abbrev after : LinkedListAllocator
after = record heap {
  head =
      record { start_addr = 0x1008; size = 0x38 }
      ∷ record { start_addr = 0x10a8; size = 0xf58 }
      ∷ [];
}

abbrev held : Heap
held = record { allocator = after; live = record { ptr = 0x1040; layout = request } ∷ [] }

init-heap : init empty 0x1001 0xfff ≡ heap
unfolding init saturating_add saturating_sub align_up add64 sub64 not64 add_free_region coalesce
    insert_region coalesce_from
init-heap = refl

alloc-heap : alloc heap request ≡ (after, 0x1040)
unfolding alloc find_region unlink_fit fit put_back end_addr allocation_size allocation_align
    checked_add align_up add64 sub64 not64 add_free_region coalesce insert_region coalesce_from
alloc-heap = refl

dealloc-after : dealloc after 0x1040 request ≡ heap
unfolding dealloc end_addr allocation_size align_up add64 sub64 not64 add_free_region coalesce
    insert_region coalesce_from
dealloc-after = refl

heap-IsWellFormed : IsWellFormed heap
heap-IsWellFormed = record { bounded = omega arith; ordered = omega arith; chain = ground arith }

after-IsWellFormed : IsWellFormed after
after-IsWellFormed = record { bounded = omega arith; ordered = omega arith; chain = ground arith }

block-IsSpare : IsSpare after 0x1040 (allocation_size request)
unfolding allocation_size align_up add64 sub64 not64
block-IsSpare = record {
  aligned = refl;
  holds_node = omega arith;
  above = omega arith;
  below = omega arith;
  apart = ground arith;
}

heap-IsSound : IsSound (record { allocator = heap; live = [] })
heap-IsSound = record { well_formed = heap-IsWellFormed; not_null = omega arith; held = tt }

held-IsSound : IsSound held
held-IsSound = record {
  well_formed = after-IsWellFormed;
  not_null = omega arith;
  held = (request-IsLayout, block-IsSpare, tt, tt);
}

alloc-IsAllocated_example :
    IsAllocated (allocation_size request) (allocation_align request) heap after 0x1040
    × (0x1040 % 64 ≡ 0)
alloc-IsAllocated_example =
    alloc-IsAllocated request heap after 0x1040 request-IsLayout heap-IsWellFormed alloc-heap
      (omega arith)

alloc_null_example :
    (((alloc heap request).1 ≡ 0)
      ↔ All (TooSmall (allocation_size request) (allocation_align request)) heap.head)
    × ((alloc heap request).1 ≡ 0 → (alloc heap request).0 ≡ heap)
alloc_null_example = alloc_null request heap request-IsLayout heap-IsWellFormed (omega arith)

dealloc_lem_example :
    IsWellFormed (dealloc after 0x1040 request)
    × ((x : ℕ)
        → is_free x (dealloc after 0x1040 request).head
          ≡ (in_block 0x1040 (allocation_size request) x || is_free x after.head))
    × (free_bytes (dealloc after 0x1040 request) ≡ allocation_size request + free_bytes after)
    × (dealloc_asserts after 0x1040 request ≡ true)
dealloc_lem_example =
    dealloc_lem request after 0x1040 request-IsLayout after-IsWellFormed block-IsSpare

run-IsSound_example :
    IsSound (run (record { allocator = heap; live = [] }) (allocs request ∷ frees 0 ∷ []))
run-IsSound_example =
    run-IsSound (record { allocator = heap; live = [] }) (allocs request ∷ frees 0 ∷ [])
      (request-IsLayout, (tt, tt)) heap-IsSound
