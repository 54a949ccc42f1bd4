-- ===== src/Allocator/InitHeap.antt =====
-- `init_heap` of src/allocator/mod.rs: the pages of the heap are mapped, then the slab allocator is
-- given their range. The page tables are the interface of Paging.antt.
pub mod Pages
pub mod Backed
pub mod Distinct
mod Tests
use apogee.Base.{ℕ, zero, suc, ◌+◌, ◌-◌, ◌*◌, ◌/◌, List, [], ◌∷◌, true, false, none, some, Option}
use apogee.Paging.{Mapped, Paging}
use apogee.Allocator.{heap_start, heap_size}
use apogee.Allocator.FixedSizeBlock.{FixedSizeBlockAllocator, init}

-- `PRESENT | WRITABLE`; `map_to` gives the tables on the way the same.
abbrev pub heap_flags : ℕ
heap_flags = 3

pub data MapToError : Type 0 where
  frame_allocation_failed : MapToError
  not_mapped : MapToError

-- The pages from `page` on.
abbrev pub pages_from : ℕ → ℕ → List ℕ
pages_from page zero = []
pages_from page (suc n) = page ∷ pages_from (page + 4096) n

-- `Page::range_inclusive`
abbrev pub range_inclusive : ℕ → ℕ → List ℕ
range_inclusive first last = pages_from first (suc ((last - first) / 4096))

module _ (p : Paging) where
  pub record Memory : Type 0 where
    pub mapper : p.Mapper
    pub frames : p.Frames
    pub allocator : FixedSizeBlockAllocator

  -- The loop, with the error that ends it.
  unfoldable pub map_pages : Memory → List ℕ → Memory × Option MapToError
  map_pages m [] = (m, none)
  map_pages m (page ∷ pages) =
      let (frames, allocated) = p.allocate_frame m.frames in
      elim allocated [
        | none ↦ (record m { frames = frames }, some frame_allocation_failed)
        | some frame ↦
            let mapped = p.map_to m.mapper page frame heap_flags heap_flags frames in
            let after : Memory = record m { mapper = mapped.mapper; frames = mapped.frames } in
            elim mapped.done [ false ↦ (after, some not_mapped) | true ↦ map_pages after pages ]
      ]

  abbrev pub heap_pages : List ℕ
  heap_pages =
      range_inclusive (p.containing_address heap_start)
        (p.containing_address (heap_start + heap_size - 1))

  unfoldable pub init_allocator : Memory × Option MapToError → Memory × Option MapToError
  init_allocator (m, some e) = (m, some e)
  init_allocator (m, none) = (record m { allocator = init m.allocator heap_start heap_size }, none)

  unfoldable pub init_heap : Memory → Memory × Option MapToError
  init_heap m = init_allocator (map_pages m heap_pages)
