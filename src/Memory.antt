-- ===== src/Memory.antt =====
-- src/memory.rs: the frame allocator over the bootloader's memory map. A frame is the physical
-- address at which it starts. `containing_address` is `PhysFrame::containing_address`.
pub mod Frames
pub mod Next
pub mod Ascending
pub mod Mapping
pub mod Source
mod Tests
use apogee.Base.{
  ℕ, zero, suc, ◌+◌, ◌*◌, ◌/◌, Bool, true, false, List, [], ◌∷◌, Option, none, some, ltb, ◌==◌,
  if◌then◌else◌, length, add64, sub64,
}

-- `bootloader::bootinfo::MemoryRegion` as its accessors show it; `usable` is the comparison of the
-- region type with `MemoryRegionType::Usable`.
pub record MemoryRegion : Type 0 where
  pub start_addr : ℕ
  pub end_addr : ℕ
  pub usable : Bool

pub record FrameCursor : Type 0 where
  pub region : ℕ
  pub offset : ℕ

pub record MonotonicFrameAllocator : Type 0 where
  pub memory_map : List MemoryRegion
  pub cursor : FrameCursor

abbrev pub new_cursor : FrameCursor
new_cursor = record { region = 0; offset = 0 }

abbrev pub init : List MemoryRegion → MonotonicFrameAllocator
init memory_map = record { memory_map = memory_map; cursor = new_cursor }

-- The inner loop of `next_frame`: the usable region with ordinal `region`.
unfoldable pub select : ℕ → ℕ → List MemoryRegion → Option MemoryRegion
select region usable_ordinal [] = none
select region usable_ordinal (candidate ∷ regions) = elim candidate.usable [
  | false ↦ select region usable_ordinal regions
  | true ↦ elim (usable_ordinal == region) [
    | true ↦ some candidate
    | false ↦ select region (suc usable_ordinal) regions
  ]
]

unfoldable pub frame_count : MemoryRegion → ℕ
unfolding sub64
frame_count current = sub64 current.end_addr current.start_addr / 4096

-- How the outer loop ends.
pub data Search : Type 0 where
  found : ℕ → FrameCursor → Search
  exhausted : Search
  out_of_fuel : Search

unfoldable pub search : (ℕ → ℕ) → List MemoryRegion → ℕ → ℕ → ℕ → Search
unfolding add64
search containing_address regions zero region offset = out_of_fuel
search containing_address regions (suc fuel) region offset = elim (select region 0 regions) [
  | none ↦ exhausted
  | some current ↦ elim (ltb offset (frame_count current)) [
    | true ↦
        found (containing_address (add64 current.start_addr (offset * 4096)))
          (record { region = region; offset = offset + 1 })
    | false ↦ search containing_address regions fuel (suc region) 0
  ]
]

-- No result when the fuel is too small; one round more than there are regions is enough.
unfoldable pub next_frame :
    (ℕ → ℕ) → MonotonicFrameAllocator → Option (MonotonicFrameAllocator × Option ℕ)
next_frame containing_address a =
    elim (search containing_address a.memory_map (suc (length a.memory_map)) a.cursor.region
      a.cursor.offset) [
        | found frame cursor ↦ some (record a { cursor = cursor }, some frame)
        | exhausted ↦ some (a, none)
        | out_of_fuel ↦ none
      ]
