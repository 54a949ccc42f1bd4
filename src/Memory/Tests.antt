-- ===== src/Memory/Tests.antt =====
-- The frame allocator of src/memory.rs over a map with two usable regions.
use apogee.Base.{
  ℕ, ◌*◌, ◌/◌, ◌%◌, ◌≡◌, refl, true, false, List, [], ◌∷◌, some, none, All, add64, sub64, arith,
}
use apogee.Memory.{MemoryRegion, select, frame_count, search, next_frame, init}
use apogee.Memory.Frames.{IsRegion, frames, usable_regions}
use apogee.Memory.Ascending.{Ascending, take_frames-Ascending}
use apogee.Memory.Next.{take_frames, firsts, take_frames-firsts}

abbrev memory_map : List MemoryRegion
memory_map =
    record { start_addr = 0; end_addr = 0x1000; usable = false }
    ∷ record { start_addr = 0x1000; end_addr = 0x3000; usable = true }
    ∷ record { start_addr = 0x3000; end_addr = 0x3000; usable = true }
    ∷ record { start_addr = 0x8000; end_addr = 0x9000; usable = true }
    ∷ []

memory_map-valid : All IsRegion memory_map
memory_map-valid = (
  record { start_aligned = refl; ordered = omega arith; bounded = omega arith },
  (
    record { start_aligned = refl; ordered = omega arith; bounded = omega arith },
    (
      record { start_aligned = refl; ordered = omega arith; bounded = omega arith },
      (record { start_aligned = refl; ordered = omega arith; bounded = omega arith }, tt),
    ),
  ),
)

-- A frame is its start address, so the frame of an address on a boundary is that address.
abbrev containing_address : ℕ → ℕ
containing_address a = a / 4096 * 4096

starts : (a : ℕ) → a % 4096 ≡ 0 → containing_address a ≡ a
starts a h = omega arith

three_frames :
    take_frames containing_address 4 (init memory_map)
    ≡ some 0x1000 ∷ some 0x2000 ∷ some 0x8000 ∷ none ∷ []
unfolding take_frames next_frame search select frame_count add64 sub64
three_frames = refl

take_frames-firsts_example :
    take_frames containing_address 4 (init memory_map)
    ≡ firsts 4 (frames (usable_regions memory_map))
take_frames-firsts_example =
    take_frames-firsts containing_address 4 memory_map starts memory_map-valid

take_frames-Ascending_example :
    (fs : List ℕ) × (take_frames containing_address 4 (init memory_map) ≡ firsts 4 fs)
    × Ascending 0 fs
take_frames-Ascending_example =
    take_frames-Ascending containing_address 4 memory_map starts memory_map-valid
      (omega arith, (omega arith, (omega arith, tt)))
