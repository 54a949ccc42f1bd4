-- ===== src/Memory/Source.antt =====
-- The frame allocator of src/memory.rs as a source of frames in ascending order.
use apogee.Base.{ℕ, ◌+◌, ◌≤◌, ◌≡◌, List, [], ◌∷◌, Option, some, length, All, sym, ◌∙◌, arith}
use apogee.Memory.{MemoryRegion, MonotonicFrameAllocator, next_frame, init}
use apogee.Memory.Frames.{
  usable_regions, frames_from, IsRegion, frames_from_zero, All-usable_regions,
}
use apogee.Memory.Next.{StartsFrame, HandsOut, next_frame-HandsOut}
use apogee.Memory.Ascending.{Ascending, Sorted, Ascending-frames}

-- The frames still to come are in ascending order from `lo` on.
pub record IsAbove (a : MonotonicFrameAllocator) (lo : ℕ) : Type 0 where
  pub valid : All IsRegion a.memory_map
  pub inside : a.cursor.region ≤ length (usable_regions a.memory_map)
  pub ascending :
      Ascending lo (frames_from (usable_regions a.memory_map) a.cursor.region a.cursor.offset)

handed_out :
    (a b : MonotonicFrameAllocator) (lo frame : ℕ) (fs : List ℕ)
    → (result : Option (MonotonicFrameAllocator × Option ℕ)) → All IsRegion a.memory_map
    → Ascending lo fs
    → HandsOut a fs result
    → result ≡ some (b, some frame)
    → (lo ≤ frame) × IsAbove b (frame + 4096)
handed_out a b lo frame [] result valid up h e = absurd (ground arith)
handed_out a b lo frame (f ∷ fs) result valid up (c, out, inside, rest) e =
    let same : some (record a { cursor = c }, some f) ≡ some (b, some frame) = sym out ∙ e in
    let is_frame : f ≡ frame = ground arith in
    let is_b : record a { cursor = c } ≡ b = ground arith in
    rw (← is_frame, ← is_b)
      (up.0, record { valid = valid; inside = inside; ascending = rw rest up.1 })

pub next_frame-IsAbove :
    (containing_address : ℕ → ℕ) (a b : MonotonicFrameAllocator) (lo frame : ℕ)
    → StartsFrame containing_address
    → IsAbove a lo
    → next_frame containing_address a ≡ some (b, some frame)
    → (lo ≤ frame) × IsAbove b (frame + 4096)
next_frame-IsAbove containing_address a b lo frame starts v e =
    handed_out a b lo frame _ (next_frame containing_address a) v.valid v.ascending
      (next_frame-HandsOut containing_address a starts v.valid v.inside) e

pub init-IsAbove :
    (memory_map : List MemoryRegion)
    → All IsRegion memory_map
    → Sorted 0 (usable_regions memory_map)
    → IsAbove (init memory_map) 0
init-IsAbove memory_map valid sorted = record {
  valid = valid;
  inside = omega arith;
  ascending = rw (frames_from_zero (usable_regions memory_map)) (
      Ascending-frames 0 (usable_regions memory_map) (All-usable_regions IsRegion memory_map valid)
        sorted);
}
