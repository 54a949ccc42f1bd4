-- ===== src/Memory/Ascending.antt =====
-- The order in which `next_frame` of src/memory.rs hands out frames.
use apogee.Base.{ℕ, zero, suc, ◌+◌, ◌*◌, ◌≤◌, ◌≡◌, List, [], ◌∷◌, ◌++◌, All, arith}
use apogee.Memory.{MemoryRegion, frame_count, init}
use apogee.Memory.Frames.{
  region_frames, usable_regions, frames, IsRegion, frame_count-eq, All-usable_regions,
}
use apogee.Memory.Next.{StartsFrame, take_frames, firsts, take_frames-firsts}

-- Whole frames from `lo` on, each above the one before and apart from it.
abbrev pub Ascending : ℕ → List ℕ → Type 0
Ascending lo [] = Unit
Ascending lo (f ∷ fs) = (lo ≤ f) × Ascending (f + 4096) fs

-- Regions from `lo` on, each above the one before and apart from it.
abbrev pub Sorted : ℕ → List MemoryRegion → Type 0
Sorted lo [] = Unit
Sorted lo (r ∷ rs) = (lo ≤ r.start_addr) × Sorted r.end_addr rs

Ascending-mono : (lo lo' : ℕ) (fs : List ℕ) → lo' ≤ lo → Ascending lo fs → Ascending lo' fs
Ascending-mono lo lo' [] h a = tt
Ascending-mono lo lo' (f ∷ fs) h a = (omega arith, a.1)

Ascending-region_frames :
    (start end left offset : ℕ) (fs : List ℕ)
    → start + (offset + left) * 4096 ≤ end
    → Ascending end fs
    → Ascending (start + offset * 4096) (region_frames start offset left ++ fs)
Ascending-region_frames start end zero offset fs h a =
    Ascending-mono end (start + offset * 4096) fs (omega arith) a
Ascending-region_frames start end (suc left) offset fs h a = (
  omega arith,
  Ascending-mono (start + suc offset * 4096) (start + offset * 4096 + 4096)
      (region_frames start (suc offset) left ++ fs) (omega arith)
      (Ascending-region_frames start end left (suc offset) fs (omega arith) a),
)

pub Ascending-frames :
    (lo : ℕ) (us : List MemoryRegion) → All IsRegion us → Sorted lo us → Ascending lo (frames us)
Ascending-frames lo [] v s = tt
Ascending-frames lo (u ∷ us) (v, vs) s =
    let inside : u.start_addr + (0 + frame_count u) * 4096 ≤ u.end_addr =
      omega (arith, v.ordered, frame_count-eq u v) in
    Ascending-mono (u.start_addr + 0 * 4096) lo _ (omega arith) (
      Ascending-region_frames u.start_addr u.end_addr (frame_count u) 0 (frames us) inside
        (Ascending-frames u.end_addr us vs s.1))

-- When the usable regions are in address order, do not overlap and start on frame boundaries, any number of calls from the
-- start hands out frames in ascending address order, no two of which overlap, and then nothing.
pub take_frames-Ascending :
    (containing_address : ℕ → ℕ) (n : ℕ) (memory_map : List MemoryRegion)
    → StartsFrame containing_address
    → All IsRegion memory_map
    → Sorted 0 (usable_regions memory_map)
    → (fs : List ℕ) × (take_frames containing_address n (init memory_map) ≡ firsts n fs)
      × Ascending 0 fs
take_frames-Ascending containing_address n memory_map starts valid sorted = (
  frames (usable_regions memory_map),
  take_frames-firsts containing_address n memory_map starts valid,
  Ascending-frames 0 (usable_regions memory_map) (All-usable_regions IsRegion memory_map valid)
      sorted,
)
