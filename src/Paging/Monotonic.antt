-- ===== src/Paging/Monotonic.antt =====
-- The page tables of Paging/Tables over the frame allocator of src/memory.rs, for the tests.
use apogee.Base.{
  ℕ, ◌+◌, ◌*◌, ◌/◌, ◌≤◌, ◌≡◌, refl, inl, inr, none, some, Option, Option-cases, arith,
}
use apogee.Base.Maps.{lookup}
use apogee.Memory.{MonotonicFrameAllocator, next_frame}
use apogee.Memory.Source.{IsAbove, next_frame-IsAbove}
use apogee.Paging.{Paging}
use apogee.Paging.Tables.{Tables, map_to, map_to-mapped, lookup-map_to, map_to_other, map_to_failed}
use apogee.Allocator.InitHeap.Distinct.{Ascends}

abbrev pub frame_of : ℕ → ℕ
frame_of a = a / 4096 * 4096

unfoldable pub allocate_frame : MonotonicFrameAllocator → MonotonicFrameAllocator × Option ℕ
allocate_frame a = elim (next_frame frame_of a) [ none ↦ (a, none) | some r ↦ r ]

abbrev pub monotonic : Paging
monotonic = record {
  Mapper = Tables;
  Frames = MonotonicFrameAllocator;
  allocate_frame = allocate_frame;
  map_to = λ m page frame flags parent_flags frames. map_to m page frame frames;
  translate_page = λ m page. lookup page m;
  containing_address = frame_of;
  map_to-mapped = λ m page frame flags parent_flags frames. map_to-mapped m page frame frames;
  translate_page-map_to =
      λ m page frame flags parent_flags frames. lookup-map_to m page frame frames;
  map_to_other = λ m page frame flags parent_flags frames. map_to_other m page frame frames;
  map_to_failed = λ m page frame flags parent_flags frames. map_to_failed m page frame frames;
  containing_address_lem = λ a. refl;
}

pub allocate_frame-IsAbove :
    (a b : MonotonicFrameAllocator) (lo frame : ℕ)
    → IsAbove a lo
    → allocate_frame a ≡ (b, some frame)
    → (lo ≤ frame) × IsAbove b (frame + 4096)
unfolding allocate_frame
allocate_frame-IsAbove a b lo frame v e = elim (Option-cases (next_frame frame_of a)) [
  | inl stuck ↦ absurd (ground arith)
  | inr (r, out) ↦ next_frame-IsAbove frame_of a b lo frame (λ x h. omega arith) v (ground arith)
]

pub map_to-frames :
    (m : Tables) (page frame : ℕ) (frames : MonotonicFrameAllocator)
    → (map_to m page frame frames).frames ≡ frames
map_to-frames m page frame frames = elim (Option-cases (lookup page m)) [
  | inl free ↦ rw free refl
  | inr (old, taken) ↦ rw taken refl
]

abbrev pub monotonic-Ascends : Ascends monotonic
monotonic-Ascends = record {
  Above = IsAbove;
  allocate_frame-Above = allocate_frame-IsAbove;
  map_to-Above = λ m page frame flags parent_flags frames lo above.
      rw (map_to-frames m page frame frames) above;
}
