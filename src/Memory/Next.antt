-- ===== src/Memory/Next.antt =====
-- `next_frame` of src/memory.rs walks the flattened sequence of usable frames.
use apogee.Base.{
  ℕ, zero, suc, ◌+◌, ◌*◌, ◌%◌, ◌^◌, ◌≤◌, ◌<◌, ◌≡◌, refl, ap, inl, inr, List, [], ◌∷◌, Option, none,
  some, ltb, get_elem?, length, add64, All, Option-cases, Bool-cases, arith,
}
use apogee.Memory.{
  MemoryRegion, FrameCursor, MonotonicFrameAllocator, select, frame_count, Search, found, exhausted,
  search, next_frame, init,
}
use apogee.Memory.Frames.{
  usable_regions, frames, frames_from, IsRegion, frame_count-eq, select-get_elem?,
  length-usable_regions, All-usable_regions, frames_from_zero, frames_from_end, frames_from_here,
  frames_from_next,
}

-- `PhysFrame::containing_address` of an address on a frame boundary is the frame there.
abbrev pub StartsFrame : (ℕ → ℕ) → Type 0
StartsFrame containing_address = (a : ℕ) → a % 4096 ≡ 0 → containing_address a ≡ a

-- The first of the frames is found and the others remain, or there is none.
abbrev IsNext : List MemoryRegion → List ℕ → Search → Type 0
IsNext us [] s = s ≡ exhausted
IsNext us (f ∷ fs) s =
    (c : FrameCursor) × (s ≡ found f c)
    × (c.region ≤ length us)
    × (frames_from us c.region c.offset ≡ fs)

get_elem?-All :
    (us : List MemoryRegion) (k : ℕ) (r : MemoryRegion)
    → All IsRegion us
    → get_elem? us k ≡ some r
    → IsRegion r
get_elem?-All [] k r a e = absurd (ground arith)
get_elem?-All (u ∷ us) zero r a e = ground (arith, a.0)
get_elem?-All (u ∷ us) (suc k) r a e = get_elem?-All us k r a.1 e

get_elem?-end : (us : List MemoryRegion) (k : ℕ) → length us ≤ k → get_elem? us k ≡ none
get_elem?-end [] k h = refl
get_elem?-end (u ∷ us) zero h = absurd (omega arith)
get_elem?-end (u ∷ us) (suc k) h = get_elem?-end us k (omega arith)

module _ (containing_address : ℕ → ℕ) (starts : StartsFrame containing_address)
    (rs : List MemoryRegion) (valid : All IsRegion rs) where
  abbrev us : List MemoryRegion
  us = usable_regions rs

  frame_at :
      (r : MemoryRegion) (o : ℕ)
      → IsRegion r
      → o < frame_count r
      → containing_address (add64 r.start_addr (o * 4096)) ≡ r.start_addr + o * 4096
  unfolding add64
  frame_at r o v h =
      let exact : (r.start_addr + o * 4096) % 2 ^ 64 ≡ r.start_addr + o * 4096 =
        omega (arith, v.start_aligned, v.ordered, v.bounded, frame_count-eq r v) in
      rw exact (starts (r.start_addr + o * 4096) (omega (arith, v.start_aligned)))

  selected : (k : ℕ) → select k 0 rs ≡ get_elem? us k
  selected k = let shift : 0 + k ≡ k = omega arith in rw shift at (select-get_elem? k 0 rs)

  get_elem?-lt : (k : ℕ) (r : MemoryRegion) → get_elem? us k ≡ some r → k < length us
  get_elem?-lt k r e = ground (arith, get_elem?-end us k)

  search-IsNext :
      (fuel k o : ℕ)
      → k ≤ length us
      → length us < fuel + k
      → IsNext us (frames_from us k o) (search containing_address rs fuel k o)
  unfolding search
  search-IsNext zero k o b h = absurd (omega arith)
  search-IsNext (suc fuel) k o b h = elim (Option-cases (get_elem? us k)) [
    | inl over ↦ rw (selected k, over, search, frames_from_end us k o over) refl
    | inr (r, here) ↦ elim (Bool-cases (ltb o (frame_count r))) [
      | inl more ↦
          rw (selected k, here, search, more, frames_from_here us k o r here (ground arith))
            (
              record { region = k; offset = o + 1 },
              rw
                  (frame_at r o (get_elem?-All us k r (All-usable_regions IsRegion rs valid) here)
                    (ground arith))
                  refl,
              b,
              refl,
            )
      | inr over ↦
          rw (selected k, here, search, over, frames_from_next us k o r here (ground arith))
            (search-IsNext fuel (suc k) 0 (get_elem?-lt k r here) (omega arith))
    ]
  ]

-- The result of a call, given the frames from the cursor on.
abbrev pub HandsOut :
    MonotonicFrameAllocator → List ℕ → Option (MonotonicFrameAllocator × Option ℕ) → Type 0
HandsOut a [] result = result ≡ some (a, none)
HandsOut a (f ∷ fs) result =
    (c : FrameCursor) × (result ≡ some (record a { cursor = c }, some f))
    × (c.region ≤ length (usable_regions a.memory_map))
    × (frames_from (usable_regions a.memory_map) c.region c.offset ≡ fs)

-- `next_frame` always returns. It hands out the first frame of those from the cursor on and leaves
-- the cursor at the next one, or gives nothing and changes nothing when there is none. The regions
-- start on frame boundaries, and the cursor is not beyond the last one.
pub next_frame-HandsOut :
    (containing_address : ℕ → ℕ) (a : MonotonicFrameAllocator)
    → StartsFrame containing_address
    → All IsRegion a.memory_map
    → a.cursor.region ≤ length (usable_regions a.memory_map)
    → HandsOut a
        (frames_from (usable_regions a.memory_map) a.cursor.region a.cursor.offset)
        (next_frame containing_address a)
unfolding next_frame
next_frame-HandsOut containing_address a starts valid inside =
    let fuel = suc (length a.memory_map) in
    go (frames_from (usable_regions a.memory_map) a.cursor.region a.cursor.offset) (
      search-IsNext containing_address starts a.memory_map valid fuel a.cursor.region
        a.cursor.offset inside (omega (arith, length-usable_regions a.memory_map)))
  where
    go :
        (fs : List ℕ)
        → IsNext (usable_regions a.memory_map) fs (
            search containing_address a.memory_map
              (suc (length a.memory_map))
              a.cursor.region
              a.cursor.offset)
        → HandsOut a fs (next_frame containing_address a)
    go [] e = rw (e, next_frame) refl
    go (f ∷ fs) (c, e, inside, rest) = (c, rw (e, next_frame) refl, inside, rest)

-- The frames of `n` calls one after the other.
unfoldable pub take_frames : (ℕ → ℕ) → ℕ → MonotonicFrameAllocator → List (Option ℕ)
take_frames containing_address zero a = []
take_frames containing_address (suc n) a = elim (next_frame containing_address a) [
  | none ↦ []
  | some (b, frame) ↦ frame ∷ take_frames containing_address n b
]

-- The first `n` of a list, and nothing where it has no more.
abbrev pub firsts : ℕ → List ℕ → List (Option ℕ)
firsts zero fs = []
firsts (suc n) [] = none ∷ firsts n []
firsts (suc n) (f ∷ fs) = some f ∷ firsts n fs

module _ (containing_address : ℕ → ℕ) (starts : StartsFrame containing_address) where
  take_frames_from :
      (n : ℕ) (a : MonotonicFrameAllocator) (fs : List ℕ)
      → All IsRegion a.memory_map
      → a.cursor.region ≤ length (usable_regions a.memory_map)
      → frames_from (usable_regions a.memory_map) a.cursor.region a.cursor.offset ≡ fs
      → take_frames containing_address n a ≡ firsts n fs
  unfolding take_frames
  take_frames_from zero a fs valid inside e = refl
  take_frames_from (suc n) a [] valid inside e =
      let out : next_frame containing_address a ≡ some (a, none) =
        rw e at (next_frame-HandsOut containing_address a starts valid inside) in
      rw (out, take_frames) (ap (◌∷◌ none) (take_frames_from n a [] valid inside e))
  take_frames_from (suc n) a (f ∷ fs) valid inside e =
      let (c, out, within, rest) : HandsOut a (f ∷ fs) (next_frame containing_address a) =
        rw e at (next_frame-HandsOut containing_address a starts valid inside) in
      rw (out, take_frames)
        (ap (◌∷◌ (some f)) (take_frames_from n (record a { cursor = c }) fs valid within rest))

-- Any number of calls from the start hands out the usable frames of the memory map in its order,
-- each once, and then nothing, when the regions start on frame boundaries.
pub take_frames-firsts :
    (containing_address : ℕ → ℕ) (n : ℕ) (memory_map : List MemoryRegion)
    → StartsFrame containing_address
    → All IsRegion memory_map
    → take_frames containing_address n (init memory_map)
      ≡ firsts n (frames (usable_regions memory_map))
take_frames-firsts containing_address n memory_map starts valid =
    take_frames_from containing_address starts n (init memory_map) _ valid (omega arith)
      (frames_from_zero (usable_regions memory_map))
