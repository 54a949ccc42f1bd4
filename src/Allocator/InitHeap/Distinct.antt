-- ===== src/Allocator/InitHeap/Distinct.antt =====
-- The frames behind the heap of src/allocator/mod.rs, when the frame allocator is that of
-- src/memory.rs or another that never goes back.
mod Tests
use apogee.Base.{
  ℕ, zero, suc, ◌+◌, ◌-◌, ◌*◌, ◌≤◌, ◌<◌, ◌≡◌, refl, ap, sym, ◌∙◌, inl, inr, List, [], ◌∷◌, Option,
  none, some, subst, Bool-cases, Option-cases, arith,
}
use apogee.Paging.{Mapped, Paging}
use apogee.Allocator.{heap_start}
use apogee.Allocator.InitHeap.{
  heap_flags, MapToError, pages_from, Memory, map_pages, heap_pages, init_allocator, init_heap,
}
use apogee.Allocator.InitHeap.Pages.{map_pages-Keeps, heap_pages_lem}

-- A frame allocator that hands out frames in ascending order, which `map_to` only draws on.
pub record Ascends (p : Paging) : Type 1 where
  -- Whatever is handed out from now on starts at `lo` or above.
  pub Above : p.Frames → ℕ → Type 0
  pub allocate_frame-Above :
      (frames after : p.Frames) (lo frame : ℕ)
      → Above frames lo
      → p.allocate_frame frames ≡ (after, some frame)
      → (lo ≤ frame) × Above after (frame + 4096)
  pub map_to-Above :
      (m : p.Mapper) (page frame flags parent_flags : ℕ) (frames : p.Frames) (lo : ℕ)
      → Above frames lo
      → Above (p.map_to m page frame flags parent_flags frames).frames lo

module _ (p : Paging) (w : Ascends p) where
  -- The frame of the first page is above those handed out before, and below what is left.
  record FirstPage (m u : Memory p) (page : ℕ) (pages : List ℕ) (lo : ℕ) : Type 0 where
    v : Memory p
    later : map_pages p v pages ≡ (u, none)
    frame : ℕ
    mapped : p.translate_page v.mapper page ≡ some frame
    above : lo ≤ frame
    rest : w.Above v.frames (frame + 4096)

  first_page :
      (m u : Memory p) (page : ℕ) (pages : List ℕ) (lo : ℕ)
      → w.Above m.frames lo
      → map_pages p m (page ∷ pages) ≡ (u, none)
      → FirstPage m u page pages lo
  unfolding map_pages
  first_page m u page pages lo a h =
      let frames : p.Frames = (p.allocate_frame m.frames).0 in
      elim (Option-cases (p.allocate_frame m.frames).1) [
        | inl exhausted ↦ absurd (ground arith)
        | inr (frame, got) ↦
            let mapped : Mapped p.Mapper p.Frames =
              p.map_to m.mapper page frame heap_flags heap_flags frames in
            let (above, rest) = w.allocate_frame-Above m.frames frames lo frame a (ground arith) in
            elim (Bool-cases mapped.done) [
              | inr refused ↦ absurd (ground arith)
              | inl done ↦ record {
                v = record m { mapper = mapped.mapper; frames = mapped.frames };
                later = rw (got, map_pages, done) at h;
                frame = frame;
                mapped =
                    p.translate_page-map_to m.mapper page frame heap_flags heap_flags frames done;
                above = above;
                rest =
                    w.map_to-Above m.mapper page frame heap_flags heap_flags frames (frame + 4096)
                      rest;
              }
            ]
      ]

  -- Each page has a frame, in the order of the pages and none overlapping the one before.
  abbrev pub InOrder : p.Mapper → ℕ → ℕ → ℕ → Type 0
  InOrder mapper lo page zero = Unit
  InOrder mapper lo page (suc n) =
      (frame : ℕ) × (p.translate_page mapper page ≡ some frame)
      × (lo ≤ frame)
      × InOrder mapper (frame + 4096) (page + 4096) n

  map_pages-InOrder :
      (m u : Memory p) (page n lo : ℕ)
      → w.Above m.frames lo
      → map_pages p m (pages_from page n) ≡ (u, none)
      → InOrder u.mapper lo page n
  map_pages-InOrder m u page zero lo a h = tt
  map_pages-InOrder m u page (suc n) lo a h =
      let f = first_page m u page (pages_from (page + 4096) n) lo a h in
      (
        f.frame,
        map_pages-Keeps p f.v u (pages_from (page + 4096) n) f.later page f.frame f.mapped,
        f.above,
        map_pages-InOrder f.v u (page + 4096) n (f.frame + 4096) f.rest f.later,
      )

  init_allocator-mapped :
      (o : Memory p × Option MapToError) (u : Memory p)
      → init_allocator p o ≡ (u, none)
      → (v : Memory p) × (o ≡ (v, none)) × (v.mapper ≡ u.mapper)
  unfolding init_allocator
  init_allocator-mapped (v, some e) u h = absurd (ground arith)
  init_allocator-mapped (v, none) u h =
      (v, refl, ap (λ (r : Memory p × Option MapToError). r.0.mapper) h)

  -- When `init_heap` succeeds with frames from `lo` on, the 25 pages of the heap are mapped to
  -- frames from `lo` on, in the order of the pages, of which no two overlap: if the frame allocator
  -- hands out frames in ascending order and mapping a page only draws on it.
  pub init_heap-InOrder :
      (m u : Memory p) (lo : ℕ)
      → w.Above m.frames lo
      → init_heap p m ≡ (u, none)
      → InOrder u.mapper lo heap_start 25
  unfolding init_heap
  init_heap-InOrder m u lo a h =
      let (v, done, same) = init_allocator-mapped (map_pages p m (heap_pages p)) u h in
      let whole : map_pages p m (pages_from heap_start 25) ≡ (v, none) =
        subst (λ pages. map_pages p m pages ≡ (v, none)) (heap_pages_lem p) done in
      subst (λ mapper. InOrder mapper lo heap_start 25) same
        (map_pages-InOrder m v heap_start 25 lo a whole)
