-- ===== src/Allocator/InitHeap/Pages.antt =====
-- What `init_heap` of src/allocator/mod.rs leaves when it succeeds.
use apogee.Base.{
  ℕ, zero, suc, ◌+◌, ◌-◌, ◌*◌, ◌/◌, ◌≤◌, ◌<◌, ◌≡◌, refl, sym, ap, ◌∙◌, inl, inr, List, [], ◌∷◌,
  Option, none, some, ◌==◌, ==_iff, Bool-cases, Option-cases, subst, arith,
}
use apogee.Paging.{Mapped, Paging}
use apogee.Allocator.{heap_start, heap_size}
use apogee.Allocator.FixedSizeBlock.{FixedSizeBlockAllocator, init}
use apogee.Allocator.InitHeap.{
  heap_flags, MapToError, pages_from, Memory, map_pages, heap_pages, init_allocator, init_heap,
}

module _ (p : Paging) where
  -- What was mapped still is.
  abbrev pub Keeps : Memory p → Memory p → Type 0
  Keeps m v =
      (x g : ℕ) → p.translate_page m.mapper x ≡ some g → p.translate_page v.mapper x ≡ some g

  record Turn (m u : Memory p) (page : ℕ) (pages : List ℕ) : Type 0 where
    v : Memory p
    later : map_pages p v pages ≡ (u, none)
    frame : ℕ
    mapped : p.translate_page v.mapper page ≡ some frame
    keeps : Keeps m v

  turn :
      (m u : Memory p) (page : ℕ) (pages : List ℕ)
      → map_pages p m (page ∷ pages) ≡ (u, none)
      → Turn m u page pages
  unfolding map_pages
  turn m u page pages h =
      let frames : p.Frames = (p.allocate_frame m.frames).0 in
      elim (Option-cases (p.allocate_frame m.frames).1) [
        | inl exhausted ↦ absurd (ground arith)
        | inr (frame, got) ↦
            let mapped : Mapped p.Mapper p.Frames =
              p.map_to m.mapper page frame heap_flags heap_flags frames in
            elim (Bool-cases mapped.done) [
              | inr refused ↦ absurd (ground arith)
              | inl done ↦ record {
                v = record m { mapper = mapped.mapper; frames = mapped.frames };
                later = rw (got, map_pages, done) at h;
                frame = frame;
                mapped =
                    p.translate_page-map_to m.mapper page frame heap_flags heap_flags frames done;
                keeps = λ x g there. elim (Bool-cases (x == page)) [
                  | inl same ↦
                      let taken : p.translate_page m.mapper page ≡ some g =
                        subst (λ (y : ℕ). p.translate_page m.mapper y ≡ some g)
                          ((==_iff x page).0 same) there in
                      absurd (
                        ground (
                          arith,
                          p.map_to-mapped m.mapper page frame heap_flags heap_flags frames
                              (λ e. absurd (ground arith)),
                        ))
                  | inr apart ↦
                      p.map_to_other m.mapper page frame heap_flags heap_flags frames x
                        (λ e. absurd (ground arith))
                      ∙ there
                ];
              }
            ]
      ]

  pub map_pages-Keeps :
      (m u : Memory p) (pages : List ℕ) → map_pages p m pages ≡ (u, none) → Keeps m u
  unfolding map_pages
  map_pages-Keeps m u [] h x g there = let same : m ≡ u = ground arith in rw (← same) there
  map_pages-Keeps m u (page ∷ pages) h x g there =
      let t = turn m u page pages h in map_pages-Keeps t.v u pages t.later x g (t.keeps x g there)

  map_pages-mapped :
      (m u : Memory p) (page n k : ℕ)
      → map_pages p m (pages_from page n) ≡ (u, none)
      → k < n
      → (frame : ℕ) × (p.translate_page u.mapper (page + k * 4096) ≡ some frame)
  map_pages-mapped m u page zero k h less = absurd (omega arith)
  map_pages-mapped m u page (suc n) zero h less =
      let t = turn m u page (pages_from (page + 4096) n) h in
      (
        t.frame,
        subst (λ (x : ℕ). p.translate_page u.mapper x ≡ some t.frame) (omega arith)
            (map_pages-Keeps t.v u (pages_from (page + 4096) n) t.later page t.frame t.mapped),
      )
  map_pages-mapped m u page (suc n) (suc k) h less =
      let t = turn m u page (pages_from (page + 4096) n) h in
      let (frame, there) = map_pages-mapped t.v u (page + 4096) n k t.later (omega arith) in
      (frame, subst (λ (x : ℕ). p.translate_page u.mapper x ≡ some frame) (omega arith) there)

  heap_place : p.containing_address heap_start ≡ heap_start
  heap_place = p.containing_address_lem heap_start ∙ refl

  heap_last : p.containing_address (heap_start + heap_size - 1) ≡ heap_start + 24 * 4096
  heap_last = p.containing_address_lem (heap_start + heap_size - 1) ∙ refl

  pub heap_pages_lem : heap_pages p ≡ pages_from heap_start 25
  heap_pages_lem = rw (heap_place, heap_last) refl

  map_pages-allocator :
      (m : Memory p) (pages : List ℕ) → (map_pages p m pages).0.allocator ≡ m.allocator
  unfolding map_pages
  map_pages-allocator m [] = refl
  map_pages-allocator m (page ∷ pages) = elim (Option-cases (p.allocate_frame m.frames).1) [
    | inl exhausted ↦ rw (exhausted, map_pages) refl
    | inr (frame, got) ↦
        let mapped : Mapped p.Mapper p.Frames =
          p.map_to m.mapper page frame heap_flags heap_flags (p.allocate_frame m.frames).0 in
        elim (Bool-cases mapped.done) [
          | inr refused ↦ rw (got, map_pages, refused) refl
          | inl done ↦
              rw (got, map_pages, done)
                (map_pages-allocator (record m { mapper = mapped.mapper; frames = mapped.frames })
                  pages)
        ]
  ]

  abbrev pub IsMapped : Memory p → ℕ → Type 0
  IsMapped u a = (frame : ℕ) × (p.translate_page u.mapper (a / 4096 * 4096) ≡ some frame)

  abbrev pub HeapOutcome : Memory p → Memory p × Option MapToError → Type 0
  HeapOutcome m (u, none) =
      (u.allocator ≡ init m.allocator heap_start heap_size)
      × ((a : ℕ) → heap_start ≤ a → a < heap_start + heap_size → IsMapped u a)
  HeapOutcome m (u, some e) = u.allocator ≡ m.allocator

  init_allocator-HeapOutcome :
      (m : Memory p) (o : Memory p × Option MapToError)
      → map_pages p m (heap_pages p) ≡ o
      → HeapOutcome m (init_allocator p o)
  unfolding init_allocator
  init_allocator-HeapOutcome m (u, some e) h =
      ap (λ (r : Memory p × Option MapToError). r.0.allocator) (sym h)
      ∙ map_pages-allocator m (heap_pages p)
  init_allocator-HeapOutcome m (u, none) h =
      let same : u.allocator ≡ m.allocator =
        ap (λ (r : Memory p × Option MapToError). r.0.allocator) (sym h)
        ∙ map_pages-allocator m (heap_pages p) in
      (
        ap (λ (x : FixedSizeBlockAllocator). init x heap_start heap_size) same,
        λ a low high.
            let (frame, there) =
              map_pages-mapped m u heap_start 25 (a / 4096 - heap_start / 4096)
                (rw heap_pages_lem at h) (omega arith) in
            (
              frame,
              subst (λ (x : ℕ). p.translate_page u.mapper x ≡ some frame) (omega arith) there,
            ),
      )

  -- `init_heap` succeeds or not. If it does, the page of every address of the heap's range is mapped
  -- and the allocator was given that range; if it does not, the allocator is as it was.
  pub init_heap-HeapOutcome : (m : Memory p) → HeapOutcome m (init_heap p m)
  unfolding init_heap
  init_heap-HeapOutcome m = init_allocator-HeapOutcome m (map_pages p m (heap_pages p)) refl

  init_allocator-Keeps :
      (m u : Memory p) (o : Memory p × Option MapToError)
      → map_pages p m (heap_pages p) ≡ o
      → init_allocator p o ≡ (u, none)
      → Keeps m u
  unfolding init_allocator
  init_allocator-Keeps m u (w, some e) h done x g there = absurd (ground arith)
  init_allocator-Keeps m u (w, none) h done x g there =
      let same : w.mapper ≡ u.mapper = ap (λ (r : Memory p × Option MapToError). r.0.mapper) done in
      rw (← same) (map_pages-Keeps m w (heap_pages p) h x g there)

  -- When `init_heap` succeeds, what was mapped still is.
  pub init_heap-Keeps : (m u : Memory p) → init_heap p m ≡ (u, none) → Keeps m u
  unfolding init_heap
  init_heap-Keeps m u done = init_allocator-Keeps m u (map_pages p m (heap_pages p)) refl done
