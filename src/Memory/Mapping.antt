-- ===== src/Memory/Mapping.antt =====
-- `create_example_mapping` of src/memory.rs, over the page tables of Paging.antt.
use apogee.Base.{ℕ, ◌≡◌, ◌≢◌, inl, inr, true, false, Option, none, some, Bool-cases}
use apogee.Paging.{Paging}

abbrev pub example_address : ℕ
example_address = 0xb8000

-- `PRESENT | WRITABLE`; `map_to` gives the tables on the way the same.
abbrev pub example_flags : ℕ
example_flags = 3

module _ (p : Paging) where
  -- No result is the panic of `expect`.
  unfoldable pub create_example_mapping : ℕ → p.Mapper → p.Frames → Option (p.Mapper × p.Frames)
  create_example_mapping page mapper frames =
      let frame = p.containing_address example_address in
      let m = p.map_to mapper page frame example_flags example_flags frames in
      elim m.done [ true ↦ some (m.mapper, m.frames) | false ↦ none ]

  -- The page is mapped to the frame, and every other page is as it was.
  abbrev pub MapsExample : ℕ → p.Mapper → Option (p.Mapper × p.Frames) → Type 0
  MapsExample page mapper none = Unit
  MapsExample page mapper (some (after, frames)) =
      (p.translate_page after page ≡ some (p.containing_address example_address))
      × ((other : ℕ) → other ≢ page → p.translate_page after other ≡ p.translate_page mapper other)

  pub create_example_mapping-MapsExample :
      (page : ℕ) (mapper : p.Mapper) (frames : p.Frames)
      → MapsExample page mapper (create_example_mapping page mapper frames)
  unfolding create_example_mapping
  create_example_mapping-MapsExample page mapper frames =
      let frame = p.containing_address example_address in
      let m = p.map_to mapper page frame example_flags example_flags frames in
      elim (Bool-cases m.done) [
        | inr refused ↦ rw (refused, create_example_mapping) tt
        | inl done ↦
            rw (done, create_example_mapping)
              (
                p.translate_page-map_to mapper page frame example_flags example_flags frames done,
                p.map_to_other mapper page frame example_flags example_flags frames,
              )
      ]
