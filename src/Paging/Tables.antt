-- ===== src/Paging/Tables.antt =====
-- Page tables as src/userland.rs and src/allocator/mod.rs rely on them, for the tests: a map from
-- pages to frames.
use apogee.Base.{ℕ, ◌+◌, ◌*◌, ◌/◌, ◌≡◌, ◌≢◌, refl, List, Option, none, some, true, false, arith}
use apogee.Base.Maps.{lookup, insert, lookup-insert}
use apogee.Paging.{Mapped, Paging}

abbrev pub Tables : Type 0
Tables = List (ℕ × ℕ)

module _ {Frames : Type 0} where
  abbrev pub map_new : Tables → ℕ → ℕ → Frames → Option ℕ → Mapped Tables Frames
  map_new m page frame frames none = record {
    mapper = insert page frame m;
    frames = frames;
    done = true;
  }
  map_new m page frame frames (some old) = record { mapper = m; frames = frames; done = false }

  abbrev pub map_to : Tables → ℕ → ℕ → Frames → Mapped Tables Frames
  map_to m page frame frames = map_new m page frame frames (lookup page m)

  module _ (m : Tables) (page frame : ℕ) (frames : Frames) where
    pub map_to-mapped : lookup page m ≢ none → (map_to m page frame frames).done ≡ false
    map_to-mapped h = ground arith

    pub lookup-map_to :
        (map_to m page frame frames).done ≡ true
        → lookup page (map_to m page frame frames).mapper ≡ some frame
    lookup-map_to h = ground (arith, lookup-insert page page frame m)

    pub map_to_other :
        (other : ℕ)
        → other ≢ page
        → lookup other (map_to m page frame frames).mapper ≡ lookup other m
    map_to_other other h = ground (arith, lookup-insert page other frame m)

    pub map_to_failed :
        (map_to m page frame frames).done ≡ false
        → lookup page (map_to m page frame frames).mapper ≡ lookup page m
    map_to_failed h = ground arith

abbrev pub paging : Paging
paging = record {
  Mapper = Tables;
  Frames = ℕ;
  allocate_frame = λ next. (next + 4096, some next);
  map_to = λ m page frame flags parent_flags frames. map_to m page frame frames;
  translate_page = λ m page. lookup page m;
  containing_address = λ a. a / 4096 * 4096;
  map_to-mapped = λ m page frame flags parent_flags frames. map_to-mapped m page frame frames;
  translate_page-map_to =
      λ m page frame flags parent_flags frames. lookup-map_to m page frame frames;
  map_to_other = λ m page frame flags parent_flags frames. map_to_other m page frame frames;
  map_to_failed = λ m page frame flags parent_flags frames. map_to_failed m page frame frames;
  containing_address_lem = λ a. refl;
}
