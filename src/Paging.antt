-- ===== src/Paging.antt =====
-- The page tables and the frame allocator behind its trait that src/allocator/mod.rs and
-- src/userland.rs are given, as an interface: both are the x86_64 crate's.
pub mod Tables
pub mod Monotonic
use apogee.Base.{ℕ, ◌*◌, ◌/◌, ◌≡◌, ◌≢◌, Bool, true, false, Option, none, some}

-- What `map_to_with_table_flags` leaves: tables and frames may be used up when it fails, too.
pub record Mapped (Mapper Frames : Type 0) : Type 0 where
  pub mapper : Mapper
  pub frames : Frames
  pub done : Bool

-- The page tables, with what their documentation says of them. A page is the address at which it
-- starts, and so is a frame.
pub record Paging : Type 1 where
  pub Mapper : Type 0
  pub Frames : Type 0
  pub allocate_frame : Frames → Frames × Option ℕ
  -- The page, the frame, the flags of the page and those of its tables.
  pub map_to : Mapper → ℕ → ℕ → ℕ → ℕ → Frames → Mapped Mapper Frames
  pub translate_page : Mapper → ℕ → Option ℕ
  pub containing_address : ℕ → ℕ
  -- A page that is mapped is not mapped again.
  pub map_to-mapped :
      (m : Mapper) (page frame flags parent_flags : ℕ) (frames : Frames)
      → translate_page m page ≢ none
      → (map_to m page frame flags parent_flags frames).done ≡ false
  pub translate_page-map_to :
      (m : Mapper) (page frame flags parent_flags : ℕ) (frames : Frames)
      → (map_to m page frame flags parent_flags frames).done ≡ true
      → translate_page (map_to m page frame flags parent_flags frames).mapper page ≡ some frame
  -- No other page changes, and none does when the call fails.
  pub map_to_other :
      (m : Mapper) (page frame flags parent_flags : ℕ) (frames : Frames) (other : ℕ)
      → other ≢ page
      → translate_page (map_to m page frame flags parent_flags frames).mapper other
        ≡ translate_page m other
  pub map_to_failed :
      (m : Mapper) (page frame flags parent_flags : ℕ) (frames : Frames)
      → (map_to m page frame flags parent_flags frames).done ≡ false
      → translate_page (map_to m page frame flags parent_flags frames).mapper page
        ≡ translate_page m page
  pub containing_address_lem : (a : ℕ) → containing_address a ≡ a / 4096 * 4096
