-- ===== src/Allocator/LinkedList/Client/Tests.antt =====
-- Two ways to free the same bytes of a heap of src/allocator/linkedlist.rs.
use apogee.Base.{ℕ, ◌+◌, ◌%◌, ◌≤◌, ◌<◌, ◌≡◌, refl, inl, [], ◌∷◌, add64, sub64, not64, arith}
use apogee.Allocator.{Layout, align_up}
use apogee.Allocator.Align.{IsLayout}
use apogee.Allocator.LinkedList.{LinkedListAllocator, allocation_size, empty, init}
use apogee.Allocator.LinkedList.Insert.{IsWellFormed, IsSpare}
use apogee.Allocator.LinkedList.Client.{Block, extent, Held}
use apogee.Allocator.LinkedList.Client.Freed.{dealloc_all, dealloc_all_unique, dealloc_all-init}

-- A heap of 256 bytes at 0x1000 whose first 96 bytes are taken.
abbrev taken : LinkedListAllocator
taken = record {
  head = record { start_addr = 0x1060; size = 0xa0 } ∷ [];
  heap_start = 0x1000;
  heap_end = 0x1100;
}

abbrev bytes : ℕ → Layout
bytes n = record { size = n; align = 8 }

abbrev low : Block
low = record { ptr = 0x1000; layout = bytes 32 }

abbrev high : Block
high = record { ptr = 0x1020; layout = bytes 64 }

abbrev both : Block
both = record { ptr = 0x1000; layout = bytes 96 }

bytes-IsLayout : (n : ℕ) → 0 < n → n < 1000 → IsLayout (bytes n)
bytes-IsLayout n h l = record {
  exponent = 3;
  align_pow = refl;
  exponent_le = omega arith;
  size_pos = h;
  size_lt = omega arith;
}

taken-IsWellFormed : IsWellFormed taken
taken-IsWellFormed = record { bounded = omega arith; ordered = omega arith; chain = ground arith }

low-extent : extent low ≡ 32
unfolding allocation_size align_up add64 sub64 not64
low-extent = refl

high-extent : extent high ≡ 64
unfolding allocation_size align_up add64 sub64 not64
high-extent = refl

both-extent : extent both ≡ 96
unfolding allocation_size align_up add64 sub64 not64
both-extent = refl

spare : (p n : ℕ) → p % 8 ≡ 0 → 16 ≤ n → 0x1000 ≤ p → p + n ≤ 0x1060 → IsSpare taken p n
spare p n e h l u = record {
  aligned = e;
  holds_node = omega arith;
  above = omega arith;
  below = omega arith;
  apart = ground arith;
}

low_high-Held : Held taken (low ∷ high ∷ [])
low_high-Held =
    rw (low-extent, high-extent)
      (
        bytes-IsLayout 32 (omega arith) (omega arith),
        spare 0x1000 32 refl (omega arith) (omega arith) (omega arith),
        (inl (omega arith), tt),
        (
          bytes-IsLayout 64 (omega arith) (omega arith),
          spare 0x1020 64 refl (omega arith) (omega arith) (omega arith),
          tt,
          tt,
        ),
      )

both-Held : Held taken (both ∷ [])
both-Held = rw both-extent (
  bytes-IsLayout 96 (omega arith) (omega arith),
  spare 0x1000 96 refl (omega arith) (omega arith) (omega arith),
  tt,
  tt,
)

dealloc_all_unique_example : dealloc_all taken (low ∷ high ∷ []) ≡ dealloc_all taken (both ∷ [])
dealloc_all_unique_example =
    dealloc_all_unique taken taken-IsWellFormed (low ∷ high ∷ []) (both ∷ []) low_high-Held
      both-Held (λ x. rw (low-extent, high-extent, both-extent) (ground arith))

start_lem : align_up 0x1000 8 ≡ 0x1000
unfolding align_up add64 sub64 not64
start_lem = refl

dealloc_all-init_example : dealloc_all taken (low ∷ high ∷ []) ≡ init empty 0x1000 0x100
dealloc_all-init_example =
    dealloc_all-init taken taken-IsWellFormed (low ∷ high ∷ []) empty 0x1000 0x100 low_high-Held
      refl refl (rw start_lem (omega arith))
      (λ x. rw (start_lem, low-extent, high-extent) (ground arith))
