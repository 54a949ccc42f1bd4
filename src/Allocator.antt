-- ===== src/Allocator.antt =====
-- src/allocator/mod.rs: the heap's place, the heap accounting record and `align_up`.
-- `Layout` is `core::alloc::Layout`, a size and an alignment.
pub mod Align
pub mod LinkedList
pub mod Bump
pub mod FixedSizeBlock
pub mod InitHeap
use apogee.Base.{ℕ, ◌+◌, ◌-◌, ◌*◌, bit_and, add64, sub64, not64}

-- `core::alloc::Layout`
pub record Layout : Type 0 where
  pub size : ℕ
  pub align : ℕ

abbrev pub heap_start : ℕ
heap_start = 0x4444_4444_0000

abbrev pub heap_size : ℕ
heap_size = 100 * 1024

-- `HeapStats`
pub record HeapStats : Type 0 where
  pub heap_size : ℕ
  pub free_bytes : ℕ

-- `(addr + align - 1) & !(align - 1)`
unfoldable pub align_up : ℕ → ℕ → ℕ
unfolding add64 sub64 not64
align_up addr align = bit_and (sub64 (add64 addr align) 1) (not64 (sub64 align 1))
