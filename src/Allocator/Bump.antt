-- ===== src/Allocator/Bump.antt =====
-- src/allocator/bump.rs: the bump allocator. A pointer is its address; null is 0. `dealloc` does
-- nothing.
pub mod Monotone
use apogee.Base.{
  ℕ, Option, none, some, ltb, if◌then◌else◌, checked_add, saturating_add, saturating_sub,
}
use apogee.Allocator.{Layout, align_up}

pub record BumpAllocator : Type 0 where
  pub heap_start : ℕ
  pub heap_end : ℕ
  pub next : ℕ

abbrev pub empty : BumpAllocator
empty = record { heap_start = 0; heap_end = 0; next = 0 }

unfoldable pub init : BumpAllocator → ℕ → ℕ → BumpAllocator
unfolding saturating_add
init a heap_start heap_size = record {
  heap_start = heap_start;
  heap_end = saturating_add heap_start heap_size;
  next = heap_start;
}

unfoldable pub cursor : BumpAllocator → ℕ
cursor a = a.next

unfoldable pub remaining : BumpAllocator → ℕ
unfolding saturating_sub
remaining a = saturating_sub a.heap_end a.next

unfoldable pub heap_size : BumpAllocator → ℕ
unfolding saturating_sub
heap_size a = saturating_sub a.heap_end a.heap_start

unfoldable pub alloc : BumpAllocator → Layout → BumpAllocator × ℕ
unfolding checked_add
alloc a layout =
    let alloc_start = align_up a.next layout.align in
    elim (checked_add alloc_start layout.size) [
      | none ↦ (a, 0)
      | some alloc_end ↦
          if ltb a.heap_end alloc_end then (a, 0) else (record a { next = alloc_end }, alloc_start)
    ]

unfoldable pub dealloc : BumpAllocator → ℕ → Layout → BumpAllocator
dealloc a ptr layout = a
