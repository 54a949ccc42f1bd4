-- ===== src/Allocator/LinkedList/Client.antt =====
-- A client of the allocator of src/allocator/linkedlist.rs that frees only what it was given:
-- the blocks that it holds, and any sequence of its calls.
pub mod Held
pub mod Sound
pub mod Freed
mod Tests
use apogee.Base.{
  ℕ, zero, suc, ◌+◌, ◌≤◌, ◌<◌, ◌≡◌, refl, ◌≢◌, ◌⊎◌, inl, inr, List, [], ◌∷◌, Option, none, some,
  true, false, max, ◌==◌, ==_iff, if◌then◌else◌, get_elem?, Bool-cases, Option-cases, All, arith,
}
use apogee.Allocator.{Layout}
use apogee.Allocator.Align.{IsLayout}
use apogee.Allocator.LinkedList.{
  LinkedListAllocator, alloc, dealloc, dealloc_asserts, allocation_size, allocation_align,
}
use apogee.Allocator.LinkedList.Chain.{Apart}
use apogee.Allocator.LinkedList.Bytes.{in_block, is_free, is_free-Apart}
use apogee.Allocator.LinkedList.Insert.{IsWellFormed, IsSpare, Apart-add_free_region}
use apogee.Allocator.LinkedList.Find.{IsAllocated}
use apogee.Allocator.LinkedList.Request.{allocation_size-IsRequest, allocation_align-IsAlignment}
use apogee.Allocator.LinkedList.Safety.{alloc-IsAllocated, dealloc_lem}

pub record Block : Type 0 where
  pub ptr : ℕ
  pub layout : Layout

abbrev pub extent : Block → ℕ
extent b = allocation_size b.layout

pub record Heap : Type 0 where
  pub allocator : LinkedListAllocator
  pub live : List Block

pub data Call : Type 0 where
  allocs : Layout → Call
  frees : ℕ → Call

unfoldable pub remove_at : ℕ → List Block → List Block
remove_at i [] = []
remove_at zero (b ∷ bs) = bs
remove_at (suc i) (b ∷ bs) = b ∷ remove_at i bs

unfoldable pub step : Heap → Call → Heap
step h (allocs l) =
    let (after, p) = alloc h.allocator l in
    if p == 0
    then record h { allocator = after }
    else record { allocator = after; live = record { ptr = p; layout = l } ∷ h.live }
step h (frees i) = elim (get_elem? h.live i) [
  | none ↦ h
  | some b ↦ record { allocator = dealloc h.allocator b.ptr b.layout; live = remove_at i h.live }
]

unfoldable pub run : Heap → List Call → Heap
run h [] = h
run h (c ∷ cs) = run (step h c) cs

abbrev pub IsValidCall : Call → Type 0
IsValidCall (allocs l) = IsLayout l
IsValidCall (frees i) = Unit

abbrev pub Disjoint : Block → Block → Type 0
Disjoint b c = (b.ptr + extent b ≤ c.ptr) ⊎ (c.ptr + extent c ≤ b.ptr)

-- Each block is inside the heap and apart from the free list and from the other blocks.
abbrev pub Held : LinkedListAllocator → List Block → Type 0
Held a [] = Unit
Held a (b ∷ bs) = IsLayout b.layout × IsSpare a b.ptr (extent b) × All (Disjoint b) bs × Held a bs

pub record IsSound (h : Heap) : Type 0 where
  pub well_formed : IsWellFormed h.allocator
  pub not_null : 0 < h.allocator.heap_start
  pub held : Held h.allocator h.live
