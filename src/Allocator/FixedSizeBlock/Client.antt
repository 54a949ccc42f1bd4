-- ===== src/Allocator/FixedSizeBlock/Client.antt =====
-- A client of the slab allocator of src/allocator/fixed_size_block.rs that frees only what it was
-- given. A block that it holds, or that is parked, was taken from the fallback with a layout of its
-- own, the backing layout.
pub mod Blocks
pub mod Moves
pub mod Parked
pub mod Requests
pub mod Frees
pub mod Sound
pub mod Stats
use apogee.Base.{
  ℕ, zero, suc, ◌+◌, ◌%◌, ◌<◌, ◌≤◌, ◌≡◌, ◌⊎◌, List, [], ◌∷◌, ◌++◌, Option, none, some, map, ◌==◌,
  if◌then◌else◌, length, get_elem?, All,
}
use apogee.Allocator.{Layout}
use apogee.Allocator.Align.{IsLayout}
use apogee.Allocator.LinkedList.{ListNode, LinkedListAllocator}
use apogee.Allocator.LinkedList.Insert.{IsWellFormed}
use apogee.Allocator.LinkedList.Client.{Block, Call, allocs, frees, remove_at, Held}
use apogee.Allocator.FixedSizeBlock.{
  FixedSizeBlockAllocator, list_index, block_size, alloc, dealloc,
}

abbrev pub class_layout : ℕ → Layout
class_layout i = record { size = block_size i; align = block_size i }

-- The layout with which the fallback serves a request.
unfoldable pub backing : Layout → Layout
backing l = elim (list_index l) [ none ↦ l | some i ↦ class_layout i ]

abbrev pub backed : Block → Block
backed b = record b { layout = backing b.layout }

-- The parked blocks of a class, and of the classes from `i` on.
abbrev pub parked : ℕ → List ListNode → List Block
parked i [] = []
parked i (n ∷ ns) = record { ptr = n.start_addr; layout = class_layout i } ∷ parked i ns

abbrev pub all_parked : ℕ → List (List ListNode) → List Block
all_parked i [] = []
all_parked i (ns ∷ heads) = parked i ns ++ all_parked (suc i) heads

pub record Heap : Type 0 where
  pub allocator : FixedSizeBlockAllocator
  pub live : List Block

unfoldable pub step : Heap → Call → Heap
step h (allocs l) =
    let (after, p) = alloc h.allocator l in
    if p == 0
    then record h { allocator = after }
    else record { allocator = after; live = record { ptr = p; layout = l } ∷ h.live }
step h (frees i) = elim (get_elem? h.live i) [
  | none ↦ h
  | some b ↦ record { allocator = dealloc h.allocator b.ptr b.layout; live = remove_at i h.live }
]

unfoldable pub run : Heap → List Call → Heap
run h [] = h
run h (c ∷ cs) = run (step h c) cs

abbrev pub Aligned : Block → Type 0
Aligned b = b.ptr % b.layout.align ≡ 0

-- All blocks that the fallback has handed out: those that the client holds, and those parked.
abbrev pub taken : FixedSizeBlockAllocator → List Block → List Block
taken a live = map backed live ++ all_parked 0 a.list_heads

pub record IsSound (start finish : ℕ) (h : Heap) : Type 0 where
  pub ten : length h.allocator.list_heads ≡ 10
  pub well_formed : IsWellFormed h.allocator.fallback_allocator
  pub starts : h.allocator.fallback_allocator.heap_start ≡ start
  pub ends : h.allocator.fallback_allocator.heap_end ≡ finish
  pub not_null : 0 < start
  pub layouts : All (λ (b : Block). IsLayout b.layout) h.live
  pub held : Held h.allocator.fallback_allocator (taken h.allocator h.live)
  pub aligned : All Aligned (taken h.allocator h.live)

-- What a request was for: so many bytes at its address, in the heap, at its alignment.
abbrev pub IsUsable : ℕ → ℕ → Block → Type 0
IsUsable start finish b =
    (start ≤ b.ptr) × (b.ptr + b.layout.size ≤ finish) × (b.ptr % b.layout.align ≡ 0)

abbrev pub Separate : Block → Block → Type 0
Separate b c = (b.ptr + b.layout.size ≤ c.ptr) ⊎ (c.ptr + c.layout.size ≤ b.ptr)

-- Every block is usable, and separate from every other.
abbrev pub Served : ℕ → ℕ → List Block → Type 0
Served start finish [] = Unit
Served start finish (b ∷ bs) =
    IsUsable start finish b × All (Separate b) bs × Served start finish bs
