-- ===== src/Allocator/FixedSizeBlock.antt =====
-- src/allocator/fixed_size_block.rs: the slab lists in front of the linked-list allocator.
-- A pointer is its address; null is 0.
pub mod Classes
pub mod Client
mod Tests
use apogee.Base.{
  ℕ, suc, ◌+◌, ◌*◌, ◌&&◌, List, [], ◌∷◌, Option, none, some, true, Bool, max, leb, if◌then◌else◌,
  get_elem?, set, add64,
}
use apogee.Allocator.{Layout, HeapStats}
use apogee.Allocator.LinkedList
use apogee.Allocator.LinkedList.{ListNode, LinkedListAllocator, min_block, node_align}

abbrev pub block_sizes : List ℕ
block_sizes = 8 ∷ 16 ∷ 32 ∷ 64 ∷ 128 ∷ 256 ∷ 512 ∷ 1024 ∷ 2048 ∷ 4096 ∷ []

-- The list of a class is the chain of its parked blocks.
pub record FixedSizeBlockAllocator : Type 0 where
  pub list_heads : List (List ListNode)
  pub fallback_allocator : LinkedListAllocator

abbrev pub empty : FixedSizeBlockAllocator
empty = record {
  list_heads = [] ∷ [] ∷ [] ∷ [] ∷ [] ∷ [] ∷ [] ∷ [] ∷ [] ∷ [] ∷ [];
  fallback_allocator = LinkedList.empty;
}

unfoldable pub init : FixedSizeBlockAllocator → ℕ → ℕ → FixedSizeBlockAllocator
init a heap_start heap_size = record a {
  fallback_allocator = LinkedList.init a.fallback_allocator heap_start heap_size;
}

-- `iter().position(|&s| s >= required)`, counting from `i`.
unfoldable pub position : ℕ → ℕ → List ℕ → Option ℕ
position required i [] = none
position required i (s ∷ sizes) = if leb required s then some i else position required (suc i) sizes

unfoldable pub list_index : Layout → Option ℕ
unfolding position
list_index layout = position (max layout.size layout.align) 0 block_sizes

-- Indexing; the index of a class is always in range.
abbrev pub size_at : List ℕ → ℕ → ℕ
size_at sizes i = elim (get_elem? sizes i) [ none ↦ 0 | some size ↦ size ]

abbrev pub block_size : ℕ → ℕ
block_size i = size_at block_sizes i

abbrev pub list_head : FixedSizeBlockAllocator → ℕ → List ListNode
list_head a i = elim (get_elem? a.list_heads i) [ none ↦ [] | some blocks ↦ blocks ]

unfoldable pub fallback_alloc : FixedSizeBlockAllocator → Layout → FixedSizeBlockAllocator × ℕ
fallback_alloc a layout =
    let (after, p) = LinkedList.alloc a.fallback_allocator layout in
    (record a { fallback_allocator = after }, p)

unfoldable pub alloc : FixedSizeBlockAllocator → Layout → FixedSizeBlockAllocator × ℕ
alloc a layout = elim (list_index layout) [
  | none ↦ fallback_alloc a layout
  | some index ↦ elim (list_head a index) [
    | [] ↦ fallback_alloc a (record { size = block_size index; align = block_size index })
    | node ∷ next ↦ (record a { list_heads = set a.list_heads index next }, node.start_addr)
  ]
]

-- A parked block carries a header.
unfoldable pub park : FixedSizeBlockAllocator → ℕ → ℕ → FixedSizeBlockAllocator
park a index ptr =
    let node : ListNode = record { start_addr = ptr; size = block_size index } in
    record a { list_heads = set a.list_heads index (node ∷ list_head a index) }

unfoldable pub fallback_dealloc : FixedSizeBlockAllocator → ℕ → Layout → FixedSizeBlockAllocator
fallback_dealloc a ptr layout = record a {
  fallback_allocator = LinkedList.dealloc a.fallback_allocator ptr layout;
}

unfoldable pub dealloc : FixedSizeBlockAllocator → ℕ → Layout → FixedSizeBlockAllocator
dealloc a ptr layout = elim (list_index layout) [
  | none ↦ fallback_dealloc a ptr layout
  | some index ↦
      if leb min_block (block_size index) && leb node_align (block_size index)
      then park a index ptr
      else fallback_dealloc a ptr layout
]

-- The inner loop of `stats`, over the blocks of one class.
unfoldable pub class_bytes : ℕ → ℕ → List ListNode → ℕ
unfolding add64
class_bytes size bytes [] = bytes
class_bytes size bytes (node ∷ blocks) = class_bytes size (add64 bytes size) blocks

unfoldable pub cached_bytes : ℕ → ℕ → List (List ListNode) → ℕ
unfolding class_bytes
cached_bytes index bytes [] = bytes
cached_bytes index bytes (blocks ∷ heads) =
    cached_bytes (suc index) (class_bytes (block_size index) bytes blocks) heads

unfoldable pub stats : FixedSizeBlockAllocator → HeapStats
unfolding cached_bytes add64
stats a = record {
  heap_size = LinkedList.heap_size a.fallback_allocator;
  free_bytes = add64 (LinkedList.free_bytes a.fallback_allocator) (cached_bytes 0 0 a.list_heads);
}
