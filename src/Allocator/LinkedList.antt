-- ===== src/Allocator/LinkedList.antt =====
-- src/allocator/linkedlist.rs: the address-ordered, coalescing free list.
-- A `ListNode` lives at the start of the region that it describes, so a node is its address and
-- its size, and the chain of `next` links is a list of nodes. A pointer is its address; null is 0.
pub mod Chain
pub mod Bytes
pub mod Insert
pub mod Fits
pub mod PutBack
pub mod Find
pub mod Request
pub mod Safety
pub mod Canonical
pub mod Client
mod Tests
use apogee.Base.{
  ℕ, suc, ◌+◌, Bool, true, ◌&&◌, List, [], ◌∷◌, Option, none, some, max, ltb, leb, ◌==◌,
  if◌then◌else◌, add64, sub64, checked_add, saturating_add, saturating_sub,
}
use apogee.Allocator.{Layout, align_up}

-- `ListNode`, with its own address; `next` is the rest of the list.
pub record ListNode : Type 0 where
  pub start_addr : ℕ
  pub size : ℕ

unfoldable pub end_addr : ListNode → ℕ
unfolding add64
end_addr node = add64 node.start_addr node.size

-- `size_of::<ListNode>()` and `align_of::<ListNode>()` on x86-64.
abbrev pub min_block : ℕ
min_block = 16

abbrev pub node_align : ℕ
node_align = 8

unfoldable pub allocation_size : Layout → ℕ
allocation_size layout = align_up (max layout.size min_block) node_align

unfoldable pub allocation_align : Layout → ℕ
allocation_align layout = max layout.align node_align

pub record LinkedListAllocator : Type 0 where
  pub head : List ListNode
  pub heap_start : ℕ
  pub heap_end : ℕ

abbrev pub empty : LinkedListAllocator
empty = record { head = []; heap_start = 0; heap_end = 0 }

-- The loop of `coalesce`, at a node and what follows it. A merged node is looked at again.
unfoldable pub coalesce_from : ListNode → List ListNode → List ListNode
unfolding end_addr add64
coalesce_from node [] = node ∷ []
coalesce_from node (next ∷ rest) = elim (next.start_addr == end_addr node) [
  | true ↦ coalesce_from (record node { size = add64 node.size next.size }) rest
  | _ ↦ node ∷ coalesce_from next rest
]

unfoldable pub coalesce : List ListNode → List ListNode
unfolding coalesce_from
coalesce [] = []
coalesce (node ∷ rest) = coalesce_from node rest

-- The walk to the first region that starts at or after `addr`, and the splice of the new header.
unfoldable pub insert_region : ℕ → ℕ → List ListNode → List ListNode
insert_region addr size [] = record { start_addr = addr; size = size } ∷ []
insert_region addr size (node ∷ rest) =
    if ltb node.start_addr addr
    then node ∷ insert_region addr size rest
    else record { start_addr = addr; size = size } ∷ node ∷ rest

unfoldable pub add_free_region : LinkedListAllocator → ℕ → ℕ → LinkedListAllocator
unfolding coalesce insert_region
add_free_region a addr size = record a { head = coalesce (insert_region addr size a.head) }

-- The `debug_assert!`s of `add_free_region`: those before the walk, and the one in it.
unfoldable pub walk_asserts : ℕ → List ListNode → Bool
unfolding end_addr
walk_asserts addr [] = true
walk_asserts addr (node ∷ rest) =
    if ltb node.start_addr addr then leb (end_addr node) addr && walk_asserts addr rest else true

unfoldable pub add_free_region_asserts : LinkedListAllocator → ℕ → ℕ → Bool
unfolding walk_asserts saturating_add
add_free_region_asserts a addr size =
    leb min_block size
    && align_up addr node_align == addr
    && leb a.heap_start addr
    && leb (saturating_add addr size) a.heap_end
    && walk_asserts addr a.head

unfoldable pub init : LinkedListAllocator → ℕ → ℕ → LinkedListAllocator
init a heap_start heap_size =
    let fresh : LinkedListAllocator = record {
      head = [];
      heap_start = heap_start;
      heap_end = saturating_add heap_start heap_size;
    } in
    let start = align_up heap_start node_align in
    let size = saturating_sub fresh.heap_end start in
    if leb min_block size then add_free_region fresh start size else fresh

unfoldable pub heap_size : LinkedListAllocator → ℕ
unfolding saturating_sub
heap_size a = saturating_sub a.heap_end a.heap_start

-- The loops of `free_region_count` and `free_bytes`, with their counters.
unfoldable pub count_from : ℕ → List ListNode → ℕ
unfolding add64
count_from count [] = count
count_from count (node ∷ rest) = count_from (add64 count 1) rest

unfoldable pub free_region_count : LinkedListAllocator → ℕ
unfolding count_from
free_region_count a = count_from 0 a.head

unfoldable pub bytes_from : ℕ → List ListNode → ℕ
unfolding add64
bytes_from bytes [] = bytes
bytes_from bytes (node ∷ rest) = bytes_from (add64 bytes node.size) rest

unfoldable pub free_bytes : LinkedListAllocator → ℕ
unfolding bytes_from
free_bytes a = bytes_from 0 a.head

-- The tuple `fit` of `find_region`.
pub record Fit : Type 0 where
  pub region_start : ℕ
  pub alloc_start : ℕ
  pub alloc_end : ℕ
  pub region_end : ℕ

unfoldable pub fit : ListNode → ℕ → ℕ → Option Fit
unfolding end_addr checked_add
fit node size align =
    let alloc_start = align_up node.start_addr align in
    elim (checked_add alloc_start size) [
      | none ↦ none
      | some alloc_end ↦
          if leb alloc_end (end_addr node)
          then some (record {
            region_start = node.start_addr;
            alloc_start = alloc_start;
            alloc_end = alloc_end;
            region_end = end_addr node;
          })
          else none
    ]

-- The first region that fits, and the list with that region unlinked.
unfoldable pub unlink_fit : List ListNode → ℕ → ℕ → Option (Fit × List ListNode)
unfolding fit
unlink_fit [] size align = none
unlink_fit (node ∷ rest) size align = elim (fit node size align) [
  | some found ↦ some (found, rest)
  | none ↦ elim (unlink_fit rest size align) [
    | none ↦ none
    | some (found, others) ↦ some (found, node ∷ others)
  ]
]

-- A slice that can hold a header goes back on the list; a smaller one is lost.
unfoldable pub put_back : LinkedListAllocator → ℕ → ℕ → LinkedListAllocator
unfolding add_free_region
put_back a addr size = if leb min_block size then add_free_region a addr size else a

unfoldable pub find_region : LinkedListAllocator → ℕ → ℕ → LinkedListAllocator × Option ℕ
find_region a size align = elim (unlink_fit a.head size align) [
  | none ↦ (a, none)
  | some (found, others) ↦
      let front = sub64 found.alloc_start found.region_start in
      let back = sub64 found.region_end found.alloc_end in
      let fronted = put_back (record a { head = others }) found.region_start front in
      (put_back fronted found.alloc_end back, some found.alloc_start)
]

unfoldable pub alloc : LinkedListAllocator → Layout → LinkedListAllocator × ℕ
alloc a layout =
    let (after, found) = find_region a (allocation_size layout) (allocation_align layout) in
    elim found [ some addr ↦ (after, addr) | none ↦ (after, 0) ]

unfoldable pub dealloc : LinkedListAllocator → ℕ → Layout → LinkedListAllocator
unfolding add_free_region allocation_size
dealloc a ptr layout = add_free_region a ptr (allocation_size layout)

-- The `debug_assert!`s of `dealloc` and of the `add_free_region` that it calls.
unfoldable pub dealloc_asserts : LinkedListAllocator → ℕ → Layout → Bool
unfolding add_free_region_asserts allocation_size saturating_add
dealloc_asserts a ptr layout =
    leb a.heap_start ptr
    && leb (saturating_add ptr (allocation_size layout)) a.heap_end
    && align_up ptr node_align == ptr
    && add_free_region_asserts a ptr (allocation_size layout)
