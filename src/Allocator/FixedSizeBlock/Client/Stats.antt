-- ===== src/Allocator/FixedSizeBlock/Client/Stats.antt =====
-- `stats` of src/allocator/fixed_size_block.rs on the heap of a client.
use apogee.Base.{
  ℕ, suc, ◌+◌, ◌-◌, ◌^◌, ◌≤◌, ◌<◌, ◌≡◌, List, [], ◌∷◌, ◌++◌, map, length, All, word, add64,
  add64-eq-add, saturating_sub, arith,
}
use apogee.Allocator.Align.{IsLayout}
use apogee.Allocator.LinkedList
use apogee.Allocator.LinkedList.{ListNode}
use apogee.Allocator.LinkedList.Request.{allocation_size-IsRequest}
use apogee.Allocator.LinkedList.Client.{Block, extent, Call, IsValidCall}
use apogee.Allocator.LinkedList.Client.Freed.{extents, extents_bound}
use apogee.Allocator.FixedSizeBlock.{block_size, class_bytes, cached_bytes, stats}
use apogee.Allocator.FixedSizeBlock.Client.{
  class_layout, backed, parked, all_parked, Heap, taken, run, IsSound,
}
use apogee.Allocator.FixedSizeBlock.Client.Blocks.{class_layout-IsLayout}
use apogee.Allocator.FixedSizeBlock.Client.Sound.{
  extent_enough, start_heap, start_heap-IsSound, slab_run-IsSound,
}

-- The bytes that the blocks were requested with.
abbrev pub sizes : List Block → ℕ
sizes [] = 0
sizes (b ∷ bs) = b.layout.size + sizes bs

pub extents-append : (xs ys : List Block) → extents (xs ++ ys) ≡ extents xs + extents ys
extents-append [] ys = omega arith
extents-append (x ∷ xs) ys = omega (arith, extents-append xs ys)

class_enough :
    (i : ℕ) → i < 10 → block_size i ≤ extent (record { ptr = 0; layout = class_layout i })
class_enough i h = (allocation_size-IsRequest (class_layout i) (class_layout-IsLayout i h)).enough

-- The sizes of the parked blocks of a class, and of the classes from `i` on.
abbrev pub parked_bytes : ℕ → List ListNode → ℕ
parked_bytes i [] = 0
parked_bytes i (n ∷ ns) = block_size i + parked_bytes i ns

abbrev pub all_parked_bytes : ℕ → List (List ListNode) → ℕ
all_parked_bytes i [] = 0
all_parked_bytes i (ns ∷ heads) = parked_bytes i ns + all_parked_bytes (suc i) heads

parked_bytes-le : (i : ℕ) (ns : List ListNode) → i < 10 → parked_bytes i ns ≤ extents (parked i ns)
parked_bytes-le i [] h = omega arith
parked_bytes-le i (n ∷ ns) h = omega (arith, class_enough i h, parked_bytes-le i ns h)

all_parked_bytes-le :
    (i : ℕ) (heads : List (List ListNode))
    → i + length heads ≤ 10
    → all_parked_bytes i heads ≤ extents (all_parked i heads)
all_parked_bytes-le i [] h = omega arith
all_parked_bytes-le i (ns ∷ heads) h = omega (
  arith,
  parked_bytes-le i ns (omega arith),
  all_parked_bytes-le (suc i) heads (omega arith),
  extents-append (parked i ns) (all_parked (suc i) heads),
)

-- The counting loops do not wrap.
class_bytes_lem :
    (i bytes : ℕ) (ns : List ListNode)
    → bytes + parked_bytes i ns < word
    → class_bytes (block_size i) bytes ns ≡ bytes + parked_bytes i ns
unfolding class_bytes
class_bytes_lem i bytes [] b = omega arith
class_bytes_lem i bytes (n ∷ ns) b =
    let exact = add64-eq-add bytes (block_size i) (omega arith) in
    omega (arith, exact, class_bytes_lem i (add64 bytes (block_size i)) ns (omega (arith, exact)))

cached_bytes_lem :
    (i bytes : ℕ) (heads : List (List ListNode))
    → bytes + all_parked_bytes i heads < word
    → cached_bytes i bytes heads ≡ bytes + all_parked_bytes i heads
unfolding cached_bytes
cached_bytes_lem i bytes [] b = omega arith
cached_bytes_lem i bytes (ns ∷ heads) b =
    let exact = class_bytes_lem i bytes ns (omega arith) in
    omega (
      arith,
      exact,
      cached_bytes_lem (suc i) (class_bytes (block_size i) bytes ns) heads (omega (arith, exact)),
    )

sizes-le :
    (live : List Block)
    → All (λ (b : Block). IsLayout b.layout) live
    → sizes live ≤ extents (map backed live)
sizes-le [] v = omega arith
sizes-le (b ∷ live) v = omega (arith, extent_enough b v.0, sizes-le live v.1)

-- What `stats` reports of a heap of `size` bytes.
pub record IsAccounted (size : ℕ) (h : Heap) : Type 0 where
  pub whole : (stats h.allocator).heap_size ≡ size
  -- The free bytes are those of the free list and of the parked blocks.
  pub exact :
      (stats h.allocator).free_bytes
      ≡ LinkedList.free_bytes h.allocator.fallback_allocator
        + all_parked_bytes 0 h.allocator.list_heads
  -- They leave room for what the client holds.
  pub room : (stats h.allocator).free_bytes + sizes h.live ≤ size

IsSound-IsAccounted :
    (start size : ℕ) (h : Heap)
    → start + size ≤ 2 ^ 63
    → IsSound start (start + size) h
    → IsAccounted size h
unfolding stats LinkedList.heap_size saturating_sub
IsSound-IsAccounted start size h below s =
    let f = h.allocator.fallback_allocator in
    let heads = h.allocator.list_heads in
    let fit = extents_bound f s.well_formed (taken h.allocator h.live) s.held in
    let split = extents-append (map backed h.live) (all_parked 0 heads) in
    let parked_le = all_parked_bytes-le 0 heads (omega (arith, s.ten)) in
    let live_le = sizes-le h.live s.layouts in
    let range : f.heap_end - f.heap_start ≡ size = omega (arith, s.starts, s.ends) in
    let cached = cached_bytes_lem 0 0 heads (omega (arith, fit, split, parked_le, range)) in
    let total =
      add64-eq-add (LinkedList.free_bytes f) (cached_bytes 0 0 heads)
        (omega (arith, fit, split, parked_le, range, cached)) in
    record {
      whole = omega (arith, range);
      exact = omega (arith, total, cached);
      room = omega (arith, total, cached, fit, split, parked_le, live_le, range);
    }

-- On a heap of `size` bytes from `start`, not at address 0 and below the middle of the address
-- space, after anything a client does that asks for valid layouts and frees only blocks which it
-- holds, each once: `stats` reports `size` for the heap and, without an overflow, the bytes on the
-- free list and in the parked blocks as free, and these and the bytes that the client asked for and
-- still holds are together at most `size`.
pub slab_run-IsAccounted :
    (start size : ℕ) (cs : List Call)
    → 0 < start
    → start + size ≤ 2 ^ 63
    → All IsValidCall cs
    → IsAccounted size (run (start_heap start size) cs)
slab_run-IsAccounted start size cs pos h v =
    IsSound-IsAccounted start size (run (start_heap start size) cs) h
      (slab_run-IsSound (start_heap start size) cs v (start_heap-IsSound start size pos h))
