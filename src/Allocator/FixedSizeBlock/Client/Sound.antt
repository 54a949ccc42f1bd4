-- ===== src/Allocator/FixedSizeBlock/Client/Sound.antt =====
-- The slab allocator of src/allocator/fixed_size_block.rs over any sequence of a client's calls.
use apogee.Base.{
  ℕ, ◌^◌, ◌+◌, ◌≤◌, ◌<◌, ◌≡◌, refl, inl, inr, List, [], ◌∷◌, ◌++◌, map, get_elem?, Option-cases,
  All, arith,
}
use apogee.Allocator.Align.{IsLayout}
use apogee.Allocator.LinkedList
use apogee.Allocator.LinkedList.{LinkedListAllocator}
use apogee.Allocator.LinkedList.Safety.{init_lem, init_range}
use apogee.Allocator.LinkedList.Request.{allocation_size-IsRequest}
use apogee.Allocator.LinkedList.Client.{
  Block, extent, Call, allocs, frees, IsValidCall, Disjoint, Held,
}
use apogee.Allocator.FixedSizeBlock.{empty, init}
use apogee.Allocator.FixedSizeBlock.Client.{
  backing, backed, Heap, step, run, Aligned, all_parked, IsSound, Separate, Served,
}
use apogee.Allocator.FixedSizeBlock.Client.Requests.{alloc-IsSound}
use apogee.Allocator.FixedSizeBlock.Client.Frees.{dealloc-IsSound}
use apogee.Allocator.FixedSizeBlock.Client.Blocks.{backing-IsBacking}

pub extent_enough : (b : Block) → IsLayout b.layout → b.layout.size ≤ extent (backed b)
extent_enough b v =
    let k = backing-IsBacking b.layout v in
    omega (arith, k.enough, (allocation_size-IsRequest (backing b.layout) k.layout).enough)

step-IsSound :
    {start finish : ℕ} (h : Heap) (c : Call)
    → IsValidCall c
    → IsSound start finish h
    → IsSound start finish (step h c)
unfolding step
step-IsSound h (allocs l) v s = alloc-IsSound h l v s
step-IsSound h (frees j) v s = elim (Option-cases (get_elem? h.live j)) [
  | inl missing ↦ rw (missing, step) s
  | inr (b, found) ↦ rw (found, step) (dealloc-IsSound h j b s found)
]

module _ {start finish : ℕ} where
  pub slab_run-IsSound :
      (h : Heap) (cs : List Call)
      → All IsValidCall cs
      → IsSound start finish h
      → IsSound start finish (run h cs)
  unfolding run
  slab_run-IsSound h [] v s = s
  slab_run-IsSound h (c ∷ cs) v s = slab_run-IsSound (step h c) cs v.1 (step-IsSound h c v.0 s)

  module _ (f : LinkedListAllocator) (starts : f.heap_start ≡ start)
      (ends : f.heap_end ≡ finish) where
    Separate-All :
        (b : Block) (live : List Block) (ys : List Block)
        → IsLayout b.layout
        → All (λ (c : Block). IsLayout c.layout) live
        → All (Disjoint (backed b)) (map backed live ++ ys)
        → All (Separate b) live
    Separate-All b [] ys v vs d = tt
    Separate-All b (c ∷ live) ys v vs d = (
      ground (arith, extent_enough b v, extent_enough c vs.0, d.0),
      Separate-All b live ys v vs.1 d.1,
    )

    Served-Held :
        (live ys : List Block)
        → All (λ (b : Block). IsLayout b.layout) live
        → Held f (map backed live ++ ys)
        → All Aligned (map backed live ++ ys)
        → Served start finish live
    Served-Held [] ys v h a = tt
    Served-Held (b ∷ live) ys v h a =
        let enough = extent_enough b v.0 in
        let stricter = (backing-IsBacking b.layout v.0).stricter b.ptr a.0 in
        (
          (omega (arith, h.1.above), omega (arith, h.1.below, enough), stricter),
          Separate-All b live ys v.0 v.1 h.2,
          Served-Held live ys v.1 h.3 a.1,
        )

  IsSound-Served : (h : Heap) → IsSound start finish h → Served start finish h.live
  IsSound-Served h s =
      Served-Held h.allocator.fallback_allocator s.starts s.ends h.live
        (all_parked 0 h.allocator.list_heads) s.layouts s.held s.aligned

abbrev pub start_heap : ℕ → ℕ → Heap
start_heap start size = record { allocator = init empty start size; live = [] }

pub start_heap-IsSound :
    (start size : ℕ)
    → 0 < start
    → start + size ≤ 2 ^ 63
    → IsSound start (start + size) (start_heap start size)
unfolding init
start_heap-IsSound start size pos h =
    let w = (init_lem LinkedList.empty start size h).0 in
    let (same_start, same_end) = init_range LinkedList.empty start size h in
    record {
      ten = refl;
      well_formed = w;
      starts = same_start;
      ends = same_end;
      not_null = pos;
      layouts = tt;
      held = tt;
      aligned = tt;
    }

-- On a heap of `size` bytes from `start`, not at address 0 and below the middle of the address
-- space, whatever a client does that asks for valid layouts and frees only blocks which it holds,
-- each once: every block that it holds is inside the heap, aligned as it asked, with at least the
-- bytes that it asked for, which overlap no other block's.
pub slab_run-Served :
    (start size : ℕ) (cs : List Call)
    → 0 < start
    → start + size ≤ 2 ^ 63
    → All IsValidCall cs
    → Served start (start + size) (run (start_heap start size) cs).live
slab_run-Served start size cs pos h v =
    IsSound-Served (run (start_heap start size) cs)
      (slab_run-IsSound (start_heap start size) cs v (start_heap-IsSound start size pos h))
