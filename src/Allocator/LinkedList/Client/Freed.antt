-- ===== src/Allocator/LinkedList/Client/Freed.antt =====
-- Freeing everything that a client of src/allocator/linkedlist.rs holds.
use apogee.Base.{
  ℕ, ◌+◌, ◌-◌, ◌^◌, ◌≤◌, ◌≡◌, refl, sym, ◌∙◌, List, [], ◌∷◌, Bool, false, ◌||◌, arith,
}
use apogee.Allocator.{align_up}
use apogee.Allocator.LinkedList.{LinkedListAllocator, add_free_region, dealloc, init, free_bytes}
use apogee.Allocator.LinkedList.Bytes.{in_block, is_free, total-Chain}
use apogee.Allocator.LinkedList.Insert.{IsWellFormed, free_bytes-total}
use apogee.Allocator.LinkedList.Canonical.{head_unique}
use apogee.Allocator.LinkedList.Safety.{dealloc_lem, init_lem, init_range}
use apogee.Allocator.LinkedList.Client.{Block, extent, Held}
use apogee.Allocator.LinkedList.Client.Held.{Held-dealloc}

-- The blocks freed one after the other.
unfoldable pub dealloc_all : LinkedListAllocator → List Block → LinkedListAllocator
dealloc_all a [] = a
dealloc_all a (b ∷ bs) = dealloc_all (dealloc a b.ptr b.layout) bs

-- Whether a byte is in one of the blocks.
abbrev pub in_blocks : ℕ → List Block → Bool
in_blocks x [] = false
in_blocks x (b ∷ bs) = in_block b.ptr (extent b) x || in_blocks x bs

-- The bytes of the blocks.
abbrev pub extents : List Block → ℕ
extents [] = 0
extents (b ∷ bs) = extent b + extents bs

-- What freeing `bs` made of `a`.
pub record HasFreed (a u : LinkedListAllocator) (bs : List Block) : Type 0 where
  pub well_formed : IsWellFormed u
  pub same_start : u.heap_start ≡ a.heap_start
  pub same_end : u.heap_end ≡ a.heap_end
  pub free : (x : ℕ) → is_free x u.head ≡ (in_blocks x bs || is_free x a.head)
  pub bytes : free_bytes u ≡ extents bs + free_bytes a

dealloc_range :
    (a : LinkedListAllocator) (b : Block)
    → ((dealloc a b.ptr b.layout).heap_start ≡ a.heap_start)
      × ((dealloc a b.ptr b.layout).heap_end ≡ a.heap_end)
unfolding dealloc add_free_region
dealloc_range a b = (refl, refl)

pub dealloc_all-HasFreed :
    (a : LinkedListAllocator) (bs : List Block)
    → IsWellFormed a
    → Held a bs
    → HasFreed a (dealloc_all a bs) bs
unfolding dealloc_all
dealloc_all-HasFreed a [] w h = record {
  well_formed = w;
  same_start = refl;
  same_end = refl;
  free = λ x. refl;
  bytes = omega arith;
}
dealloc_all-HasFreed a (b ∷ bs) w (v, s, d, rest) =
    let freed = dealloc_lem b.layout a b.ptr v w s in
    let h = Held-dealloc a b bs w s d rest in
    let range = dealloc_range a b in
    let r = dealloc_all-HasFreed (dealloc a b.ptr b.layout) bs freed.0 h in
    record {
      well_formed = r.well_formed;
      same_start = r.same_start ∙ range.0;
      same_end = r.same_end ∙ range.1;
      free = λ x. ground (arith, r.free x, freed.1 x);
      bytes = omega (arith, r.bytes, freed.2);
    }

module _ (a : LinkedListAllocator) (w : IsWellFormed a) where
  -- The blocks and the free list fit in the heap together: were they all freed, the free list would.
  pub extents_bound :
      (bs : List Block) → Held a bs → extents bs + free_bytes a ≤ a.heap_end - a.heap_start
  extents_bound bs h =
      let f = dealloc_all-HasFreed a bs w h in
      let u = dealloc_all a bs in
      omega (
        arith,
        f.bytes,
        f.same_start,
        f.same_end,
        free_bytes-total u f.well_formed,
        total-Chain 1 u.heap_start u.heap_end u.head f.well_formed.ordered f.well_formed.chain,
      )

  -- From a well-formed allocator: freeing two collections of blocks that cover the same bytes, each
  -- of valid layouts, inside the heap, apart from the free list and from each other, gives the same
  -- allocator, whatever their order and however the bytes are divided into blocks.
  pub dealloc_all_unique :
      (bs cs : List Block)
      → Held a bs
      → Held a cs
      → ((x : ℕ) → in_blocks x bs ≡ in_blocks x cs)
      → dealloc_all a bs ≡ dealloc_all a cs
  dealloc_all_unique bs cs h k same =
      let f = dealloc_all-HasFreed a bs w h in
      let g = dealloc_all-HasFreed a cs w k in
      head_unique (dealloc_all a bs) (dealloc_all a cs) f.well_formed g.well_formed
        (f.same_start ∙ sym g.same_start) (f.same_end ∙ sym g.same_end)
        (λ x. ground (arith, f.free x, g.free x, same x))

  -- When a client gives back all that it holds and every byte from the first header boundary of the
  -- heap to its end is then free, the allocator is the one that `init` makes: one region.
  pub dealloc_all-init :
      (bs : List Block) (fresh : LinkedListAllocator) (start size : ℕ)
      → Held a bs
      → a.heap_start ≡ start
      → a.heap_end ≡ start + size
      → 16 ≤ start + size - align_up start 8
      → ((x : ℕ)
          → (in_blocks x bs || is_free x a.head)
            ≡ in_block (align_up start 8) (start + size - align_up start 8) x)
      → dealloc_all a bs ≡ init fresh start size
  dealloc_all-init bs fresh start size h starts ends room every =
      let bound : start + size ≤ 2 ^ 63 = rw ends at w.bounded in
      let f = dealloc_all-HasFreed a bs w h in
      let (v, free) = init_lem fresh start size bound in
      let (same_start, same_end) = init_range fresh start size bound in
      head_unique (dealloc_all a bs) (init fresh start size) f.well_formed v
        (f.same_start ∙ starts ∙ sym same_start) (f.same_end ∙ ends ∙ sym same_end)
        (λ x. ground (arith, f.free x, free x, every x))
