-- ===== src/Allocator/LinkedList/Safety.antt =====
-- What `init`, `alloc` and `dealloc` of src/allocator/linkedlist.rs promise.
use apogee.Base.{
  ℕ, ◌+◌, ◌-◌, ◌%◌, ◌^◌, ◌≤◌, ◌<◌, ◌≡◌, refl, ◌≢◌, inl, inr, true, ◌&&◌, ◌||◌, ◌↔◌, none, some,
  Option-cases, All, [], saturating_add, saturating_sub, leb, arith,
}
use apogee.Allocator.{Layout, align_up}
use apogee.Allocator.Align.{IsLayout, align_up-eight}
use apogee.Allocator.LinkedList.{
  add_free_region, LinkedListAllocator, init, put_back, find_region, alloc, dealloc,
  dealloc_asserts, add_free_region, allocation_size, allocation_align, free_bytes,
}
use apogee.Allocator.LinkedList.Bytes.{in_block, is_free}
use apogee.Allocator.LinkedList.Insert.{
  IsWellFormed, IsSpare, add_free_region-IsWellFormed, is_free-add_free_region,
  total-add_free_region, add_free_region_asserts_hold, align_up-aligned, free_bytes-total,
}
use apogee.Allocator.LinkedList.Fits.{TooSmall}
use apogee.Allocator.LinkedList.Find.{
  IsAllocated, find_region-IsAllocated, find_region-TooSmall, find_region-none,
}
use apogee.Allocator.LinkedList.PutBack.{put_back-IsWellFormed, is_free-put_back}
use apogee.Allocator.LinkedList.Request.{allocation_size-IsRequest, allocation_align-IsAlignment}

find_region-lem :
    (l : Layout) (a b : LinkedListAllocator) (p : ℕ)
    → IsLayout l
    → IsWellFormed a
    → find_region a (allocation_size l) (allocation_align l) ≡ (b, some p)
    → IsAllocated (allocation_size l) (allocation_align l) a b p
find_region-lem l a b p v w e =
    let r = allocation_size-IsRequest l v in
    let t = allocation_align-IsAlignment l v in
    rw t.pow (
      find_region-IsAllocated (allocation_size l) t.k t.k_from t.k_to r.whole r.large a b w p
        (rw t.pow at e))

find_nothing :
    (l : Layout) (a b : LinkedListAllocator)
    → IsLayout l
    → IsWellFormed a
    → find_region a (allocation_size l) (allocation_align l) ≡ (b, none)
    → (b ≡ a) × All (TooSmall (allocation_size l) (allocation_align l)) a.head
find_nothing l a b v w e =
    let r = allocation_size-IsRequest l v in
    let t = allocation_align-IsAlignment l v in
    rw t.pow (
      find_region-TooSmall (allocation_size l) t.k t.k_from t.k_to r.whole r.large a b w
        (rw t.pow at e))

find_none :
    (l : Layout) (a : LinkedListAllocator)
    → IsLayout l
    → IsWellFormed a
    → All (TooSmall (allocation_size l) (allocation_align l)) a.head
    → find_region a (allocation_size l) (allocation_align l) ≡ (a, none)
find_none l a v w e =
    let t = allocation_align-IsAlignment l v in
    rw t.pow (find_region-none (allocation_size l) t.k a t.k_to w (rw t.pow at e))

-- For a valid layout and a well-formed allocator: a pointer that `alloc` returns, null apart, is
-- the start of a block of the layout's rounded size at the layout's alignment. Every byte of the
-- block was free and none is after the call, no other byte becomes free, the free list stays well
-- formed, and at most 30 bytes besides are lost.
pub alloc-IsAllocated :
    (l : Layout) (a b : LinkedListAllocator) (p : ℕ)
    → IsLayout l
    → IsWellFormed a
    → alloc a l ≡ (b, p)
    → p ≢ 0
    → IsAllocated (allocation_size l) (allocation_align l) a b p × (p % l.align ≡ 0)
unfolding alloc
alloc-IsAllocated l a b p v w e h =
    elim (Option-cases (find_region a (allocation_size l) (allocation_align l)).1) [
      | inl nothing ↦ absurd (ground arith)
      | inr (q, found) ↦
          let got = find_region-lem l a b p v w (ground arith) in
          (got, (allocation_align-IsAlignment l v).divides p got.aligned)
    ]

-- For a valid layout and a well-formed allocator: `alloc` returns null exactly when no region of
-- the free list has room for the rounded size at the alignment, and then it leaves the allocator
-- as it was. (The heap does not start at 0.)
pub alloc_null :
    (l : Layout) (a : LinkedListAllocator)
    → IsLayout l
    → IsWellFormed a
    → 0 < a.heap_start
    → (((alloc a l).1 ≡ 0) ↔ All (TooSmall (allocation_size l) (allocation_align l)) a.head)
      × ((alloc a l).1 ≡ 0 → (alloc a l).0 ≡ a)
unfolding alloc
alloc_null l a v w pos =
    let size = allocation_size l in
    let align = allocation_align l in
    elim (Option-cases (find_region a size align).1) [
      | inl nothing ↦
          let b : LinkedListAllocator = (find_region a size align).0 in
          let none_found : find_region a size align ≡ (b, none) = ground arith in
          let missed : (b ≡ a) × All (TooSmall size align) a.head =
            find_nothing l a b v w none_found in
          ((λ _. missed.1, λ _. ground arith), λ _. ground arith)
      | inr (q, found) ↦
          let b : LinkedListAllocator = (find_region a size align).0 in
          let some_found : find_region a size align ≡ (b, some q) = ground arith in
          let got : IsAllocated size align a b q = find_region-lem l a b q v w some_found in
          let is_q : (alloc a l).1 ≡ q = ground arith in
          (
            (λ e. absurd (omega arith), λ small. absurd (ground (arith, find_none l a v w small))),
            λ e. absurd (omega arith),
          )
    ]

-- Freeing a block of a valid layout that is inside the heap, aligned and apart from the free list
-- keeps the allocator well formed, makes exactly the block's bytes free besides those that were,
-- adds its size to the free bytes, and fails no debug assertion.
pub dealloc_lem :
    (l : Layout) (a : LinkedListAllocator) (p : ℕ)
    → IsLayout l
    → IsWellFormed a
    → IsSpare a p (allocation_size l)
    → IsWellFormed (dealloc a p l)
      × ((x : ℕ)
          → is_free x (dealloc a p l).head ≡ (in_block p (allocation_size l) x || is_free x a.head))
      × (free_bytes (dealloc a p l) ≡ allocation_size l + free_bytes a)
      × (dealloc_asserts a p l ≡ true)
unfolding dealloc dealloc_asserts saturating_add
dealloc_lem l a p v w s =
    let size = allocation_size l in
    let kept = add_free_region-IsWellFormed a p size w s in
    (
      kept,
      is_free-add_free_region a p size w s,
      omega (
        arith,
        free_bytes-total a w,
        free_bytes-total _ kept,
        total-add_free_region a p size w s,
      ),
      ground (arith, add_free_region_asserts_hold a p size w s, align_up-aligned p s.aligned),
    )

abbrev fresh : ℕ → ℕ → LinkedListAllocator
fresh start size = record { head = []; heap_start = start; heap_end = start + size }

fresh-IsWellFormed : (start size : ℕ) → start + size ≤ 2 ^ 63 → IsWellFormed (fresh start size)
fresh-IsWellFormed start size h = record { bounded = h; ordered = omega arith; chain = tt }

start-IsSpare :
    (start size : ℕ)
    → start + size ≤ 2 ^ 63
    → 16 ≤ start + size - align_up start 8
    → IsSpare (fresh start size) (align_up start 8) (start + size - align_up start 8)
start-IsSpare start size h room = record {
  aligned = omega (arith, align_up-eight start (omega arith));
  holds_node = room;
  above = omega (arith, align_up-eight start (omega arith));
  below = omega arith;
  apart = tt;
}

init-put_back :
    (a : LinkedListAllocator) (start size : ℕ)
    → start + size ≤ 2 ^ 63
    → init a start size
      ≡ put_back (fresh start size) (align_up start 8) (start + size - align_up start 8)
unfolding init put_back saturating_sub
init-put_back a start size h =
    let exact : saturating_add start size ≡ start + size = unfold saturating_add in omega arith in
    rw exact refl

-- `init` on an empty range below the middle of the address space leaves a well-formed allocator
-- over that range, whose free bytes are those from the first header boundary on, or none if fewer
-- than a header's are left.
pub init_lem :
    (a : LinkedListAllocator) (start size : ℕ)
    → start + size ≤ 2 ^ 63
    → IsWellFormed (init a start size)
      × ((x : ℕ)
          → is_free x (init a start size).head ≡ (
              leb 16 (start + size - align_up start 8)
              && in_block (align_up start 8) (start + size - align_up start 8) x))
init_lem a start size h =
    let s = start-IsSpare start size h in
    let w = fresh-IsWellFormed start size h in
    rw (init-put_back a start size h) (
      put_back-IsWellFormed (fresh start size) _ _ w s,
      λ x. ground (arith, is_free-put_back (fresh start size) _ _ w s x),
    )

pub init_range :
    (a : LinkedListAllocator) (start size : ℕ)
    → start + size ≤ 2 ^ 63
    → ((init a start size).heap_start ≡ start) × ((init a start size).heap_end ≡ start + size)
unfolding init put_back add_free_region saturating_sub saturating_add
init_range a start size h = (ground arith, ground arith)
