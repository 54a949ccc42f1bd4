-- ===== src/Allocator/LinkedList/Client/Held.antt =====
-- That allocation and deallocation keep the blocks that a client holds apart
-- (src/allocator/linkedlist.rs).
use apogee.Base.{
  ℕ, zero, suc, ◌+◌, ◌≤◌, ◌<◌, ◌≡◌, ◌⊎◌, List, [], ◌∷◌, some, max, get_elem?, All, arith,
}
use apogee.Allocator.{Layout}
use apogee.Allocator.Align.{IsLayout}
use apogee.Allocator.LinkedList.{LinkedListAllocator, dealloc, allocation_size, allocation_align}
use apogee.Allocator.LinkedList.Chain.{Apart}
use apogee.Allocator.LinkedList.Bytes.{is_free-Apart}
use apogee.Allocator.LinkedList.Insert.{IsWellFormed, IsSpare, Apart-add_free_region}
use apogee.Allocator.LinkedList.Find.{IsAllocated}
use apogee.Allocator.LinkedList.Request.{allocation_size-IsRequest, allocation_align-IsAlignment}
use apogee.Allocator.LinkedList.Client.{Block, extent, remove_at, Disjoint, Held}

-- A block just handed out is disjoint from any block that was apart from the free list.
fresh_disjoint :
    (size align : ℕ) (a b : LinkedListAllocator) (p c t : ℕ)
    → IsAllocated size align a b p
    → 0 < size
    → 0 < t
    → Apart c t a.head
    → (p + size ≤ c) ⊎ (c + t ≤ p)
fresh_disjoint size align a b p c t got full pos e =
    ground (arith, got.was_free (max p c), is_free-Apart (max p c) c t a.head e)

kept_IsSpare :
    (size align : ℕ) (a b : LinkedListAllocator) (p c t : ℕ)
    → IsAllocated size align a b p
    → IsSpare a c t
    → IsSpare b c t
kept_IsSpare size align a b p c t got s = record {
  aligned = s.aligned;
  holds_node = s.holds_node;
  above = omega (arith, got.same_start);
  below = omega (arith, got.same_end);
  apart = got.keeps c t (omega arith) s.apart;
}

module _ (l : Layout) (a b : LinkedListAllocator) (p : ℕ) (v : IsLayout l) where
  abbrev pub got_block : Block
  got_block = record { ptr = p; layout = l }

  pub Held-alloc :
      (bs : List Block)
      → IsAllocated (allocation_size l) (allocation_align l) a b p
      → Held a bs
      → Held b bs × All (Disjoint got_block) bs
  Held-alloc [] got h = (tt, tt)
  Held-alloc (c ∷ bs) got h =
      let (rest, apart) = Held-alloc bs got h.3 in
      let size = allocation_size-IsRequest l v in
      (
        (h.0, kept_IsSpare _ _ a b p c.ptr (extent c) got h.1, h.2, rest),
        (
          fresh_disjoint _ _ a b p c.ptr (extent c) got (omega arith) (omega arith) h.1.apart,
          apart,
        ),
      )

  pub got_IsSpare :
      IsAllocated (allocation_size l) (allocation_align l) a b p → IsSpare b p (allocation_size l)
  got_IsSpare got =
      let size = allocation_size-IsRequest l v in
      let align = allocation_align-IsAlignment l v in
      record {
        aligned = align.eight p got.aligned;
        holds_node = size.large;
        above = omega (arith, got.same_start);
        below = omega (arith, got.same_end);
        apart = got.taken;
      }

-- A block apart from another stays apart from the free list when that one is freed.
freed_IsSpare :
    (a : LinkedListAllocator) (b c : Block)
    → IsWellFormed a
    → IsSpare a b.ptr (extent b)
    → IsSpare a c.ptr (extent c)
    → Disjoint b c
    → IsSpare (dealloc a b.ptr b.layout) c.ptr (extent c)
unfolding dealloc
freed_IsSpare a b c w s t d = record {
  aligned = t.aligned;
  holds_node = t.holds_node;
  above = t.above;
  below = t.below;
  apart = Apart-add_free_region a b.ptr (extent b) w s c.ptr (extent c) (omega arith) d t.apart;
}

pub Held-dealloc :
    (a : LinkedListAllocator) (b : Block) (bs : List Block)
    → IsWellFormed a
    → IsSpare a b.ptr (extent b)
    → All (Disjoint b) bs
    → Held a bs
    → Held (dealloc a b.ptr b.layout) bs
Held-dealloc a b [] w s d h = tt
Held-dealloc a b (c ∷ bs) w s d h =
    (h.0, freed_IsSpare a b c w s h.1 d.0, h.2, Held-dealloc a b bs w s d.1 h.3)

All-remove_at :
    (b : Block) (i : ℕ) (bs : List Block) → All (Disjoint b) bs → All (Disjoint b) (remove_at i bs)
unfolding remove_at
All-remove_at b i [] d = tt
All-remove_at b zero (c ∷ bs) d = d.1
All-remove_at b (suc i) (c ∷ bs) d = (d.0, All-remove_at b i bs d.1)

All-get :
    (b c : Block) (i : ℕ) (bs : List Block)
    → All (Disjoint b) bs
    → get_elem? bs i ≡ some c
    → Disjoint b c
All-get b c i [] d e = absurd (ground arith)
All-get b c zero (x ∷ bs) d e = ground arith
All-get b c (suc i) (x ∷ bs) d e = All-get b c i bs d.1 e

-- The block at a place in the list, and the others.
pub Held-get :
    (a : LinkedListAllocator) (i : ℕ) (bs : List Block) (b : Block)
    → Held a bs
    → get_elem? bs i ≡ some b
    → IsLayout b.layout
      × IsSpare a b.ptr (extent b)
      × All (Disjoint b) (remove_at i bs)
      × Held a (remove_at i bs)
unfolding remove_at
Held-get a i [] b h e = absurd (ground arith)
Held-get a zero (c ∷ bs) b h e = let same : c ≡ b = ground arith in rw (← same) (h.0, h.1, h.2, h.3)
Held-get a (suc i) (c ∷ bs) b h e =
    let (v, s, d, rest) = Held-get a i bs b h.3 e in
    (v, s, (omega (arith, All-get c b i bs h.2 e), d), (h.0, h.1, All-remove_at c i bs h.2, rest))
