-- ===== src/Allocator/LinkedList/Find.antt =====
-- `find_region` of src/allocator/linkedlist.rs on a well-formed allocator.
use apogee.Base.{
  ℕ, ◌+◌, ◌-◌, ◌%◌, ◌^◌, ◌≤◌, ◌<◌, ◌≡◌, refl, ◌∙◌, ◌⊎◌, inl, inr, List, true, none, some, sub64,
  sub64-eq-sub, All, Option-cases, arith,
}
use apogee.Allocator.Align.{mod-pow-eight}
use apogee.Allocator.LinkedList.{
  LinkedListAllocator, ListNode, Fit, unlink_fit, put_back, find_region,
}
use apogee.Allocator.LinkedList.Chain.{Apart, Apart-part}
use apogee.Allocator.LinkedList.Bytes.{in_block, is_free, total}
use apogee.Allocator.LinkedList.Insert.{IsWellFormed, IsSpare}
use apogee.Allocator.LinkedList.Fits.{
  IsUnlinked, TooSmall, unlink_fit-IsUnlinked, unlink_fit-TooSmall, unlink_fit-none,
}
use apogee.Allocator.LinkedList.PutBack.{
  put_back-IsWellFormed, is_free-put_back, total-put_back, Apart-put_back, put_back-heap_start,
  put_back-heap_end,
}

-- `b` is `a` with the block of `size` bytes at `p` handed out.
pub record IsAllocated (size align : ℕ) (a b : LinkedListAllocator) (p : ℕ) : Type 0 where
  pub well_formed : IsWellFormed b
  pub same_start : b.heap_start ≡ a.heap_start
  pub same_end : b.heap_end ≡ a.heap_end
  pub aligned : p % align ≡ 0
  pub above : a.heap_start ≤ p
  pub below : p + size ≤ a.heap_end
  -- Every byte of the block was free, and none is now.
  pub was_free : (x : ℕ) → in_block p size x ≡ true → is_free x a.head ≡ true
  pub taken : Apart p size b.head
  -- No byte becomes free, and what the free list did not touch it still does not touch.
  pub shrinks : (x : ℕ) → is_free x b.head ≡ true → is_free x a.head ≡ true
  pub keeps : (c t : ℕ) → 0 < t → Apart c t a.head → Apart c t b.head
  -- At most 30 bytes are lost to slices that cannot hold a header.
  pub spent : total b.head + size ≤ total a.head
  pub lost : total a.head ≤ total b.head + size + 30

-- The two slices of the region of `f`, given back one after the other.
abbrev fronted : LinkedListAllocator → Fit → List ListNode → LinkedListAllocator
fronted a f others =
    put_back (record a { head = others }) f.region_start (f.alloc_start - f.region_start)

abbrev backed : LinkedListAllocator → Fit → List ListNode → LinkedListAllocator
backed a f others = put_back (fronted a f others) f.alloc_end (f.region_end - f.alloc_end)

module _ (size k : ℕ) (k_from : 3 ≤ k) (k_to : k ≤ 62) (whole : size % 8 ≡ 0) (large : 16 ≤ size)
    (a : LinkedListAllocator) (w : IsWellFormed a) (f : Fit) (others : List ListNode)
    (u : IsUnlinked size (2 ^ k) a.heap_start a.heap_end a.head f others) where
  rest_IsWellFormed : IsWellFormed (record a { head = others })
  rest_IsWellFormed = record { bounded = w.bounded; ordered = w.ordered; chain = u.chain }

  front_IsSpare :
      16 ≤ f.alloc_start - f.region_start
      → IsSpare (record a { head = others }) f.region_start (f.alloc_start - f.region_start)
  front_IsSpare h = record {
    aligned = u.fits.starts;
    holds_node = h;
    above = u.above;
    below = omega arith;
    apart =
        Apart-part f.region_start (f.region_end - f.region_start) _ _ others (omega arith)
          (omega arith) u.apart;
  }

  abbrev mid : LinkedListAllocator
  mid = fronted a f others

  mid-IsWellFormed : IsWellFormed mid
  mid-IsWellFormed = put_back-IsWellFormed _ _ _ rest_IsWellFormed front_IsSpare

  mid_start : mid.heap_start ≡ a.heap_start
  mid_start = put_back-heap_start _ _ _

  mid_end : mid.heap_end ≡ a.heap_end
  mid_end = put_back-heap_end _ _ _

  mid_Apart :
      (c t : ℕ)
      → 0 < t
      → Apart c t others
      → (f.alloc_start ≤ c) ⊎ (c + t ≤ f.region_start)
      → Apart c t mid.head
  mid_Apart c t pos e h =
      Apart-put_back _ _ _ rest_IsWellFormed front_IsSpare c t pos (omega arith) e

  back_IsSpare :
      16 ≤ f.region_end - f.alloc_end → IsSpare mid f.alloc_end (f.region_end - f.alloc_end)
  back_IsSpare h = record {
    aligned = omega (arith, mod-pow-eight f.alloc_start k k_from u.fits.aligned);
    holds_node = h;
    above = omega (arith, mid_start);
    below = omega (arith, mid_end);
    apart =
        mid_Apart _ _ (omega arith)
          (Apart-part f.region_start (f.region_end - f.region_start) _ _ others (omega arith)
            (omega arith) u.apart)
          (omega arith);
  }

  block_bytes :
      (x : ℕ)
      → in_block f.alloc_start size x ≡ true
      → in_block f.region_start (f.region_end - f.region_start) x ≡ true
  block_bytes x h = ground arith

  backed-Apart :
      (c t : ℕ)
      → 0 < t
      → Apart c t others
      → (f.alloc_start ≤ c) ⊎ (c + t ≤ f.region_start)
      → (c + t ≤ f.alloc_end) ⊎ (f.region_end ≤ c)
      → Apart c t (backed a f others).head
  backed-Apart c t pos e h g =
      Apart-put_back _ _ _ mid-IsWellFormed back_IsSpare c t pos (omega arith)
        (mid_Apart c t pos e h)

  backed-IsAllocated : IsAllocated size (2 ^ k) a (backed a f others) f.alloc_start
  backed-IsAllocated = record {
    well_formed = put_back-IsWellFormed _ _ _ mid-IsWellFormed back_IsSpare;
    same_start = put_back-heap_start _ _ _ ∙ mid_start;
    same_end = put_back-heap_end _ _ _ ∙ mid_end;
    aligned = u.fits.aligned;
    above = omega arith;
    below = omega arith;
    was_free = λ x h. rw (u.bytes x, block_bytes x h) refl;
    taken =
        backed-Apart f.alloc_start size (omega arith)
          (Apart-part f.region_start (f.region_end - f.region_start) _ _ others (omega arith)
            (omega arith) u.apart)
          (omega arith) (omega arith);
    shrinks = λ x. ground (
      arith,
      u.bytes x,
      is_free-put_back _ _ _ rest_IsWellFormed front_IsSpare x,
      is_free-put_back _ _ _ mid-IsWellFormed back_IsSpare x,
    );
    keeps = λ c t pos e.
        let (left, apart) = u.splits c t e in backed-Apart c t pos left (omega arith) (omega arith);
    spent = omega (
      arith,
      u.sum,
      total-put_back _ _ _ rest_IsWellFormed front_IsSpare,
      total-put_back _ _ _ mid-IsWellFormed back_IsSpare,
    );
    lost = omega (
      arith,
      u.sum,
      total-put_back _ _ _ rest_IsWellFormed front_IsSpare,
      total-put_back _ _ _ mid-IsWellFormed back_IsSpare,
    );
  }

module _ (size k : ℕ) (k_from : 3 ≤ k) (k_to : k ≤ 62) (whole : size % 8 ≡ 0) (large : 16 ≤ size)
    (a b : LinkedListAllocator) (w : IsWellFormed a) where
  pub find_region-IsAllocated :
      (p : ℕ) → find_region a size (2 ^ k) ≡ (b, some p) → IsAllocated size (2 ^ k) a b p
  unfolding find_region
  find_region-IsAllocated p e = elim (Option-cases (unlink_fit a.head size (2 ^ k))) [
    | inl nothing ↦ absurd (ground arith)
    | inr ((f, others), found) ↦
        let u =
          unlink_fit-IsUnlinked size k a.heap_end k_to w.bounded a.heap_start a.head f others
            w.chain found in
        let front : sub64 f.alloc_start f.region_start ≡ f.alloc_start - f.region_start =
          sub64-eq-sub _ _ (omega arith) (omega arith) in
        let back : sub64 f.region_end f.alloc_end ≡ f.region_end - f.alloc_end =
          sub64-eq-sub _ _ (omega arith) (omega arith) in
        let state : backed a f others ≡ b = ground arith in
        let addr : f.alloc_start ≡ p = ground arith in
        rw (← state, ← addr) (backed-IsAllocated size k k_from k_to whole large a w f others u)
  ]

  pub find_region-TooSmall :
      find_region a size (2 ^ k) ≡ (b, none) → (b ≡ a) × All (TooSmall size (2 ^ k)) a.head
  unfolding find_region
  find_region-TooSmall e = elim (Option-cases (unlink_fit a.head size (2 ^ k))) [
    | inl nothing ↦ (
      ground arith,
      unlink_fit-TooSmall size k a.heap_end k_to w.bounded a.heap_start a.head w.chain nothing,
    )
    | inr ((f, others), found) ↦ absurd (ground arith)
  ]

pub find_region-none :
    (size k : ℕ) (a : LinkedListAllocator)
    → k ≤ 62
    → IsWellFormed a
    → All (TooSmall size (2 ^ k)) a.head
    → find_region a size (2 ^ k) ≡ (a, none)
unfolding find_region
find_region-none size k a k_to w e =
    ground (arith, unlink_fit-none size k a.heap_end k_to w.bounded a.heap_start a.head w.chain e)
