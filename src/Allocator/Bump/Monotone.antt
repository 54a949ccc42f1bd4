-- ===== src/Allocator/Bump/Monotone.antt =====
-- What src/allocator/bump.rs promises: blocks in ascending order, aligned and inside the region.
use apogee.Base.{◌+◌, ◌%◌, ◌^◌, ◌≤◌, ◌<◌, ◌≡◌, ◌⊎◌, checked_add, arith}
use apogee.Allocator.{Layout, align_up}
use apogee.Allocator.Align.{IsLayout, IsAlignedUp, align_up-IsAlignedUp, pow_bound}
use apogee.Allocator.Bump.{BumpAllocator, alloc}

-- The cursor is inside the region, which is in the lower half of the address space.
pub record IsWellFormed (a : BumpAllocator) : Type 0 where
  pub bounded : a.heap_end ≤ 2 ^ 63
  pub above : a.heap_start ≤ a.next
  pub below : a.next ≤ a.heap_end

rounded :
    (a : BumpAllocator) (l : Layout)
    → IsLayout l
    → IsWellFormed a
    → IsAlignedUp a.next l.align (align_up a.next l.align)
rounded a l v w = rw v.align_pow (
    align_up-IsAlignedUp a.next v.exponent (omega (arith, v.exponent_le))
      (omega (arith, pow_bound v.exponent v.exponent_le)))

-- For a valid layout and a well-formed allocator `alloc` either returns null and changes nothing,
-- when the block does not fit after the cursor, or returns an aligned block that starts at the
-- cursor or above, ends inside the region and moves the cursor to its end, with less than the
-- alignment lost.
pub alloc_lem :
    (a : BumpAllocator) (l : Layout)
    → IsLayout l
    → IsWellFormed a
    → ((alloc a l ≡ (a, 0)) × (a.heap_end < align_up a.next l.align + l.size))
      ⊎ ((alloc a l ≡ (record a { next = (alloc a l).1 + l.size }, (alloc a l).1))
          × ((alloc a l).1 % l.align ≡ 0)
          × (a.next ≤ (alloc a l).1)
          × ((alloc a l).1 < a.next + l.align)
          × IsWellFormed (alloc a l).0)
unfolding alloc checked_add
alloc_lem a l v w = ground (arith, rounded a l v w)
