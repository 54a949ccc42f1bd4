-- ===== src/Allocator/FixedSizeBlock/Tests.antt =====
-- A client of src/allocator/fixed_size_block.rs on a heap of 64 KiB, which frees a block of a class
-- and asks for two of that class, and for one that no class fits.
use apogee.Base.{◌+◌, refl, List, [], ◌∷◌, arith}
use apogee.Allocator.{Layout}
use apogee.Allocator.Align.{IsLayout}
use apogee.Allocator.LinkedList.Client.{Call, allocs, frees}
use apogee.Allocator.FixedSizeBlock.Client.{run, Served}
use apogee.Allocator.FixedSizeBlock.Client.Sound.{start_heap, slab_run-Served}
use apogee.Allocator.FixedSizeBlock.Client.Stats.{IsAccounted, slab_run-IsAccounted}

abbrev small : Layout
small = record { size = 24; align = 8 }

abbrev large : Layout
large = record { size = 5000; align = 64 }

small-IsLayout : IsLayout small
small-IsLayout = record {
  exponent = 3;
  align_pow = refl;
  exponent_le = omega arith;
  size_pos = omega arith;
  size_lt = omega arith;
}

large-IsLayout : IsLayout large
large-IsLayout = record {
  exponent = 6;
  align_pow = refl;
  exponent_le = omega arith;
  size_pos = omega arith;
  size_lt = omega arith;
}

abbrev calls : List Call
calls = allocs small ∷ frees 0 ∷ allocs large ∷ allocs small ∷ allocs small ∷ []

slab_run-Served_example :
    Served 0x444444440000
      (0x444444440000 + 0x10000)
      (run (start_heap 0x444444440000 0x10000) calls).live
slab_run-Served_example =
    slab_run-Served 0x444444440000 0x10000 calls (omega arith) (omega arith)
      (small-IsLayout, (tt, (large-IsLayout, (small-IsLayout, (small-IsLayout, tt)))))

slab_run-IsAccounted_example : IsAccounted 0x10000 (run (start_heap 0x444444440000 0x10000) calls)
slab_run-IsAccounted_example =
    slab_run-IsAccounted 0x444444440000 0x10000 calls (omega arith) (omega arith)
      (small-IsLayout, (tt, (large-IsLayout, (small-IsLayout, (small-IsLayout, tt)))))
