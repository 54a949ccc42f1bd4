-- ===== src/Allocator/InitHeap/Tests.antt =====
-- `init_heap` of src/allocator/mod.rs over page tables that hold nothing, and a first request.
use apogee.Base.{
  ◌≡◌, refl, [], ◌∷◌, none, some, get_elem?, checked_add, add64, sub64, not64, saturating_add,
  saturating_sub, arith,
}
use apogee.Base.Maps.{lookup, insert}
use apogee.Paging.Tables.{paging}
use apogee.Allocator.{Layout, align_up}
use apogee.Allocator.Align.{IsLayout}
use apogee.Allocator.LinkedList
use apogee.Allocator.LinkedList.{
  end_addr, allocation_size, allocation_align, coalesce_from, coalesce, insert_region,
  add_free_region, fit, unlink_fit, put_back, find_region,
}
use apogee.Allocator.LinkedList.Client.{Block, allocs}
use apogee.Allocator.FixedSizeBlock.{position, list_index, fallback_alloc, alloc, empty, init}
use apogee.Allocator.FixedSizeBlock.Client.{step, run}
use apogee.Allocator.InitHeap.{Memory, map_pages, init_allocator, init_heap}
use apogee.Allocator.InitHeap.Pages.{IsMapped}
use apogee.Allocator.InitHeap.Backed.{init_heap-IsMapped}

abbrev boot : Memory paging
boot = record { mapper = []; frames = 0x10000; allocator = empty }

abbrev ready : Memory paging
ready = (init_heap paging boot).0

boot_ready : init_heap paging boot ≡ (ready, none)
unfolding init_heap map_pages init_allocator lookup insert
boot_ready = refl

abbrev request : Layout
request = record { size = 24; align = 8 }

request-IsLayout : IsLayout request
request-IsLayout = record {
  exponent = 3;
  align_pow = refl;
  exponent_le = omega arith;
  size_pos = omega arith;
  size_lt = omega arith;
}

abbrev block : Block
block = record { ptr = 0x4444_4444_0000; layout = request }

first_block :
    get_elem? (run (record { allocator = ready.allocator; live = [] }) (allocs request ∷ [])).live 0
    ≡ some block
unfolding init_heap map_pages init_allocator lookup insert run step init alloc list_index position
    fallback_alloc LinkedList.init LinkedList.alloc find_region unlink_fit fit put_back end_addr
    allocation_size allocation_align checked_add align_up add64 sub64 not64 add_free_region coalesce
    insert_region coalesce_from saturating_add saturating_sub
first_block = refl

init_heap-IsMapped_example : IsMapped paging ready 0x4444_4444_0008
init_heap-IsMapped_example =
    init_heap-IsMapped paging boot ready (allocs request ∷ []) 0 block 0x4444_4444_0008 refl
      boot_ready (request-IsLayout, tt) first_block (omega arith) (omega arith)
