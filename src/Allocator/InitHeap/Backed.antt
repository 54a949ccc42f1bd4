-- ===== src/Allocator/InitHeap/Backed.antt =====
-- The blocks of the kernel heap of src/allocator/mod.rs and the pages behind them.
use apogee.Base.{ℕ, zero, suc, ◌+◌, ◌≤◌, ◌<◌, ◌≡◌, List, [], ◌∷◌, none, some, get_elem?, All, arith}
use apogee.Paging.{Paging}
use apogee.Allocator.LinkedList.Client.{Block, Call, IsValidCall}
use apogee.Allocator.{heap_start, heap_size}
use apogee.Allocator.FixedSizeBlock.{empty}
use apogee.Allocator.FixedSizeBlock.Client.{run, IsUsable, Served}
use apogee.Allocator.FixedSizeBlock.Client.Sound.{slab_run-Served}
use apogee.Allocator.InitHeap.{Memory, init_heap}
use apogee.Allocator.InitHeap.Pages.{IsMapped, init_heap-HeapOutcome}

Served-get_elem? :
    (start finish i : ℕ) (bs : List Block) (b : Block)
    → get_elem? bs i ≡ some b
    → Served start finish bs
    → IsUsable start finish b
Served-get_elem? start finish i [] b h v = absurd (ground arith)
Served-get_elem? start finish zero (x ∷ bs) b h v =
    let same : x ≡ b = ground arith in rw (← same) v.0
Served-get_elem? start finish (suc i) (x ∷ bs) b h v = Served-get_elem? start finish i bs b h v.2

-- After `init_heap` succeeded on the empty allocator, whatever a client does that asks for valid
-- layouts and frees only blocks which it holds, each once: every byte of every block that it
-- holds is on a mapped page.
pub init_heap-IsMapped :
    (p : Paging) (m u : Memory p) (cs : List Call) (i : ℕ) (b : Block) (a : ℕ)
    → m.allocator ≡ empty
    → init_heap p m ≡ (u, none)
    → All IsValidCall cs
    → get_elem? (run (record { allocator = u.allocator; live = [] }) cs).live i ≡ some b
    → b.ptr ≤ a
    → a < b.ptr + b.layout.size
    → IsMapped p u a
init_heap-IsMapped p m u cs i b a unused done valid held low high =
    let (given, mapped) = rw done at (init_heap-HeapOutcome p m) in
    let served = slab_run-Served heap_start heap_size cs (omega arith) (omega arith) valid in
    let (above, below, _) =
      Served-get_elem? heap_start (heap_start + heap_size) i _ b (rw (given, unused) at held)
        served in
    mapped a (omega arith) (omega arith)
