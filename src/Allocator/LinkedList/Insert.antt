-- ===== src/Allocator/LinkedList/Insert.antt =====
-- The well-formedness of the allocator of src/allocator/linkedlist.rs, and what
-- `add_free_region` does to a well-formed one.
use apogee.Base.{ℕ, ◌+◌, ◌%◌, ◌^◌, ◌≤◌, ◌<◌, ◌≡◌, ◌∙◌, ◌⊎◌, true, ◌||◌, word, saturating_add, arith}
use apogee.Allocator.{align_up}
use apogee.Allocator.Align.{align_up-eight}
use apogee.Allocator.LinkedList.{
  LinkedListAllocator, add_free_region, add_free_region_asserts, insert_region, free_bytes,
}
use apogee.Allocator.LinkedList.Chain.{
  Chain, Apart, Chain-loose, coalesce-Chain, insert_region-Chain, walk_asserts-Apart,
  Apart-coalesce, Apart-insert_region,
}
use apogee.Allocator.LinkedList.Bytes.{
  in_block, is_free, total, is_free-insert_region, is_free-coalesce, total-insert_region,
  total-coalesce, bytes_from-total,
}

-- The free list is in address order, aligned, coalesced and inside the heap, and the heap lies in
-- the lower half of the address space.
pub record IsWellFormed (a : LinkedListAllocator) : Type 0 where
  pub bounded : a.heap_end ≤ 2 ^ 63
  pub ordered : a.heap_start ≤ a.heap_end
  pub chain : Chain 1 a.heap_start a.heap_end a.head

-- What the safety comment of `add_free_region` asks of the caller.
pub record IsSpare (a : LinkedListAllocator) (addr size : ℕ) : Type 0 where
  pub aligned : addr % 8 ≡ 0
  pub holds_node : 16 ≤ size
  pub above : a.heap_start ≤ addr
  pub below : addr + size ≤ a.heap_end
  pub apart : Apart addr size a.head

pub align_up-aligned : (addr : ℕ) → addr % 8 ≡ 0 → addr + 8 ≤ word → align_up addr 8 ≡ addr
align_up-aligned addr e h = omega (arith, align_up-eight addr h)

module _ (a : LinkedListAllocator) (addr size : ℕ) (w : IsWellFormed a)
    (s : IsSpare a addr size) where
  inserted : Chain 0 a.heap_start a.heap_end (insert_region addr size a.head)
  inserted =
      insert_region-Chain a.heap_end w.bounded a.heap_start addr size a.head s.above s.aligned
        s.holds_node s.below s.apart (Chain-loose a.heap_start a.heap_end a.head w.chain)

  pub add_free_region-IsWellFormed : IsWellFormed (add_free_region a addr size)
  unfolding add_free_region
  add_free_region-IsWellFormed = record {
    bounded = w.bounded;
    ordered = w.ordered;
    chain = coalesce-Chain a.heap_end w.bounded a.heap_start _ inserted;
  }

  pub is_free-add_free_region :
      (x : ℕ)
      → is_free x (add_free_region a addr size).head ≡ (in_block addr size x || is_free x a.head)
  unfolding add_free_region
  is_free-add_free_region x =
      is_free-coalesce a.heap_end w.bounded a.heap_start x _ inserted
      ∙ is_free-insert_region x addr size a.head

  pub total-add_free_region : total (add_free_region a addr size).head ≡ size + total a.head
  unfolding add_free_region
  total-add_free_region =
      total-coalesce a.heap_end w.bounded a.heap_start _ inserted
      ∙ total-insert_region addr size a.head

  pub Apart-add_free_region :
      (b t : ℕ)
      → 0 < t
      → (addr + size ≤ b) ⊎ (b + t ≤ addr)
      → Apart b t a.head
      → Apart b t (add_free_region a addr size).head
  unfolding add_free_region
  Apart-add_free_region b t pos h e =
      Apart-coalesce a.heap_end w.bounded a.heap_start b t _ pos inserted
        (Apart-insert_region b t addr size a.head (omega arith) e)

  -- No assertion of `add_free_region` fails.
  pub add_free_region_asserts_hold : add_free_region_asserts a addr size ≡ true
  unfolding add_free_region_asserts saturating_add
  add_free_region_asserts_hold = ground (
    arith,
    align_up-aligned addr s.aligned,
    walk_asserts-Apart a.heap_end w.bounded a.heap_start addr size a.head
        (Chain-loose a.heap_start a.heap_end a.head w.chain) s.apart,
  )

pub free_bytes-total : (a : LinkedListAllocator) → IsWellFormed a → free_bytes a ≡ total a.head
unfolding free_bytes
free_bytes-total a w = omega (
  arith,
  bytes_from-total a.heap_end w.bounded 1 a.heap_start 0 a.head (omega arith) w.ordered w.chain,
)
