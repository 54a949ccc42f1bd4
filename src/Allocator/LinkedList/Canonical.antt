-- ===== src/Allocator/LinkedList/Canonical.antt =====
-- The free list of src/allocator/linkedlist.rs is determined by the bytes that are free, so the
-- order in which blocks are freed leaves no trace.
use apogee.Base.{ℕ, ◌+◌, ◌≤◌, ◌≡◌, refl, sym, subst, List, [], ◌∷◌, arith}
use mathlib.Core.Path.{ap₂}
use apogee.Allocator.LinkedList.{ListNode, LinkedListAllocator}
use apogee.Allocator.LinkedList.Chain.{Chain}
use apogee.Allocator.LinkedList.Bytes.{is_free, is_free-Chain}
use apogee.Allocator.LinkedList.Insert.{IsWellFormed}

-- The first node of a list starts where every list with the same free bytes starts, at the latest.
first_below :
    (lo hi : ℕ) (n m : ListNode) (ns ms : List ListNode)
    → Chain 1 lo hi (n ∷ ns)
    → Chain 1 lo hi (m ∷ ms)
    → ((x : ℕ) → is_free x (n ∷ ns) ≡ is_free x (m ∷ ms))
    → m.start_addr ≤ n.start_addr
first_below lo hi n m ns ms c d same =
    ground
      (arith, same n.start_addr, is_free-Chain 1 (m.start_addr + m.size + 1) hi n.start_addr ms d.4)

-- It is no longer either: the byte after it is not free.
first_fits :
    (lo hi : ℕ) (n m : ListNode) (ns ms : List ListNode)
    → Chain 1 lo hi (n ∷ ns)
    → Chain 1 lo hi (m ∷ ms)
    → ((x : ℕ) → is_free x (n ∷ ns) ≡ is_free x (m ∷ ms))
    → n.start_addr ≡ m.start_addr
    → n.size ≤ m.size
first_fits lo hi n m ns ms c d same start = ground (
  arith,
  same (m.start_addr + m.size),
  is_free-Chain 1 (m.start_addr + m.size + 1) hi (m.start_addr + m.size) ms d.4,
)

rest_same :
    (lo hi x : ℕ) (n : ListNode) (ns ms : List ListNode)
    → Chain 1 lo hi (n ∷ ns)
    → Chain 1 lo hi (n ∷ ms)
    → is_free x (n ∷ ns) ≡ is_free x (n ∷ ms)
    → is_free x ns ≡ is_free x ms
rest_same lo hi x n ns ms c d same = ground (
  arith,
  is_free-Chain 1 (n.start_addr + n.size + 1) hi x ns c.4,
  is_free-Chain 1 (n.start_addr + n.size + 1) hi x ms d.4,
)

-- Two coalesced lists with the same free bytes are the same.
pub Chain-unique :
    (lo hi : ℕ) (ns ms : List ListNode)
    → Chain 1 lo hi ns
    → Chain 1 lo hi ms
    → ((x : ℕ) → is_free x ns ≡ is_free x ms)
    → ns ≡ ms
Chain-unique lo hi [] [] c d same = refl
Chain-unique lo hi [] (m ∷ ms) c d same = absurd (ground (arith, same m.start_addr))
Chain-unique lo hi (n ∷ ns) [] c d same = absurd (ground (arith, same n.start_addr))
Chain-unique lo hi (n ∷ ns) (m ∷ ms) c d same =
    let start : n.start_addr ≡ m.start_addr = omega (
      arith,
      first_below lo hi n m ns ms c d same,
      first_below lo hi m n ms ns d c (λ x. sym (same x)),
    ) in
    let size : n.size ≡ m.size = omega (
      arith,
      first_fits lo hi n m ns ms c d same start,
      first_fits lo hi m n ms ns d c (λ x. sym (same x)) (sym start),
    ) in
    let node : n ≡ m = λ i. record { start_addr = start i; size = size i } in
    let d' : Chain 1 lo hi (n ∷ ms) =
      subst (λ (k : ListNode). Chain 1 lo hi (k ∷ ms)) (sym node) d in
    let same' : (x : ℕ) → is_free x (n ∷ ns) ≡ is_free x (n ∷ ms) =
      subst (λ (k : ListNode). (x : ℕ) → is_free x (n ∷ ns) ≡ is_free x (k ∷ ms)) (sym node) same in
    ap₂ ◌∷◌ node (
      Chain-unique (n.start_addr + n.size + 1) hi ns ms c.4 d'.4
        (λ x. rest_same lo hi x n ns ms c d' (same' x)))

-- So are two well-formed allocators over the same range.
pub head_unique :
    (a b : LinkedListAllocator)
    → IsWellFormed a
    → IsWellFormed b
    → a.heap_start ≡ b.heap_start
    → a.heap_end ≡ b.heap_end
    → ((x : ℕ) → is_free x a.head ≡ is_free x b.head)
    → a ≡ b
head_unique a b v w start end same =
    let chain : Chain 1 a.heap_start a.heap_end b.head = rw (start, end) w.chain in
    let head : a.head ≡ b.head =
      Chain-unique a.heap_start a.heap_end a.head b.head v.chain chain same in
    λ i. record { head = head i; heap_start = start i; heap_end = end i }
