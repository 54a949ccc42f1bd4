-- ===== src/Allocator/LinkedList/Chain.antt =====
-- The shape of the free list of src/allocator/linkedlist.rs, and that the walk of
-- `add_free_region` and the loop of `coalesce` keep it.
use apogee.Base.{
  ℕ, ◌+◌, ◌%◌, ◌^◌, ◌≤◌, ◌<◌, ◌≡◌, refl, ◌⊎◌, inr, List, [], ◌∷◌, true, word, add64, arith,
}
use apogee.Allocator.LinkedList.{
  ListNode, end_addr, coalesce_from, coalesce, insert_region, walk_asserts,
}

-- Nodes in address order from `lo` up to `hi`, aligned, large enough for a header and not
-- overlapping. With `gap` 1 no node touches the next; with 0 it may.
abbrev pub Chain : ℕ → ℕ → ℕ → List ListNode → Type 0
Chain gap lo hi [] = Unit
Chain gap lo hi (n ∷ ns) =
    (lo ≤ n.start_addr)
    × (n.start_addr % 8 ≡ 0)
    × (16 ≤ n.size)
    × (n.start_addr + n.size ≤ hi)
    × Chain gap (n.start_addr + n.size + gap) hi ns

-- A region that overlaps no node of the list.
abbrev pub Apart : ℕ → ℕ → List ListNode → Type 0
Apart addr size [] = Unit
Apart addr size (n ∷ ns) =
    ((n.start_addr + n.size ≤ addr) ⊎ (addr + size ≤ n.start_addr)) × Apart addr size ns

pub Chain-mono :
    (gap lo lo' hi : ℕ) (ns : List ListNode) → lo' ≤ lo → Chain gap lo hi ns → Chain gap lo' hi ns
Chain-mono gap lo lo' hi [] h c = tt
Chain-mono gap lo lo' hi (n ∷ ns) h c = (omega arith, c.1, c.2, c.3, c.4)

pub Chain-loose : (lo hi : ℕ) (ns : List ListNode) → Chain 1 lo hi ns → Chain 0 lo hi ns
Chain-loose lo hi [] c = tt
Chain-loose lo hi (n ∷ ns) c = (
  c.0,
  c.1,
  c.2,
  c.3,
  Chain-mono 0 (n.start_addr + n.size + 1) _ hi ns (omega arith)
      (Chain-loose (n.start_addr + n.size + 1) hi ns c.4),
)

-- What lies wholly below the chain is apart from it.
pub Apart-below :
    (gap lo hi addr size : ℕ) (ns : List ListNode)
    → addr + size ≤ lo
    → Chain gap lo hi ns
    → Apart addr size ns
Apart-below gap lo hi addr size [] h c = tt
Apart-below gap lo hi addr size (n ∷ ns) h c = (
  inr (omega arith),
  Apart-below gap (n.start_addr + n.size + gap) hi addr size ns (omega arith) c.4,
)

pub end_addr-eq : (n : ListNode) → n.start_addr + n.size < word → end_addr n ≡ n.start_addr + n.size
unfolding end_addr add64
end_addr-eq n h = omega arith

module _ (hi : ℕ) (bounded : hi ≤ 2 ^ 63) where
  pub coalesce_from-Chain :
      (lo : ℕ) (n : ListNode) (ns : List ListNode)
      → Chain 0 lo hi (n ∷ ns)
      → Chain 1 lo hi (coalesce_from n ns)
  unfolding coalesce_from add64
  coalesce_from-Chain lo n [] c = (c.0, c.1, c.2, c.3, tt)
  coalesce_from-Chain lo n (m ∷ ns) c = ground (
    arith,
    end_addr-eq n (omega arith),
    coalesce_from-Chain lo (record n { size = add64 n.size m.size }) ns,
    coalesce_from-Chain (n.start_addr + n.size + 1) m ns,
  )

  pub coalesce-Chain :
      (lo : ℕ) (ns : List ListNode) → Chain 0 lo hi ns → Chain 1 lo hi (coalesce ns)
  unfolding coalesce
  coalesce-Chain lo [] c = tt
  coalesce-Chain lo (n ∷ ns) c = coalesce_from-Chain lo n ns c

  pub insert_region-Chain :
      (lo addr size : ℕ) (ns : List ListNode)
      → lo ≤ addr
      → addr % 8 ≡ 0
      → 16 ≤ size
      → addr + size ≤ hi
      → Apart addr size ns
      → Chain 0 lo hi ns
      → Chain 0 lo hi (insert_region addr size ns)
  unfolding insert_region
  insert_region-Chain lo addr size [] a b c d e f = (a, b, c, d, tt)
  insert_region-Chain lo addr size (n ∷ ns) a b c d e f = ground (
    arith,
    insert_region-Chain (n.start_addr + n.size + 0) addr size ns,
    Chain-mono 0 (n.start_addr + n.size + 0) (addr + size + 0) hi ns,
  )

  -- The assertion of the walk holds when the new region is apart from the list.
  pub walk_asserts-Apart :
      (lo addr size : ℕ) (ns : List ListNode)
      → Chain 0 lo hi ns
      → Apart addr size ns
      → walk_asserts addr ns ≡ true
  unfolding walk_asserts
  walk_asserts-Apart lo addr size [] c e = refl
  walk_asserts-Apart lo addr size (n ∷ ns) c e = ground (
    arith,
    end_addr-eq n (omega arith),
    walk_asserts-Apart (n.start_addr + n.size + 0) addr size ns c.4 e.1,
  )

  -- What is apart from a list is apart from its coalesced form.
  pub Apart-coalesce_from :
      (lo addr size : ℕ) (n : ListNode) (ns : List ListNode)
      → 0 < size
      → Chain 0 lo hi (n ∷ ns)
      → Apart addr size (n ∷ ns)
      → Apart addr size (coalesce_from n ns)
  unfolding coalesce_from add64
  Apart-coalesce_from lo addr size n [] h c e = e
  Apart-coalesce_from lo addr size n (m ∷ ns) h c e = ground (
    arith,
    end_addr-eq n (omega arith),
    Apart-coalesce_from lo addr size (record n { size = add64 n.size m.size }) ns,
    Apart-coalesce_from (n.start_addr + n.size + 0) addr size m ns,
  )

  pub Apart-coalesce :
      (lo addr size : ℕ) (ns : List ListNode)
      → 0 < size
      → Chain 0 lo hi ns
      → Apart addr size ns
      → Apart addr size (coalesce ns)
  unfolding coalesce
  Apart-coalesce lo addr size [] h c e = tt
  Apart-coalesce lo addr size (n ∷ ns) h c e = Apart-coalesce_from lo addr size n ns h c e

pub Apart-insert_region :
    (addr size a s : ℕ) (ns : List ListNode)
    → (a + s ≤ addr) ⊎ (addr + size ≤ a)
    → Apart addr size ns
    → Apart addr size (insert_region a s ns)
unfolding insert_region
Apart-insert_region addr size a s [] h e = (h, tt)
Apart-insert_region addr size a s (n ∷ ns) h e =
    ground (arith, Apart-insert_region addr size a s ns h e.1)

-- A part of a block is apart from what the block is apart from.
pub Apart-part :
    (addr size a s : ℕ) (ns : List ListNode)
    → addr ≤ a
    → a + s ≤ addr + size
    → Apart addr size ns
    → Apart a s ns
Apart-part addr size a s [] h k e = tt
Apart-part addr size a s (n ∷ ns) h k e = (omega arith, Apart-part addr size a s ns h k e.1)
