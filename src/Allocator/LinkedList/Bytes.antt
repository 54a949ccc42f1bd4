-- ===== src/Allocator/LinkedList/Bytes.antt =====
-- The free list of src/allocator/linkedlist.rs seen as a set of bytes and as a number of bytes.
use apogee.Base.{
  ℕ, ◌+◌, ◌-◌, ◌^◌, ◌≤◌, ◌<◌, ◌≡◌, refl, List, [], ◌∷◌, Bool, true, false, ◌&&◌, ◌||◌, add64, ltb,
  leb, arith,
}
use apogee.Allocator.LinkedList.{ListNode, coalesce_from, coalesce, insert_region, bytes_from}
use apogee.Allocator.LinkedList.Chain.{Chain, Apart, end_addr-eq}

-- Whether byte `x` lies in the `size` bytes from `addr` on.
abbrev pub in_block : ℕ → ℕ → ℕ → Bool
in_block addr size x = leb addr x && ltb x (addr + size)

abbrev pub is_free : ℕ → List ListNode → Bool
is_free x [] = false
is_free x (n ∷ ns) = in_block n.start_addr n.size x || is_free x ns

abbrev pub total : List ListNode → ℕ
total [] = 0
total (n ∷ ns) = n.size + total ns

pub is_free-insert_region :
    (x addr size : ℕ) (ns : List ListNode)
    → is_free x (insert_region addr size ns) ≡ (in_block addr size x || is_free x ns)
unfolding insert_region
is_free-insert_region x addr size [] = refl
is_free-insert_region x addr size (n ∷ ns) = ground (arith, is_free-insert_region x addr size ns)

pub total-insert_region :
    (addr size : ℕ) (ns : List ListNode) → total (insert_region addr size ns) ≡ size + total ns
unfolding insert_region
total-insert_region addr size [] = refl
total-insert_region addr size (n ∷ ns) = ground (arith, total-insert_region addr size ns)

pub is_free-Apart :
    (x addr size : ℕ) (ns : List ListNode)
    → Apart addr size ns
    → in_block addr size x ≡ true
    → is_free x ns ≡ false
is_free-Apart x addr size [] e h = refl
is_free-Apart x addr size (n ∷ ns) e h = ground (arith, is_free-Apart x addr size ns e.1 h)

-- Free bytes lie between the ends of the chain.
pub is_free-Chain :
    (gap lo hi x : ℕ) (ns : List ListNode)
    → Chain gap lo hi ns
    → is_free x ns ≡ true
    → (lo ≤ x) × (x < hi)
is_free-Chain gap lo hi x [] c h = ground arith
is_free-Chain gap lo hi x (n ∷ ns) c h =
    ground (arith, is_free-Chain gap (n.start_addr + n.size + gap) hi x ns c.4)

pub total-Chain :
    (gap lo hi : ℕ) (ns : List ListNode) → lo ≤ hi → Chain gap lo hi ns → total ns ≤ hi - lo
total-Chain gap lo hi [] h c = omega arith
total-Chain gap lo hi (n ∷ []) h c = omega arith
total-Chain gap lo hi (n ∷ m ∷ ns) h c =
    omega (arith, total-Chain gap (n.start_addr + n.size + gap) hi (m ∷ ns))

module _ (hi : ℕ) (bounded : hi ≤ 2 ^ 63) where
  is_free-coalesce_from :
      (lo x : ℕ) (n : ListNode) (ns : List ListNode)
      → Chain 0 lo hi (n ∷ ns)
      → is_free x (coalesce_from n ns) ≡ is_free x (n ∷ ns)
  unfolding coalesce_from add64
  is_free-coalesce_from lo x n [] c = refl
  is_free-coalesce_from lo x n (m ∷ ns) c = ground (
    arith,
    end_addr-eq n (omega arith),
    is_free-coalesce_from lo x (record n { size = add64 n.size m.size }) ns,
    is_free-coalesce_from (n.start_addr + n.size + 0) x m ns,
  )

  pub is_free-coalesce :
      (lo x : ℕ) (ns : List ListNode) → Chain 0 lo hi ns → is_free x (coalesce ns) ≡ is_free x ns
  unfolding coalesce
  is_free-coalesce lo x [] c = refl
  is_free-coalesce lo x (n ∷ ns) c = is_free-coalesce_from lo x n ns c

  total-coalesce_from :
      (lo : ℕ) (n : ListNode) (ns : List ListNode)
      → Chain 0 lo hi (n ∷ ns)
      → total (coalesce_from n ns) ≡ total (n ∷ ns)
  unfolding coalesce_from add64
  total-coalesce_from lo n [] c = refl
  total-coalesce_from lo n (m ∷ ns) c = ground (
    arith,
    end_addr-eq n (omega arith),
    total-coalesce_from lo (record n { size = add64 n.size m.size }) ns,
    total-coalesce_from (n.start_addr + n.size + 0) m ns,
  )

  pub total-coalesce :
      (lo : ℕ) (ns : List ListNode) → Chain 0 lo hi ns → total (coalesce ns) ≡ total ns
  unfolding coalesce
  total-coalesce lo [] c = refl
  total-coalesce lo (n ∷ ns) c = total-coalesce_from lo n ns c

  -- The counting loop does not wrap.
  pub bytes_from-total :
      (gap lo bytes : ℕ) (ns : List ListNode)
      → bytes ≤ lo
      → lo ≤ hi
      → Chain gap lo hi ns
      → bytes_from bytes ns ≡ bytes + total ns
  unfolding bytes_from add64
  bytes_from-total gap lo bytes [] h k c = omega arith
  bytes_from-total gap lo bytes (n ∷ []) h k c = omega arith
  bytes_from-total gap lo bytes (n ∷ m ∷ ns) h k c = omega (
    arith,
    bytes_from-total gap (n.start_addr + n.size + gap) (add64 bytes n.size) (m ∷ ns) (omega arith)
        (omega arith) c.4,
  )
