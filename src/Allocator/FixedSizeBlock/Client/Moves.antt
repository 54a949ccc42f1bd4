-- ===== src/Allocator/FixedSizeBlock/Client/Moves.antt =====
-- Parking a block and giving a parked one out, in src/allocator/fixed_size_block.rs.
use apogee.Base.{
  ℕ, zero, suc, ◌≡◌, refl, sym, ap, ◌∙◌, List, [], ◌∷◌, ◌++◌, some, map, get_elem?, set,
  set-get_elem?, get_elem?-length, All, arith, subst,
}
use apogee.Allocator.LinkedList.{LinkedListAllocator, ListNode}
use apogee.Allocator.LinkedList.Client.{Block, Held, remove_at}
use apogee.Allocator.LinkedList.Client.Held.{Held-get}
use apogee.Allocator.FixedSizeBlock.{FixedSizeBlockAllocator, block_size, list_head, park}
use apogee.Allocator.FixedSizeBlock.Client.{
  class_layout, backed, parked, Aligned, taken, all_parked,
}
use apogee.Allocator.FixedSizeBlock.Client.Parked.{
  All-to_middle, All-from_middle, Held-to_middle, Held-from_middle, split,
}

-- What is known of the blocks that the fallback has handed out.
abbrev pub Kept : LinkedListAllocator → List Block → Type 0
Kept f bs = Held f bs × All Aligned bs

abbrev pub parked_block : ℕ → ℕ → Block
parked_block i p = record { ptr = p; layout = class_layout i }

module _ (a : FixedSizeBlockAllocator) (live : List Block) (i : ℕ) where
  abbrev f : LinkedListAllocator
  f = a.fallback_allocator

  same_taken :
      (ns : List ListNode)
      → get_elem? a.list_heads i ≡ some ns
      → taken (record a { list_heads = set a.list_heads i ns }) live ≡ taken a live
  same_taken ns e =
      ap (λ (heads : List (List ListNode)). taken (record a { list_heads = heads }) live)
        (set-get_elem? a.list_heads i ns e)

  pub Kept-unpark :
      (node : ListNode) (next : List ListNode)
      → get_elem? a.list_heads i ≡ some (node ∷ next)
      → Kept f (taken a live)
      → Kept f (
          parked_block i node.start_addr
          ∷ taken (record a { list_heads = set a.list_heads i next }) live)
  Kept-unpark node next e (h, v) =
      let s = split a live i (get_elem?-length a.list_heads i (node ∷ next) e) in
      let b : Block = parked_block i node.start_addr in
      let xs : List Block = map backed live ++ s.front in
      let ys : List Block = parked i next ++ s.back in
      let whole : xs ++ b ∷ ys ≡ taken a live =
        sym (s.with_list (node ∷ next)) ∙ same_taken (node ∷ next) e in
      rw (s.with_list next)
        (Held-from_middle f b xs ys (rw whole h), All-from_middle Aligned b xs ys (rw whole v))

  pub Kept-park :
      (p : ℕ) (ns : List ListNode)
      → get_elem? a.list_heads i ≡ some ns
      → Kept f (parked_block i p ∷ taken a live)
      → Kept f (taken (park a i p) live)
  unfolding park
  Kept-park p ns e (h, (q, v)) =
      let s = split a live i (get_elem?-length a.list_heads i ns e) in
      let b : Block = parked_block i p in
      let node : ListNode = record { start_addr = p; size = block_size i } in
      let xs : List Block = map backed live ++ s.front in
      let ys : List Block = parked i ns ++ s.back in
      let whole : xs ++ ys ≡ taken a live = sym (s.with_list ns) ∙ same_taken ns e in
      let head : list_head a i ≡ ns = rw (e, list_head) refl in
      rw (head, s.with_list (node ∷ ns))
        (Held-to_middle f b xs ys (rw whole h), All-to_middle Aligned b xs ys q (rw whole v))

pub get_taken :
    (live ys : List Block) (j : ℕ) (b : Block)
    → get_elem? live j ≡ some b
    → get_elem? (map backed live ++ ys) j ≡ some (backed b)
get_taken [] ys j b e = absurd (ground arith)
get_taken (c ∷ live) ys zero b e = let same : c ≡ b = ground arith in rw same refl
get_taken (c ∷ live) ys (suc j) b e = get_taken live ys j b e

pub remove_taken :
    (live ys : List Block) (j : ℕ) (b : Block)
    → get_elem? live j ≡ some b
    → remove_at j (map backed live ++ ys) ≡ map backed (remove_at j live) ++ ys
unfolding remove_at
remove_taken [] ys j b e = absurd (ground arith)
remove_taken (c ∷ live) ys zero b e = refl
remove_taken (c ∷ live) ys (suc j) b e = ap (◌∷◌ (backed c)) (remove_taken live ys j b e)

module _ {ℓ} (P : Block → Type ℓ) where
  pub All-remove : (j : ℕ) (bs : List Block) → All P bs → All P (remove_at j bs)
  unfolding remove_at
  All-remove j [] v = v
  All-remove zero (b ∷ bs) v = v.1
  All-remove (suc j) (b ∷ bs) v = (v.0, All-remove j bs v.1)

  pub All-at : (j : ℕ) (bs : List Block) (b : Block) → get_elem? bs j ≡ some b → All P bs → P b
  All-at j [] b e v = absurd (ground arith)
  All-at zero (c ∷ bs) b e v = let same : c ≡ b = ground arith in subst P same v.0
  All-at (suc j) (c ∷ bs) b e v = All-at j bs b e v.1

-- A block that the client gives up stands in front of the others.
pub Kept-give_up :
    (a : FixedSizeBlockAllocator) (live : List Block) (j : ℕ) (b : Block)
    → get_elem? live j ≡ some b
    → Kept a.fallback_allocator (taken a live)
    → Kept a.fallback_allocator (backed b ∷ taken a (remove_at j live))
Kept-give_up a live j b e (h, v) =
    let ys : List Block = all_parked 0 a.list_heads in
    let at : get_elem? (taken a live) j ≡ some (backed b) = get_taken live ys j b e in
    let (l, spare, apart, rest) = Held-get a.fallback_allocator j (taken a live) (backed b) h at in
    subst (λ (bs : List Block). Kept a.fallback_allocator (backed b ∷ bs))
      (remove_taken live ys j b e)
      (
        (l, spare, apart, rest),
        (All-at Aligned j (taken a live) (backed b) at v, All-remove Aligned j (taken a live) v),
      )
