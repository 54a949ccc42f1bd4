-- ===== src/Allocator/FixedSizeBlock/Client/Parked.antt =====
-- Moving a block between the client and the parked lists of src/allocator/fixed_size_block.rs.
use apogee.Base.{
  ℕ, suc, ◌+◌, ◌<◌, ◌≡◌, sym, ap, ◌∙◌, List, [], ◌∷◌, ◌++◌, length, append_assoc, map, zero, set,
  All, arith,
}
use apogee.Allocator.LinkedList.{ListNode, LinkedListAllocator}
use apogee.Allocator.LinkedList.Client.{Block, Disjoint, Held}
use apogee.Allocator.FixedSizeBlock.{FixedSizeBlockAllocator}
use apogee.Allocator.FixedSizeBlock.Client.{parked, all_parked, backed, taken}

module _ {ℓ} (P : Block → Type ℓ) where
  -- A block in the middle of a list, or in front of it.
  pub All-to_middle :
      (b : Block) (xs ys : List Block) → P b → All P (xs ++ ys) → All P (xs ++ b ∷ ys)
  All-to_middle b [] ys p a = (p, a)
  All-to_middle b (x ∷ xs) ys p (q, a) = (q, All-to_middle b xs ys p a)

  pub All-from_middle :
      (b : Block) (xs ys : List Block) → All P (xs ++ b ∷ ys) → P b × All P (xs ++ ys)
  All-from_middle b [] ys a = a
  All-from_middle b (x ∷ xs) ys (q, a) = let (p, rest) = All-from_middle b xs ys a in (p, (q, rest))

Disjoint-sym : (b c : Block) → Disjoint b c → Disjoint c b
Disjoint-sym b c d = omega arith

pub Held-to_middle :
    (a : LinkedListAllocator) (b : Block) (xs ys : List Block)
    → Held a (b ∷ xs ++ ys)
    → Held a (xs ++ b ∷ ys)
Held-to_middle a b [] ys h = h
Held-to_middle a b (x ∷ xs) ys (v, s, (d, ds), (w, t, e, rest)) = (
  w,
  t,
  All-to_middle (Disjoint x) b xs ys (Disjoint-sym b x d) e,
  Held-to_middle a b xs ys (v, s, ds, rest),
)

pub Held-from_middle :
    (a : LinkedListAllocator) (b : Block) (xs ys : List Block)
    → Held a (xs ++ b ∷ ys)
    → Held a (b ∷ xs ++ ys)
Held-from_middle a b [] ys h = h
Held-from_middle a b (x ∷ xs) ys (w, t, e, rest) =
    let (v, s, ds, others) = Held-from_middle a b xs ys rest in
    let (d, es) = All-from_middle (Disjoint x) b xs ys e in
    (v, s, (Disjoint-sym x b d, ds), (w, t, es, others))

-- The parked blocks before and after those of class `i`, whatever its list is.
pub record Around (k i : ℕ) (heads : List (List ListNode)) : Type 0 where
  pub before : List Block
  pub after : List Block
  pub here :
      (ns : List ListNode) → all_parked k (set heads i ns) ≡ before ++ (parked (k + i) ns ++ after)

pub around : (k i : ℕ) (heads : List (List ListNode)) → i < length heads → Around k i heads
around k i [] h = absurd (omega arith)
around k zero (ns ∷ heads) h = record {
  before = [];
  after = all_parked (suc k) heads;
  here = λ ms. ap (λ (j : ℕ). parked j ms ++ all_parked (suc k) heads) (omega arith);
}
around k (suc i) (ns ∷ heads) h =
    let rest = around (suc k) i heads (omega arith) in
    record {
      before = parked k ns ++ rest.before;
      after = rest.after;
      here = λ ms.
          rw
            (
              rest.here ms,
              append_assoc (parked k ns) rest.before (parked (k + suc i) ms ++ rest.after),
            )
            (ap (λ (j : ℕ). parked k ns ++ (rest.before ++ (parked j ms ++ rest.after)))
              (omega arith));
    }

-- The blocks handed out, with the list of class `i` in the middle.
pub record Split (a : FixedSizeBlockAllocator) (live : List Block) (i : ℕ) : Type 0 where
  pub front : List Block
  pub back : List Block
  pub with_list :
      (ns : List ListNode)
      → taken (record a { list_heads = set a.list_heads i ns }) live
        ≡ (map backed live ++ front) ++ (parked i ns ++ back)

pub split :
    (a : FixedSizeBlockAllocator) (live : List Block) (i : ℕ)
    → i < length a.list_heads
    → Split a live i
split a live i h =
    let r = around 0 i a.list_heads h in
    let index : 0 + i ≡ i = omega arith in
    record {
      front = r.before;
      back = r.after;
      with_list = λ ns.
          ap (λ (ps : List Block). map backed live ++ ps) (r.here ns)
          ∙ ap (λ (j : ℕ). map backed live ++ (r.before ++ (parked j ns ++ r.after))) index
          ∙ sym (append_assoc (map backed live) r.before (parked i ns ++ r.after));
    }
