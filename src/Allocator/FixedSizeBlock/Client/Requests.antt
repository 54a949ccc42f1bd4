-- ===== src/Allocator/FixedSizeBlock/Client/Requests.antt =====
-- The slab allocator of src/allocator/fixed_size_block.rs answering a client's request.
use apogee.Base.{
  ℕ, ◌%◌, ◌<◌, ◌≡◌, refl, sym, ◌∙◌, ◌≢◌, inl, inr, List, ◌∷◌, some, false, ◌==◌, ==_iff,
  if◌then◌else◌, get_elem?, set, length-set, Bool-cases, Option-cases, List-cases, arith,
}
use apogee.Allocator.{Layout}
use apogee.Allocator.Align.{IsLayout}
use apogee.Allocator.LinkedList
use apogee.Allocator.LinkedList.{LinkedListAllocator, ListNode, allocation_size}
use apogee.Allocator.LinkedList.Insert.{IsWellFormed}
use apogee.Allocator.LinkedList.Safety.{alloc-IsAllocated, alloc_null}
use apogee.Allocator.LinkedList.Client.{Block, Held}
use apogee.Allocator.LinkedList.Client.Held.{Held-alloc, got_IsSpare}
use apogee.Allocator.FixedSizeBlock.{
  FixedSizeBlockAllocator, list_index, list_head, fallback_alloc, alloc,
}
use apogee.Allocator.FixedSizeBlock.Classes.{list_index_smallest}
use apogee.Allocator.FixedSizeBlock.Client.{class_layout, backing, Heap, taken, IsSound}
use apogee.Allocator.FixedSizeBlock.Client.Blocks.{
  class_layout-IsLayout, backing-none, backing-some,
}
use apogee.Allocator.FixedSizeBlock.Client.Moves.{Kept-unpark}

-- What the fallback hands out joins the blocks that are held.
record Handed (f g : LinkedListAllocator) (m : Layout) (p : ℕ) (bs : List Block) : Type 0 where
  well_formed : IsWellFormed g
  same_start : g.heap_start ≡ f.heap_start
  same_end : g.heap_end ≡ f.heap_end
  held : Held g (record { ptr = p; layout = m } ∷ bs)
  aligned : p % m.align ≡ 0

handed :
    (f g : LinkedListAllocator) (m : Layout) (p : ℕ) (bs : List Block)
    → IsLayout m
    → IsWellFormed f
    → 0 < f.heap_start
    → LinkedList.alloc f m ≡ (g, p)
    → p ≢ 0
    → Held f bs
    → Handed f g m p bs
handed f g m p bs v w pos e real h =
    let (got, aligned) = alloc-IsAllocated m f g p v w e real in
    let (kept, apart) = Held-alloc m f g p v bs got h in
    record {
      well_formed = got.well_formed;
      same_start = omega (arith, got.same_start);
      same_end = omega (arith, got.same_end);
      held = (v, got_IsSpare m f g p v got, apart, kept);
      aligned = aligned;
    }

-- What the client's heap is after a request was answered with `p`.
abbrev pub answered : Heap → Layout → FixedSizeBlockAllocator × ℕ → Heap
answered h l r =
    if r.1 == 0
    then record h { allocator = r.0 }
    else record { allocator = r.0; live = record { ptr = r.1; layout = l } ∷ h.live }

module _ (h : Heap) (l : Layout) (v : IsLayout l) {start finish : ℕ}
    (s : IsSound start finish h) where
  abbrev a : FixedSizeBlockAllocator
  a = h.allocator

  abbrev f : LinkedListAllocator
  f = a.fallback_allocator

  answered_fallback :
      (m : Layout)
      → IsLayout m
      → backing l ≡ m
      → IsSound start finish (answered h l (fallback_alloc a m))
  unfolding fallback_alloc
  answered_fallback m w same =
      let g : LinkedListAllocator = (LinkedList.alloc f m).0 in
      let p : ℕ = (LinkedList.alloc f m).1 in
      elim (Bool-cases (p == 0)) [
        | inl null ↦
            let kept : g ≡ f =
              (alloc_null m f w s.well_formed (omega (arith, s.starts, s.not_null))).1
                ((==_iff p 0).0 null) in
            rw null (
              rw kept (record {
                ten = s.ten;
                well_formed = s.well_formed;
                starts = s.starts;
                ends = s.ends;
                not_null = s.not_null;
                layouts = s.layouts;
                held = s.held;
                aligned = s.aligned;
              }))
        | inr real ↦
            let got =
              handed f g m p (taken a h.live) w s.well_formed (omega (arith, s.starts, s.not_null))
                refl (ground arith) s.held in
            rw real (record {
              ten = s.ten;
              well_formed = got.well_formed;
              starts = omega (arith, got.same_start, s.starts);
              ends = omega (arith, got.same_end, s.ends);
              not_null = s.not_null;
              layouts = (v, s.layouts);
              held = rw same got.held;
              aligned = (rw same got.aligned, s.aligned);
            })
      ]

  answered_parked :
      (i : ℕ) (node : ListNode) (next : List ListNode)
      → list_index l ≡ some i
      → get_elem? a.list_heads i ≡ some (node ∷ next)
      → IsSound start finish
          (answered h l (record a { list_heads = set a.list_heads i next }, node.start_addr))
  answered_parked i node next e found =
      let (held, aligned) = Kept-unpark a h.live i node next found (s.held, s.aligned) in
      let real : (node.start_addr == 0) ≡ false =
        ground (arith, held.1.above, s.starts, s.not_null) in
      let same : class_layout i ≡ backing l = sym (backing-some l i e) in
      let b : Block = record { ptr = node.start_addr; layout = class_layout i } in
      rw real (record {
        ten = length-set a.list_heads i next ∙ s.ten;
        well_formed = s.well_formed;
        starts = s.starts;
        ends = s.ends;
        not_null = s.not_null;
        layouts = (v, s.layouts);
        held = rw (← same) held;
        aligned = rw (← same) aligned;
      })

  pub alloc-IsSound : IsSound start finish (answered h l (alloc a l))
  unfolding alloc
  alloc-IsSound = elim (Option-cases (list_index l)) [
    | inl none_fits ↦ rw (none_fits, alloc) (answered_fallback l v (backing-none l none_fits))
    | inr (i, e) ↦
        let below = list_index_smallest l i e in
        elim (List-cases (list_head a i)) [
          | inl empty ↦
              rw (e, alloc, empty)
                (answered_fallback (class_layout i) (class_layout-IsLayout i below.0)
                  (backing-some l i e))
          | inr (node, next, full) ↦
              rw (e, alloc, full) (answered_parked i node next e (ground arith))
        ]
  ]
