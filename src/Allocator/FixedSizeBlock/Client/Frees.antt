-- ===== src/Allocator/FixedSizeBlock/Client/Frees.antt =====
-- The slab allocator of src/allocator/fixed_size_block.rs taking back a client's block.
use apogee.Base.{
  ℕ, zero, suc, ◌≤◌, ◌≡◌, sym, ap, ◌∙◌, inl, inr, ◌∷◌, some, le→leb, length, get_elem?, length-set,
  Option-cases, subst, arith,
}
use apogee.Allocator.{Layout}
use apogee.Allocator.Align.{IsLayout}
use apogee.Allocator.LinkedList
use apogee.Allocator.LinkedList.{LinkedListAllocator, ListNode, allocation_size}
use apogee.Allocator.LinkedList.Insert.{IsWellFormed}
use apogee.Allocator.LinkedList.Safety.{dealloc_lem}
use apogee.Allocator.LinkedList.Client.{Block, remove_at}
use apogee.Allocator.LinkedList.Client.Held.{Held-dealloc}
use apogee.Allocator.FixedSizeBlock.{
  FixedSizeBlockAllocator, list_index, block_size, park, fallback_dealloc, dealloc,
}
use apogee.Allocator.FixedSizeBlock.Classes.{
  list_index_smallest, allocation_size_small, get_elem?-lt, large_class,
}
use apogee.Allocator.FixedSizeBlock.Client.{backing, backed, Heap, taken, IsSound}
use apogee.Allocator.FixedSizeBlock.Client.Blocks.{backing-none, backing-some}
use apogee.Allocator.FixedSizeBlock.Client.Moves.{
  Kept, Kept-park, parked_block, Kept-give_up, All-remove, All-at,
}

module _ (h : Heap) (j : ℕ) (b : Block) {start finish : ℕ} (s : IsSound start finish h)
    (found : get_elem? h.live j ≡ some b) where
  abbrev c : FixedSizeBlockAllocator
  c = h.allocator

  freed_IsSound :
      (d : FixedSizeBlockAllocator)
      → length d.list_heads ≡ 10
      → IsWellFormed d.fallback_allocator
      → d.fallback_allocator.heap_start ≡ start
      → d.fallback_allocator.heap_end ≡ finish
      → Kept d.fallback_allocator (taken d (remove_at j h.live))
      → IsSound start finish (record { allocator = d; live = remove_at j h.live })
  freed_IsSound d ten w starts ends (held, aligned) = record {
    ten = ten;
    well_formed = w;
    starts = starts;
    ends = ends;
    not_null = s.not_null;
    layouts = All-remove (λ (x : Block). IsLayout x.layout) j h.live s.layouts;
    held = held;
    aligned = aligned;
  }

  freed_fallback :
      allocation_size b.layout ≡ allocation_size (backing b.layout)
      → IsSound start finish
          (record { allocator = fallback_dealloc c b.ptr b.layout; live = remove_at j h.live })
  unfolding fallback_dealloc
  freed_fallback same =
      let ((v, spare, apart, others), (_, aligned)) =
        Kept-give_up c h.live j b found (s.held, s.aligned) in
      let g : LinkedListAllocator =
        LinkedList.dealloc c.fallback_allocator b.ptr (backing b.layout) in
      let equal : LinkedList.dealloc c.fallback_allocator b.ptr b.layout ≡ g =
        unfold LinkedList.dealloc in
        ap (λ (k : ℕ). LinkedList.add_free_region c.fallback_allocator b.ptr k) same in
      let freed = dealloc_lem (backing b.layout) c.fallback_allocator b.ptr v s.well_formed spare in
      freed_IsSound (fallback_dealloc c b.ptr b.layout) s.ten (rw equal freed.0)
        (unfold LinkedList.dealloc in s.starts) (unfold LinkedList.dealloc in s.ends)
        (
          rw equal (
              Held-dealloc c.fallback_allocator (backed b) (taken c (remove_at j h.live))
                s.well_formed spare apart others),
          aligned,
        )

  freed_parked :
      (i : ℕ)
      → list_index b.layout ≡ some i
      → IsSound start finish (record { allocator = park c i b.ptr; live = remove_at j h.live })
  unfolding park
  freed_parked i e =
      let kept = Kept-give_up c h.live j b found (s.held, s.aligned) in
      let below = list_index_smallest b.layout i e in
      let (ns, here) = get_elem?-lt c.list_heads i (omega (arith, below.0, s.ten)) in
      let block : backed b ≡ parked_block i b.ptr =
        ap (λ (m : Layout). record { ptr = b.ptr; layout = m }) (backing-some b.layout i e) in
      freed_IsSound (park c i b.ptr) (length-set c.list_heads i _ ∙ s.ten) s.well_formed s.starts
        s.ends
        (Kept-park c (remove_at j h.live) i b.ptr ns here (
          subst (λ (x : Block). Kept c.fallback_allocator (x ∷ taken c (remove_at j h.live))) block
            kept))

  pub dealloc-IsSound :
      IsSound start finish
        (record { allocator = dealloc c b.ptr b.layout; live = remove_at j h.live })
  unfolding dealloc
  dealloc-IsSound = elim (Option-cases (list_index b.layout)) [
    | inl none_fits ↦
        rw (none_fits, dealloc)
          (freed_fallback (ap allocation_size (sym (backing-none b.layout none_fits))))
    | inr (zero, e) ↦
        rw (e, dealloc)
          (freed_fallback (
            allocation_size_small b.layout
              (All-at (λ (x : Block). IsLayout x.layout) j h.live b found s.layouts) e
            ∙ ap allocation_size (sym (backing-some b.layout 0 e))))
    | inr (suc i, e) ↦
        let large : 16 ≤ block_size (suc i) =
          large_class (suc i) (list_index_smallest b.layout (suc i) e).0 (omega arith) in
        rw (e, dealloc, le→leb 16 _ large, le→leb 8 (block_size (suc i)) (omega (arith, large)))
          (freed_parked (suc i) e)
  ]
