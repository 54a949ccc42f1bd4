-- ===== src/Allocator/LinkedList/Client/Sound.antt =====
-- A client of src/allocator/linkedlist.rs over any sequence of calls.
use apogee.Base.{
  ℕ, ◌≡◌, refl, inl, inr, List, [], ◌∷◌, some, true, ◌==◌, ==_iff, get_elem?, Bool-cases,
  Option-cases, All, arith,
}
use apogee.Allocator.{Layout}
use apogee.Allocator.Align.{IsLayout}
use apogee.Allocator.LinkedList.{LinkedListAllocator, alloc, dealloc, dealloc_asserts}
use apogee.Allocator.LinkedList.Safety.{alloc-IsAllocated, alloc_null, dealloc_lem}
use apogee.Allocator.LinkedList.Client.{Block}
use apogee.Allocator.LinkedList.Client.{Heap, Call, allocs, frees, step, run, IsValidCall, IsSound}
use apogee.Allocator.LinkedList.Client.Held.{Held-alloc, got_IsSpare, Held-dealloc, Held-get}

step_allocs-IsSound : (h : Heap) (l : Layout) → IsLayout l → IsSound h → IsSound (step h (allocs l))
unfolding step
step_allocs-IsSound h l v s =
    let a = h.allocator in
    let b : LinkedListAllocator = (alloc a l).0 in
    let p : ℕ = (alloc a l).1 in
    elim (Bool-cases (p == 0)) [
      | inl null ↦
          let same : b ≡ a = (alloc_null l a v s.well_formed s.not_null).1 ((==_iff p 0).0 null) in
          rw (null, step)
            (rw same (record { well_formed = s.well_formed; not_null = s.not_null; held = s.held }))
      | inr real ↦
          let (got, _) = alloc-IsAllocated l a b p v s.well_formed refl (ground arith) in
          let (kept, apart) = Held-alloc l a b p v h.live got s.held in
          rw (real, step)
            (record {
              well_formed = got.well_formed;
              not_null = omega (arith, got.same_start, s.not_null);
              held = (v, got_IsSpare l a b p v got, apart, kept);
            })
    ]

step_frees-IsSound : (h : Heap) (i : ℕ) → IsSound h → IsSound (step h (frees i))
unfolding step
step_frees-IsSound h i s = elim (Option-cases (get_elem? h.live i)) [
  | inl missing ↦ rw (missing, step) s
  | inr (b, found) ↦
      let (v, spare, apart, rest) = Held-get h.allocator i h.live b s.held found in
      let freed = dealloc_lem b.layout h.allocator b.ptr v s.well_formed spare in
      rw (found, step)
        (record {
          well_formed = freed.0;
          not_null = unfold dealloc in s.not_null;
          held = Held-dealloc h.allocator b _ s.well_formed spare apart rest;
        })
]

step-IsSound : (h : Heap) (c : Call) → IsValidCall c → IsSound h → IsSound (step h c)
step-IsSound h (allocs l) v s = step_allocs-IsSound h l v s
step-IsSound h (frees i) v s = step_frees-IsSound h i s

-- From a sound heap, whatever a client does that asks for valid layouts and frees only blocks
-- which it holds, each once, the free list stays in address order, coalesced and inside the heap,
-- and every block that it holds stays inside the heap, aligned for a header, disjoint from every
-- other block and apart from the free list.
pub run-IsSound : (h : Heap) (cs : List Call) → All IsValidCall cs → IsSound h → IsSound (run h cs)
unfolding run
run-IsSound h [] v s = s
run-IsSound h (c ∷ cs) v s = run-IsSound (step h c) cs v.1 (step-IsSound h c v.0 s)

-- In every state that a client reaches from a sound heap, by asking for valid layouts and freeing
-- blocks which it holds, no debug assertion fails when it frees a block.
pub run-dealloc_asserts :
    (h : Heap) (cs : List Call) (i : ℕ) (b : Block)
    → All IsValidCall cs
    → IsSound h
    → get_elem? (run h cs).live i ≡ some b
    → dealloc_asserts (run h cs).allocator b.ptr b.layout ≡ true
run-dealloc_asserts h cs i b v s e =
    let r = run-IsSound h cs v s in
    let (layout, spare, _, _) = Held-get (run h cs).allocator i (run h cs).live b r.held e in
    (dealloc_lem b.layout (run h cs).allocator b.ptr layout r.well_formed spare).3
