-- ===== src/Allocator/LinkedList/Fits.antt =====
-- The first-fit walk of `find_region` in src/allocator/linkedlist.rs: what it finds, what it
-- leaves on the list, and what it means that it finds nothing.
use apogee.Base.{
  ℕ, ◌+◌, ◌-◌, ◌%◌, ◌^◌, ◌≤◌, ◌<◌, ◌≡◌, refl, ◌⊎◌, inl, inr, List, [], ◌∷◌, none, some, ◌||◌,
  checked_add, All, Option-cases, arith,
}
use apogee.Allocator.{align_up}
use apogee.Allocator.Align.{IsAlignedUp, align_up-IsAlignedUp, pow_bound}
use apogee.Allocator.LinkedList.{ListNode, Fit, fit, unlink_fit}
use apogee.Allocator.LinkedList.Chain.{Chain, Apart, Chain-mono, Apart-below, end_addr-eq}
use apogee.Allocator.LinkedList.Bytes.{in_block, is_free, total}

-- A placement of `size` bytes at alignment `align` in a region.
pub record IsFit (size align : ℕ) (f : Fit) : Type 0 where
  pub starts : f.region_start % 8 ≡ 0
  pub aligned : f.alloc_start % align ≡ 0
  pub from : f.region_start ≤ f.alloc_start
  pub near : f.alloc_start < f.region_start + align
  pub ends : f.alloc_end ≡ f.alloc_start + size
  pub within : f.alloc_end ≤ f.region_end

-- A region in which no aligned block of `size` bytes fits.
abbrev pub TooSmall : ℕ → ℕ → ListNode → Type 0
TooSmall size align n = n.start_addr + n.size < align_up n.start_addr align + size

-- What the walk hands to the rest of `find_region`: a fit, and a list that with the fit's region
-- put back would be the old one.
pub record IsUnlinked (size align lo hi : ℕ) (ns : List ListNode) (f : Fit) (others : List ListNode)
    : Type 0 where
  pub fits : IsFit size align f
  pub above : lo ≤ f.region_start
  pub below : f.region_end ≤ hi
  pub chain : Chain 1 lo hi others
  pub apart : Apart f.region_start (f.region_end - f.region_start) others
  pub bytes :
      (x : ℕ)
      → is_free x ns
        ≡ (in_block f.region_start (f.region_end - f.region_start) x || is_free x others)
  pub sum : total ns ≡ (f.region_end - f.region_start) + total others
  pub splits :
      (c t : ℕ) → Apart c t ns → Apart c t others × ((f.region_end ≤ c) ⊎ (c + t ≤ f.region_start))

module _ (size k hi : ℕ) (small : k ≤ 62) (bounded : hi ≤ 2 ^ 63) where
  rounded : (addr : ℕ) → addr ≤ hi → IsAlignedUp addr (2 ^ k) (align_up addr (2 ^ k))
  rounded addr h = align_up-IsAlignedUp addr k (omega arith) (omega (arith, pow_bound k small))

  fit-IsFit :
      (n : ListNode) (f : Fit)
      → n.start_addr % 8 ≡ 0
      → n.start_addr + n.size ≤ hi
      → fit n size (2 ^ k) ≡ some f
      → IsFit size (2 ^ k) f
        × (f.region_start ≡ n.start_addr)
        × (f.region_end ≡ n.start_addr + n.size)
  unfolding fit checked_add
  fit-IsFit n f s h e =
      ground (arith, end_addr-eq n (omega arith), rounded n.start_addr (omega arith))

  fit-TooSmall :
      (n : ListNode)
      → n.start_addr + n.size ≤ hi
      → fit n size (2 ^ k) ≡ none
      → TooSmall size (2 ^ k) n
  unfolding fit checked_add
  fit-TooSmall n h e = ground (arith, end_addr-eq n (omega arith))

  unlink_here :
      (lo : ℕ) (n : ListNode) (ns : List ListNode) (f : Fit)
      → Chain 1 lo hi (n ∷ ns)
      → fit n size (2 ^ k) ≡ some f
      → IsUnlinked size (2 ^ k) lo hi (n ∷ ns) f ns
  unlink_here lo n ns f c e =
      let (fits, starts, ends) = fit-IsFit n f c.1 c.3 e in
      let length_eq : f.region_end - f.region_start ≡ n.size = omega arith in
      record {
        fits = fits;
        above = omega arith;
        below = omega arith;
        chain = Chain-mono 1 (n.start_addr + n.size + 1) lo hi ns (omega arith) c.4;
        apart = Apart-below 1 (n.start_addr + n.size + 1) hi f.region_start _ ns (omega arith) c.4;
        bytes = λ x. rw (length_eq, starts) refl;
        sum = rw length_eq refl;
        splits = λ c' t e'. (e'.1, omega arith);
      }

  unlink_later :
      (lo : ℕ) (n : ListNode) (ns : List ListNode) (f : Fit) (others : List ListNode)
      → Chain 1 lo hi (n ∷ ns)
      → IsUnlinked size (2 ^ k) (n.start_addr + n.size + 1) hi ns f others
      → IsUnlinked size (2 ^ k) lo hi (n ∷ ns) f (n ∷ others)
  unlink_later lo n ns f others c u = record {
    fits = u.fits;
    above = omega arith;
    below = u.below;
    chain = (c.0, c.1, c.2, c.3, u.chain);
    apart = (inl (omega arith), u.apart);
    bytes = λ x. ground (arith, u.bytes x);
    sum = omega (arith, u.sum);
    splits = λ c' t e. ((e.0, (u.splits c' t e.1).0), (u.splits c' t e.1).1);
  }

  pub unlink_fit-IsUnlinked :
      (lo : ℕ) (ns : List ListNode) (f : Fit) (others : List ListNode)
      → Chain 1 lo hi ns
      → unlink_fit ns size (2 ^ k) ≡ some (f, others)
      → IsUnlinked size (2 ^ k) lo hi ns f others
  unfolding unlink_fit
  unlink_fit-IsUnlinked lo [] f others c e = cc
  unlink_fit-IsUnlinked lo (n ∷ ns) f others c e = elim (Option-cases (fit n size (2 ^ k))) [
    | inr (g, hit) ↦
        let same : g ≡ f = ground arith in
        let left : ns ≡ others = ground arith in rw (← left, ← same) (unlink_here lo n ns g c hit)
    | inl miss ↦ elim (Option-cases (unlink_fit ns size (2 ^ k))) [
      | inl nothing ↦ absurd (ground arith)
      | inr ((g, rest), found) ↦
          let same : g ≡ f = ground arith in
          let left : n ∷ rest ≡ others = ground arith in
          rw (← left, ← same)
            (unlink_later lo n ns g rest c
              (unlink_fit-IsUnlinked (n.start_addr + n.size + 1) ns g rest c.4 found))
    ]
  ]

  -- The walk finds nothing only if no region is large enough.
  pub unlink_fit-TooSmall :
      (lo : ℕ) (ns : List ListNode)
      → Chain 1 lo hi ns
      → unlink_fit ns size (2 ^ k) ≡ none
      → All (TooSmall size (2 ^ k)) ns
  unfolding unlink_fit
  unlink_fit-TooSmall lo [] c e = tt
  unlink_fit-TooSmall lo (n ∷ ns) c e =
      ground (arith, fit-TooSmall n c.3, unlink_fit-TooSmall (n.start_addr + n.size + 1) ns c.4)

  fit-none :
      (n : ListNode)
      → n.start_addr + n.size ≤ hi
      → TooSmall size (2 ^ k) n
      → fit n size (2 ^ k) ≡ none
  unfolding fit checked_add
  fit-none n h e = ground (arith, end_addr-eq n (omega arith))

  pub unlink_fit-none :
      (lo : ℕ) (ns : List ListNode)
      → Chain 1 lo hi ns
      → All (TooSmall size (2 ^ k)) ns
      → unlink_fit ns size (2 ^ k) ≡ none
  unfolding unlink_fit
  unlink_fit-none lo [] c e = refl
  unlink_fit-none lo (n ∷ ns) c e =
      ground (arith, fit-none n c.3 e.0, unlink_fit-none (n.start_addr + n.size + 1) ns c.4 e.1)
