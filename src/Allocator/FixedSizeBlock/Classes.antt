-- ===== src/Allocator/FixedSizeBlock/Classes.antt =====
-- The size classes of src/allocator/fixed_size_block.rs.
use apogee.Base.{
  ℕ, suc, ◌+◌, ◌≤◌, ◌<◌, ◌≡◌, refl, ◌≢◌, inl, inr, List, [], ◌∷◌, none, some, max, leb, length,
  get_elem?, set, Bool-cases, zero, ◌↔◌, ap, All, le→leb, get_elem?-set_self, arith,
}
use apogee.Allocator.{Layout, align_up}
use apogee.Allocator.Align.{IsLayout}
use apogee.Allocator.LinkedList.{ListNode, allocation_size}
use apogee.Allocator.FixedSizeBlock.{
  FixedSizeBlockAllocator, position, list_index, block_size, block_sizes, size_at, alloc, park,
  dealloc,
}

-- The first place, counted from `i`, at which `position` finds a size that is large enough.
record IsFirst (required i : ℕ) (sizes : List ℕ) (j : ℕ) : Type 0 where
  k : ℕ
  place : j ≡ i + k
  in_range : k < length sizes
  enough : required ≤ size_at sizes k
  smallest : (m : ℕ) → m < k → size_at sizes m < required

position-IsFirst :
    (required i : ℕ) (sizes : List ℕ) (j : ℕ)
    → position required i sizes ≡ some j
    → IsFirst required i sizes j
unfolding position
position-IsFirst required i [] j e = absurd (ground arith)
position-IsFirst required i (s ∷ sizes) j e = elim (Bool-cases (leb required s)) [
  | inl fits ↦ record {
    k = 0;
    place = ground arith;
    in_range = omega arith;
    enough = ground arith;
    smallest = λ m h. absurd (omega arith);
  }
  | inr small ↦
      let later : IsFirst required (suc i) sizes j =
        position-IsFirst required (suc i) sizes j (ground arith) in
      record {
        k = suc later.k;
        place = omega (arith, later.place);
        in_range = omega (arith, later.in_range);
        enough = later.enough;
        smallest = before later (ground arith);
      }
]
  where
    before :
        (later : IsFirst required (suc i) sizes j)
        → s < required
        → (m : ℕ) → m < suc later.k
        → size_at (s ∷ sizes) m < required
    before later less zero h = less
    before later less (suc m) h = later.smallest m (omega arith)

-- A layout belongs to the smallest class that holds both its size and its alignment.
pub list_index_smallest :
    (l : Layout) (i : ℕ)
    → list_index l ≡ some i
    → (i < 10)
      × (l.size ≤ block_size i)
      × (l.align ≤ block_size i)
      × ((j : ℕ) → j < i → block_size j < max l.size l.align)
unfolding list_index
list_index_smallest l i e =
    let first : IsFirst (max l.size l.align) 0 block_sizes i =
      position-IsFirst (max l.size l.align) 0 block_sizes i e in
    let same : i ≡ first.k = omega (arith, first.place) in
    rw same
      (first.in_range, omega (arith, first.enough), omega (arith, first.enough), first.smallest)

-- It belongs to no class exactly when its size or its alignment exceeds 4096 bytes.
pub list_index-none : (l : Layout) → (list_index l ≡ none) ↔ (4096 < max l.size l.align)
unfolding list_index
list_index-none l = (λ e. ground arith, λ h. ground arith)

set-set_self {ℓ} :
    {A : Type ℓ} (xs : List A) (i : ℕ) (x y : A)
    → get_elem? xs i ≡ some x
    → set (set xs i y) i x ≡ xs
set-set_self [] i x y h = refl
set-set_self (z ∷ xs) zero x y h = ground arith
set-set_self (z ∷ xs) (suc i) x y h = ap (◌∷◌ z) (set-set_self xs i x y h)

pub get_elem?-lt {ℓ} :
    {A : Type ℓ} (xs : List A) (i : ℕ) → i < length xs → (x : A) × (get_elem? xs i ≡ some x)
get_elem?-lt [] i h = absurd (omega arith)
get_elem?-lt (z ∷ xs) zero h = (z, refl)
get_elem?-lt (z ∷ xs) (suc i) h = get_elem?-lt xs i (omega arith)

size_at-All :
    (low : ℕ) (sizes : List ℕ) (i : ℕ)
    → i < length sizes
    → All (λ s. low ≤ s) sizes
    → low ≤ size_at sizes i
size_at-All low [] i h a = absurd (omega arith)
size_at-All low (s ∷ sizes) zero h a = a.0
size_at-All low (s ∷ sizes) (suc i) h a = size_at-All low sizes i (omega arith) a.1

pub large_class : (i : ℕ) → i < 10 → i ≢ 0 → 16 ≤ block_size i
large_class zero h n = absurd (n refl)
large_class (suc i) h n =
    size_at-All 16 (16 ∷ 32 ∷ 64 ∷ 128 ∷ 256 ∷ 512 ∷ 1024 ∷ 2048 ∷ 4096 ∷ []) i (omega arith)
      (omega arith)

park_lem :
    (a : FixedSizeBlockAllocator) (i p : ℕ) (l : Layout)
    → i < length a.list_heads
    → list_index l ≡ some i
    → alloc (park a i p) l ≡ (a, p)
unfolding alloc park
park_lem a i p l h e =
    let (x, found) = get_elem?-lt a.list_heads i h in
    let node : ListNode = record { start_addr = p; size = block_size i } in
    ground (
      arith,
      get_elem?-set_self a.list_heads i (node ∷ x) x found,
      set-set_self a.list_heads i x (node ∷ x) found,
    )

-- A freed block of any class but the smallest is parked, and the next request of the same class
-- gets that block and finds the allocator as it was before the block was freed.
pub alloc-dealloc :
    (a : FixedSizeBlockAllocator) (p i : ℕ) (l m : Layout)
    → length a.list_heads ≡ 10
    → i ≢ 0
    → list_index l ≡ some i
    → list_index m ≡ some i
    → alloc (dealloc a p l) m ≡ (a, p)
unfolding dealloc
alloc-dealloc a p i l m h n e f =
    let small = list_index_smallest l i e in
    let large : 16 ≤ block_size i = large_class i small.0 n in
    rw (e, dealloc, le→leb 16 _ large, le→leb 8 (block_size i) (omega (arith, large)))
      (park_lem a i p m (omega (arith, small.0)) f)

-- A block of the smallest class goes back to the fallback with the size that it was taken with.
pub allocation_size_small :
    (l : Layout)
    → IsLayout l
    → list_index l ≡ some 0
    → allocation_size l ≡ allocation_size (record { size = block_size 0; align = block_size 0 })
unfolding allocation_size
allocation_size_small l v e =
    let small = list_index_smallest l 0 e in
    let rounded : max l.size 16 ≡ 16 = omega (arith, small.1) in
    ap (λ (t : ℕ). align_up t 8) rounded
