-- ===== src/Allocator/LinkedList/PutBack.antt =====
-- `find_region` of src/allocator/linkedlist.rs gives a slice back only if it can hold a header.
use apogee.Base.{
  ℕ, ◌+◌, ◌≤◌, ◌<◌, ◌≡◌, refl, ◌⊎◌, ◌&&◌, ◌||◌, leb, leb→le, Bool-cases, inl, inr, arith,
}
use apogee.Allocator.LinkedList.{LinkedListAllocator, put_back}
use apogee.Allocator.LinkedList.Chain.{Apart}
use apogee.Allocator.LinkedList.Bytes.{in_block, is_free, total}
use apogee.Allocator.LinkedList.Insert.{
  IsWellFormed, IsSpare, add_free_region-IsWellFormed, is_free-add_free_region,
  total-add_free_region, Apart-add_free_region,
}

module _ (a : LinkedListAllocator) (addr size : ℕ) (w : IsWellFormed a)
    (s : 16 ≤ size → IsSpare a addr size) where
  pub put_back-IsWellFormed : IsWellFormed (put_back a addr size)
  unfolding put_back
  put_back-IsWellFormed = elim (Bool-cases (leb 16 size)) [
    | inl fits ↦ rw fits (add_free_region-IsWellFormed a addr size w (s (leb→le _ _ fits)))
    | inr small ↦ rw small (w)
  ]

  pub is_free-put_back :
      (x : ℕ)
      → is_free x (put_back a addr size).head
        ≡ (leb 16 size && in_block addr size x || is_free x a.head)
  unfolding put_back
  is_free-put_back x = elim (Bool-cases (leb 16 size)) [
    | inl fits ↦ rw fits (is_free-add_free_region a addr size w (s (leb→le _ _ fits)) x)
    | inr small ↦ rw small (refl)
  ]

  -- At most 15 bytes are lost.
  pub total-put_back :
      (total a.head ≤ total (put_back a addr size).head)
      × (total (put_back a addr size).head ≤ size + total a.head)
      × (size + total a.head < total (put_back a addr size).head + 16)
  unfolding put_back
  total-put_back = elim (Bool-cases (leb 16 size)) [
    | inl fits ↦ rw fits (omega (arith, total-add_free_region a addr size w (s (leb→le _ _ fits))))
    | inr small ↦ rw small (ground arith)
  ]

  pub Apart-put_back :
      (b t : ℕ)
      → 0 < t
      → (addr + size ≤ b) ⊎ (b + t ≤ addr)
      → Apart b t a.head
      → Apart b t (put_back a addr size).head
  unfolding put_back
  Apart-put_back b t pos h e = elim (Bool-cases (leb 16 size)) [
    | inl fits ↦ rw fits (Apart-add_free_region a addr size w (s (leb→le _ _ fits)) b t pos h e)
    | inr small ↦ rw small (e)
  ]

pub put_back-heap_start :
    (a : LinkedListAllocator) (addr size : ℕ) → (put_back a addr size).heap_start ≡ a.heap_start
unfolding put_back
put_back-heap_start a addr size = ground arith

pub put_back-heap_end :
    (a : LinkedListAllocator) (addr size : ℕ) → (put_back a addr size).heap_end ≡ a.heap_end
unfolding put_back
put_back-heap_end a addr size = ground arith
