-- ===== src/Allocator/LinkedList/Request.antt =====
-- `allocation_size` and `allocation_align` of src/allocator/linkedlist.rs on a valid layout.
use native.Mathlib.Nat.{pow-le-pow_right}
use apogee.Base.{ℕ, zero, suc, ◌+◌, ◌%◌, ◌^◌, ◌≤◌, ◌<◌, ◌≡◌, refl, max, arith}
use native.Mathlib.Decide.{dec_le}
use apogee.Allocator.{Layout}
use apogee.Allocator.Align.{IsLayout, align_up-eight, mod-pow-eight}
use apogee.Allocator.LinkedList.{allocation_size, allocation_align}

pub record IsRequest (l : Layout) (size : ℕ) : Type 0 where
  pub whole : size % 8 ≡ 0
  pub large : 16 ≤ size
  pub enough : l.size ≤ size
  pub near : size < l.size + 16

pub allocation_size-IsRequest : (l : Layout) → IsLayout l → IsRequest l (allocation_size l)
unfolding allocation_size
allocation_size-IsRequest l v = omega (arith, align_up-eight (max l.size 16) (omega arith))

-- The alignment used, as a power of two that every header address divides by.
pub record IsAlignment (l : Layout) (align : ℕ) : Type 0 where
  pub k : ℕ
  pub pow : align ≡ 2 ^ k
  pub k_from : 3 ≤ k
  pub k_to : k ≤ 62
  pub eight : (p : ℕ) → p % align ≡ 0 → p % 8 ≡ 0
  pub divides : (p : ℕ) → p % align ≡ 0 → p % l.align ≡ 0

small_pow : (e p : ℕ) → e ≤ 3 → p % 8 ≡ 0 → p % 2 ^ e ≡ 0
small_pow zero p h d = omega arith
small_pow (suc zero) p h d = omega arith
small_pow (suc (suc zero)) p h d = omega arith
small_pow (suc (suc (suc zero))) p h d = d
small_pow (suc (suc (suc (suc e)))) p h d = absurd (omega arith)

max_low : (e : ℕ) → e ≤ 3 → max (2 ^ e) 8 ≡ 8
max_low e h = omega (arith, pow-le-pow_right {n = 2} (omega arith) h)

max_high : (e : ℕ) → 3 ≤ e → max (2 ^ e) 8 ≡ 2 ^ e
max_high e h = omega (arith, pow-le-pow_right {n = 2} (omega arith) h)

pub allocation_align-IsAlignment : (l : Layout) → IsLayout l → IsAlignment l (allocation_align l)
unfolding allocation_align
allocation_align-IsAlignment l v = elim (dec_le v.exponent 3) [
  | yes low ↦
      rw (v.align_pow, max_low v.exponent low)
        (record {
          k = 3;
          pow = refl;
          k_from = omega arith;
          k_to = omega arith;
          eight = λ p d. d;
          divides = λ p d. small_pow v.exponent p low d;
        })
  | no high ↦
      rw (v.align_pow, max_high v.exponent (omega arith))
        (record {
          k = v.exponent;
          pow = refl;
          k_from = omega arith;
          k_to = v.exponent_le;
          eight = λ p d. mod-pow-eight p v.exponent (omega arith) d;
          divides = λ p d. d;
        })
]
