-- ===== src/Allocator/FixedSizeBlock/Client/Blocks.antt =====
-- The backing layouts of src/allocator/fixed_size_block.rs.
use native.Mathlib.Nat.{pow-le-pow_right, pow-suc, one-le-pow}
use native.Mathlib.Decide.{dec_le}
use apogee.Base.{
  ℕ, zero, suc, ◌+◌, ◌-◌, ◌%◌, ◌^◌, ◌≤◌, ◌<◌, ◌≡◌, refl, inl, inr, none, some, Option-cases, arith,
}
use apogee.Allocator.{Layout}
use apogee.Allocator.Align.{IsLayout, mod-pow, pow_bound}
use apogee.Allocator.FixedSizeBlock.{list_index, block_size}
use apogee.Allocator.FixedSizeBlock.Classes.{list_index_smallest}
use apogee.Allocator.FixedSizeBlock.Client.{class_layout, backing}

-- The sizes are the powers of two from 8 to 4096.
class_pow : (i : ℕ) → i < 10 → block_size i ≡ 2 ^ (3 + i)
class_pow zero h = refl
class_pow (suc zero) h = refl
class_pow (suc (suc zero)) h = refl
class_pow (suc (suc (suc zero))) h = refl
class_pow (suc (suc (suc (suc zero)))) h = refl
class_pow (suc (suc (suc (suc (suc zero))))) h = refl
class_pow (suc (suc (suc (suc (suc (suc zero)))))) h = refl
class_pow (suc (suc (suc (suc (suc (suc (suc zero))))))) h = refl
class_pow (suc (suc (suc (suc (suc (suc (suc (suc zero)))))))) h = refl
class_pow (suc (suc (suc (suc (suc (suc (suc (suc (suc zero))))))))) h = refl
class_pow (suc (suc (suc (suc (suc (suc (suc (suc (suc (suc i)))))))))) h = absurd (omega arith)

pub class_layout-IsLayout : (i : ℕ) → i < 10 → IsLayout (class_layout i)
class_layout-IsLayout i h =
    let pow : block_size i ≡ 2 ^ (3 + i) = class_pow i h in
    record {
      exponent = 3 + i;
      align_pow = pow;
      exponent_le = omega arith;
      size_pos = omega (arith, pow, one-le-pow (3 + i) 2 (omega arith));
      size_lt = omega (arith, pow, pow_bound (3 + i) (omega arith));
    }

exponent_le : (e k : ℕ) → 2 ^ e ≤ 2 ^ k → e ≤ k
exponent_le e k h = elim (dec_le e k) [
  | yes le ↦ le
  | no gt ↦ absurd (
      omega (
        arith,
        pow-le-pow_right {n = 2} (omega arith) {i = suc k} {j = e} (omega arith),
        pow-suc 2 k,
        one-le-pow k 2 (omega arith),
      ))
]

pub backing-none : (l : Layout) → list_index l ≡ none → backing l ≡ l
unfolding backing
backing-none l e = rw (e, backing) refl

pub backing-some : (l : Layout) (i : ℕ) → list_index l ≡ some i → backing l ≡ class_layout i
unfolding backing
backing-some l i e = rw (e, backing) refl

-- A backing layout is valid, holds the request's size, and its alignment is the request's or a
-- stricter one.
pub record IsBacking (l b : Layout) : Type 0 where
  pub layout : IsLayout b
  pub enough : l.size ≤ b.size
  pub stricter : (p : ℕ) → p % b.align ≡ 0 → p % l.align ≡ 0

class_layout-IsBacking :
    (l : Layout) (i : ℕ) → IsLayout l → list_index l ≡ some i → IsBacking l (class_layout i)
class_layout-IsBacking l i v e =
    let (below, size, align, _) = list_index_smallest l i e in
    let pow : block_size i ≡ 2 ^ (3 + i) = class_pow i below in
    let le : v.exponent ≤ 3 + i =
      exponent_le v.exponent (3 + i) (omega (arith, v.align_pow, pow)) in
    let split : 3 + i ≡ v.exponent + (3 + i - v.exponent) = omega arith in
    record {
      layout = class_layout-IsLayout i below;
      enough = size;
      stricter = λ p h.
          rw v.align_pow (mod-pow p v.exponent (3 + i - v.exponent) (rw (← split) (rw pow at h)));
    }

pub backing-IsBacking : (l : Layout) → IsLayout l → IsBacking l (backing l)
unfolding backing
backing-IsBacking l v = elim (Option-cases (list_index l)) [
  | inl none_fits ↦
      rw (none_fits, backing) (record { layout = v; enough = omega arith; stricter = λ p h. h })
  | inr (i, found) ↦ rw (found, backing) (class_layout-IsBacking l i v found)
]
