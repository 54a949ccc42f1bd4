-- ===== src/Allocator/Align.antt =====
-- What `align_up` of src/allocator/mod.rs computes when the alignment is a power of two.
use native.Mathlib.Nat.{one-le-pow, mod-lt, pow-le-pow_right, mul-mod_left, mod-add-div', mul_assoc}
use apogee.Base.{
  ℕ, ◌+◌, ◌-◌, ◌*◌, ◌/◌, ◌%◌, ◌^◌, ◌≤◌, ◌<◌, ◌≡◌, ap, ◌∙◌, word, add64, sub64, not64, bit_and_align,
  pow_split, arith,
}
use apogee.Allocator.{Layout, align_up}

-- What `Layout` promises of an allocation request: the alignment is a power of two, and the size,
-- which is not 0, stays within `isize::MAX` when it is rounded up to the alignment.
pub record IsLayout (l : Layout) : Type 0 where
  pub exponent : ℕ
  pub align_pow : l.align ≡ 2 ^ exponent
  pub exponent_le : exponent ≤ 62
  pub size_pos : 0 < l.size
  pub size_lt : l.size < 2 ^ 63

last_byte : (addr a : ℕ) → 1 ≤ a → addr + a ≤ word → sub64 (add64 addr a) 1 ≡ addr + a - 1
unfolding add64 sub64
last_byte addr a pos h = omega arith

mask : (a : ℕ) → 1 ≤ a → a < word → not64 (sub64 a 1) ≡ word - 1 - (a - 1)
unfolding not64 sub64
mask a pos h = omega arith

pow_le : (k : ℕ) → k ≤ 63 → 2 ^ k < word
pow_le k h = omega (arith, pow-le-pow_right {n = 2} (omega arith) h)

align_up_pow :
    (addr k : ℕ)
    → k ≤ 63
    → addr + 2 ^ k ≤ word
    → align_up addr (2 ^ k) ≡ (addr + 2 ^ k - 1) / 2 ^ k * 2 ^ k
unfolding align_up
align_up_pow addr k hk h =
    let pos : 1 ≤ 2 ^ k = one-le-pow k 2 (omega arith) in
    rw (last_byte addr (2 ^ k) pos h, mask (2 ^ k) pos (pow_le k hk))
      (bit_and_align k (addr + 2 ^ k - 1) (omega arith) (omega arith))

-- What it means to be the least multiple of `align` from `addr` on.
pub record IsAlignedUp (addr align r : ℕ) : Type 0 where
  pub aligned : r % align ≡ 0
  pub from : addr ≤ r
  pub near : r < addr + align

round_up : (addr a : ℕ) → 1 ≤ a → IsAlignedUp addr a ((addr + a - 1) / a * a)
round_up addr a pos = record {
  aligned = mul-mod_left _ a;
  from = omega (arith, mod-add-div' (addr + a - 1) a, mod-lt (addr + a - 1) pos);
  near = omega (arith, mod-add-div' (addr + a - 1) a);
}

-- `align_up` is the least multiple of a power of two that is not below the address, as long as the
-- address and the power do not exceed 2^64 together.
pub align_up-IsAlignedUp :
    (addr k : ℕ) → k ≤ 63 → addr + 2 ^ k ≤ word → IsAlignedUp addr (2 ^ k) (align_up addr (2 ^ k))
align_up-IsAlignedUp addr k hk h =
    rw (align_up_pow addr k hk h) (round_up addr (2 ^ k) (one-le-pow k 2 (omega arith)))

-- An aligned address stays where it is.
pub align_up-eight : (addr : ℕ) → addr + 8 ≤ word → align_up addr 8 ≡ (addr + 7) / 8 * 8
align_up-eight addr h =
    align_up_pow addr 3 (omega arith) h ∙ ap (λ (t : ℕ). t / 8 * 8) (omega arith)

-- A multiple of a power of two is a multiple of the smaller ones.
pub mod-pow : (r e d : ℕ) → r % 2 ^ (e + d) ≡ 0 → r % 2 ^ e ≡ 0
mod-pow r e d h =
    let q : ℕ = r / 2 ^ (e + d) * 2 ^ d in
    let whole : r ≡ q * 2 ^ e = omega (
      arith,
      mod-add-div' r (2 ^ (e + d)),
      ap (λ (t : ℕ). r / 2 ^ (e + d) * t) (pow_split e d),
      mul_assoc (r / 2 ^ (e + d)) (2 ^ d) (2 ^ e),
    ) in
    rw whole (mul-mod_left q (2 ^ e))

pub mod-pow-eight : (r k : ℕ) → 3 ≤ k → r % 2 ^ k ≡ 0 → r % 8 ≡ 0
mod-pow-eight r k h e =
    let split : k ≡ 3 + (k - 3) = omega arith in mod-pow r 3 (k - 3) (rw (← split) e)

pub pow_bound : (k : ℕ) → k ≤ 62 → 2 ^ k ≤ 2 ^ 62
pow_bound k h = pow-le-pow_right {n = 2} (omega arith) h
