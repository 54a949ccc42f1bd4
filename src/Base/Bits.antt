-- ===== src/Base/Bits.antt =====
-- Laws of `bit_and` at variables: its lowest digit, and a mask of high ones.
use Prim.Native.Nat.{
  ℕ, zero, suc, ◌+◌, ◌-◌, ◌*◌, ◌/◌, ◌%◌, ◌^◌, ◌≤◌, ◌<◌, min, bit_and, digits, bit_and-bitwise,
}
use mathlib.Core.Path.{◌≡◌, refl, sym, ap, ap₂, ◌∙◌}
use native.Mathlib.Nat.{pow-suc, one-le-pow, zero-add, suc-add, mod-lt}
use native.Mathlib.Omega.{arith}

-- `bit_and` is a loop over the binary places; `rounds` bounds it, and the first number is a bound
-- that is always enough.
enough_rounds :
    (x rounds : ℕ)
    → x ≤ rounds
    → (y more : ℕ) → x ≤ more
    → digits (λ t. zero) min rounds x y ≡ digits (λ t. zero) min more x y
enough_rounds (suc x) (suc rounds) below y (suc more) below' =
    let shorter = enough_rounds (suc x / 2) rounds (omega arith) (y / 2) more (omega arith) in
    omega (arith, shorter)
enough_rounds (suc x) zero below y more below' = absurd (omega arith)
enough_rounds (suc x) (suc rounds) below y zero below' = absurd (omega arith)
enough_rounds zero zero below y zero below' = refl
enough_rounds zero zero below y (suc more) below' = refl
enough_rounds zero (suc rounds) below y zero below' = refl
enough_rounds zero (suc rounds) below y (suc more) below' = refl

zero-bit_and : (y : ℕ) → bit_and 0 y ≡ 0
zero-bit_and = bit_and-bitwise 0

-- The lowest place, and the rest.
pub bit_and_step : (x y : ℕ) → bit_and x y ≡ bit_and (x / 2) (y / 2) * 2 + min (x % 2) (y % 2)
bit_and_step zero y = omega (arith, zero-bit_and (y / 2), zero-bit_and y)
bit_and_step (suc x) y =
    let half = suc x / 2 in
    let here = bit_and-bitwise (suc x) y in
    let there = bit_and-bitwise half (y / 2) in
    omega (arith, here, there, enough_rounds half x (omega arith) (y / 2) half (omega arith))

bit_and_zero_below : (n x : ℕ) → x ≤ n → bit_and x 0 ≡ 0
bit_and_zero_below n zero h = zero-bit_and 0
bit_and_zero_below zero (suc x) h = absurd (omega arith)
bit_and_zero_below (suc n) (suc x) h =
    omega (arith, bit_and_step (suc x) 0, bit_and_zero_below n (suc x / 2) (omega arith))

-- The two lowest places.
pub bit_and_three : (x : ℕ) → bit_and x 3 ≡ x % 4
bit_and_three x = omega (
  arith,
  bit_and_step x 3,
  bit_and_step (x / 2) 1,
  bit_and_zero_below (x / 2 / 2) (x / 2 / 2) (omega arith),
)

shifted_twice : (n place : ℕ) → n * 2 ^ suc place ≡ 2 * (n * 2 ^ place)
shifted_twice n place =
    let power : 2 ^ suc place ≡ 2 ^ place * 2 = pow-suc 2 place in omega (arith, ap (◌*◌ n) power)

-- A mask of `w` ones keeps a number of `w` bits.
bit_and_ones : (w x : ℕ) → x < 2 ^ w → bit_and x (2 ^ w - 1) ≡ x
bit_and_ones zero zero h = zero-bit_and 0
bit_and_ones zero (suc x) h = absurd (omega arith)
bit_and_ones (suc w) x h = ground (
  arith,
  bit_and_step x (2 ^ suc w - 1),
  pow-suc 2 w,
  one-le-pow w 2,
  bit_and_ones w (x / 2) (omega (arith, pow-suc 2 w)),
)

-- A mask of `j` ones above `k` zeros clears the `k` low bits.
bit_and_high :
    (k j q r : ℕ)
    → q < 2 ^ j
    → r < 2 ^ k
    → bit_and (q * 2 ^ k + r) ((2 ^ j - 1) * 2 ^ k) ≡ q * 2 ^ k
bit_and_high zero j q r hq hr = ground (arith, bit_and_ones j q hq)
bit_and_high (suc k) j q r hq hr = ground (
  arith,
  bit_and_step (q * 2 ^ suc k + r) ((2 ^ j - 1) * 2 ^ suc k),
  shifted_twice q k,
  shifted_twice (2 ^ j - 1) k,
  pow-suc 2 k,
  bit_and_high k j q (r / 2) hq (omega (arith, pow-suc 2 k)),
)

pub pow_split : (k d : ℕ) → 2 ^ (k + d) ≡ 2 ^ d * 2 ^ k
pow_split zero d = ground (arith, ap (λ (t : ℕ). 2 ^ t) (zero-add d))
pow_split (suc k) d = ground (
  arith,
  ap (λ (t : ℕ). 2 ^ t) (suc-add k d),
  pow-suc 2 (k + d),
  shifted_twice (2 ^ d) k,
  pow_split k d,
)

pub word_split : (k : ℕ) → k ≤ 64 → 2 ^ (64 - k) * 2 ^ k ≡ 2 ^ 64
word_split k h =
    let e : k + (64 - k) ≡ 64 = omega arith in sym (pow_split k (64 - k)) ∙ ap (λ (t : ℕ). 2 ^ t) e

lt_of_mul-lt : (p j q : ℕ) → q * p < j * p → q < j
lt_of_mul-lt p j q h = grind arith

div_lt : (p j y : ℕ) → 0 < p → y < j * p → y / p < j
div_lt p j y hp h = lt_of_mul-lt p j (y / p) (grind arith)

pred_mul : (a p : ℕ) → (a - 1) * p ≡ a * p - p
pred_mul zero p = omega arith
pred_mul (suc a) p = let e : suc a - 1 ≡ a = omega arith in rw e (omega arith)

-- `y & !(2^k - 1)` on a word clears the `k` low bits.
pub bit_and_align :
    (k y : ℕ) → k ≤ 64 → y < 2 ^ 64 → bit_and y (2 ^ 64 - 1 - (2 ^ k - 1)) ≡ y / 2 ^ k * 2 ^ k
bit_and_align k y hk hy =
    let pos : 0 < 2 ^ k = one-le-pow k 2 (omega arith) in
    let mask : 2 ^ 64 - 1 - (2 ^ k - 1) ≡ (2 ^ (64 - k) - 1) * 2 ^ k =
      omega (arith, word_split k hk, pred_mul (2 ^ (64 - k)) (2 ^ k)) in
    let parts : y ≡ y / 2 ^ k * 2 ^ k + y % 2 ^ k = omega arith in
    let small : y / 2 ^ k < 2 ^ (64 - k) =
      div_lt (2 ^ k) (2 ^ (64 - k)) y pos (omega (arith, word_split k hk)) in
    ap₂ bit_and parts mask ∙ bit_and_high k (64 - k) (y / 2 ^ k) (y % 2 ^ k) small (mod-lt y pos)
