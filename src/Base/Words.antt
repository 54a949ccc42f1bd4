-- ===== src/Base/Words.antt =====
-- Arithmetic on `usize` and `u64`, both 64 bits wide on the target, as Rust's release build does
-- it.
use Prim.Native.Nat.{ℕ, ◌+◌, ◌-◌, ◌^◌, ◌%◌, ◌<◌, ◌≤◌, min}
use mathlib.Core.Path.{◌≡◌}
use mathlib.Core.Option.{Option, none, some}
use native.Mathlib.Omega.{arith}
use apogee.Base.Tests.{ltb, if◌then◌else◌}

-- The number of values of a word.
abbrev pub word : ℕ
word = 2 ^ 64

-- `a + b` and `a - b`, which wrap.
unfoldable pub add64 : ℕ → ℕ → ℕ
add64 a b = (a + b) % word

unfoldable pub sub64 : ℕ → ℕ → ℕ
sub64 a b = (a + word - b) % word

-- `!a`
unfoldable pub not64 : ℕ → ℕ
not64 a = word - 1 - a

-- `a.checked_add(b)`, `a.saturating_add(b)`, `a.saturating_sub(b)`
unfoldable pub checked_add : ℕ → ℕ → Option ℕ
checked_add a b = if ltb (a + b) word then some (a + b) else none

unfoldable pub saturating_add : ℕ → ℕ → ℕ
saturating_add a b = min (a + b) (word - 1)

unfoldable pub saturating_sub : ℕ → ℕ → ℕ
saturating_sub a b = a - b

pub add64-eq-add : (a b : ℕ) → a + b < word → add64 a b ≡ a + b
unfolding add64
add64-eq-add a b h = omega arith

pub sub64-add64 : (a b : ℕ) → a < word → b < word → sub64 (add64 a b) b ≡ a
unfolding add64 sub64
sub64-add64 a b ha hb = omega arith

pub sub64-eq-sub : (a b : ℕ) → b ≤ a → a < word → sub64 a b ≡ a - b
unfolding sub64
sub64-eq-sub a b h k = omega arith
