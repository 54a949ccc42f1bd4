-- ===== src/Syscall/Window.antt =====
-- The check of user buffers in src/syscall.rs.
use apogee.Base.{
  ℕ, zero, suc, ◌+◌, ◌≤◌, ◌<◌, ◌≡◌, ◌≢◌, refl, ◌↔◌, ◌⊎◌, inl, inr, List, [], ◌∷◌, Option, none,
  some, Option-cases, length, arith,
}
use apogee.Syscall.{SyscallFrame, user_bytes, bytes_at, read_bytes}

-- At most 4096 bytes between the user code base and the top of the user stack.
abbrev pub IsUserRange : ℕ → ℕ → Type 0
IsUserRange ptr len = (len ≤ 4096) × (0x4000_0000_0000 ≤ ptr) × (ptr + len ≤ 0x4000_0000_3000)

-- A buffer is accepted exactly when it has at most 4096 bytes, all between the user code base and
-- the top of the user stack, and then it is the slice of those bytes of memory,
-- mapped or not.
pub user_bytes-IsUserRange :
    (mem : ℕ → Option ℕ) (ptr len : ℕ) (bytes : List (Option ℕ))
    → (user_bytes mem ptr len ≡ some bytes) ↔ (IsUserRange ptr len × (bytes_at mem ptr len ≡ bytes))
unfolding user_bytes
user_bytes-IsUserRange mem ptr len bytes = (λ e. ground arith, λ h. ground arith)

pub user_bytes_inside :
    (mem : ℕ → Option ℕ) (ptr len : ℕ)
    → IsUserRange ptr len
    → user_bytes mem ptr len ≡ some (bytes_at mem ptr len)
user_bytes_inside mem ptr len h =
    (user_bytes-IsUserRange mem ptr len (bytes_at mem ptr len)).1 (h, refl)

pub user_bytes_outside :
    (mem : ℕ → Option ℕ) (ptr len : ℕ) → (IsUserRange ptr len → ⊥) → user_bytes mem ptr len ≡ none
unfolding user_bytes
user_bytes_outside mem ptr len h = ground arith

pub IsUserRange-cases : (ptr len : ℕ) → IsUserRange ptr len ⊎ (IsUserRange ptr len → ⊥)
IsUserRange-cases ptr len = ground arith

-- Every byte of the buffer is on a mapped page.
abbrev pub IsReadable : (ℕ → Option ℕ) → ℕ → ℕ → Type 0
IsReadable mem ptr len = (a : ℕ) → ptr ≤ a → a < ptr + len → mem a ≢ none

-- A `write` that passes the checks names mapped bytes only.
abbrev pub WritesReadable : (ℕ → Option ℕ) → SyscallFrame → Type 0
WritesReadable mem frame =
    frame.rax ≡ 1
    → frame.rdi ≡ 1
    → IsUserRange frame.rsi frame.rdx
    → IsReadable mem frame.rsi frame.rdx

-- The slice holds these bytes, all of them mapped.
abbrev pub Holds : List (Option ℕ) → List ℕ → Type 0
Holds [] [] = Unit
Holds [] (b ∷ bytes) = ⊥
Holds (byte ∷ slice) [] = ⊥
Holds (byte ∷ slice) (b ∷ bytes) = (byte ≡ some b) × Holds slice bytes

pub read_bytes-Holds :
    (slice : List (Option ℕ)) (bytes : List ℕ) → Holds slice bytes → read_bytes slice ≡ some bytes
unfolding read_bytes
read_bytes-Holds [] [] h = refl
read_bytes-Holds [] (b ∷ bytes) h = absurd h
read_bytes-Holds (byte ∷ slice) [] h = absurd h
read_bytes-Holds (byte ∷ slice) (b ∷ bytes) h =
    rw (h.0, read_bytes, read_bytes-Holds slice bytes h.1) refl

pub bytes_at-Holds :
    (mem : ℕ → Option ℕ) (ptr len : ℕ)
    → IsReadable mem ptr len
    → (bytes : List ℕ) × Holds (bytes_at mem ptr len) bytes × (length bytes ≡ len)
unfolding bytes_at
bytes_at-Holds mem ptr zero h = ([], tt, refl)
bytes_at-Holds mem ptr (suc len) h =
    let (bytes, holds, long) =
      bytes_at-Holds mem (suc ptr) len (λ a low high. h a (omega arith) (omega arith)) in
    elim (Option-cases (mem ptr)) [
      | inl unmapped ↦ absurd (h ptr (omega arith) (omega arith) unmapped)
      | inr (b, mapped) ↦ (b ∷ bytes, (mapped, holds), omega arith)
    ]

-- A read of a buffer faults as soon as one byte is not mapped.
pub read_bytes_fault :
    (mem : ℕ → Option ℕ) (ptr len a : ℕ)
    → ptr ≤ a
    → a < ptr + len
    → mem a ≡ none
    → read_bytes (bytes_at mem ptr len) ≡ none
unfolding bytes_at read_bytes
read_bytes_fault mem ptr zero a low high h = absurd (omega arith)
read_bytes_fault mem ptr (suc len) a low high h = elim (Option-cases (mem ptr)) [
  | inl unmapped ↦ rw (unmapped, read_bytes) refl
  | inr (b, mapped) ↦
      let beyond : ptr ≢ a = λ same. ground (arith, h, mapped, same) in
      rw (mapped, read_bytes, read_bytes_fault mem (suc ptr) len a (omega arith) (omega arith) h)
        refl
]
