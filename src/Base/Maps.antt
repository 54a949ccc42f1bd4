-- ===== src/Base/Maps.antt =====
-- `BTreeMap` with numbers for keys, as an association list; the order of keys is never observed.
use Prim.Native.Nat.{ℕ, suc, ◌+◌, ◌-◌, ◌≤◌, ◌<◌}
use mathlib.Core.Path.{◌≡◌, refl}
use mathlib.Core.Logic.{◌≢◌, inl, inr}
use mathlib.Core.List.{List, [], ◌∷◌, ◌++◌}
use mathlib.Core.Option.{Option, none, some}
use native.Mathlib.Omega.{arith}
use apogee.Base.Tests.{◌==◌, ==_iff, if◌then◌else◌, Bool-cases}
use apogee.Base.Lists.{length}

-- How often a number stands in a list.
abbrev pub count : ℕ → List ℕ → ℕ
count x [] = 0
count x (y ∷ ys) = (if y == x then 1 else 0) + count x ys

pub count-append : (x : ℕ) (xs ys : List ℕ) → count x (xs ++ ys) ≡ count x xs + count x ys
count-append x [] ys = omega arith
count-append x (z ∷ xs) ys = ground (arith, count-append x xs ys)

module _ {ℓ} {V : Type ℓ} where
  abbrev pub keys : List (ℕ × V) → List ℕ
  keys [] = []
  keys ((k, v) ∷ m) = k ∷ keys m

  unfoldable pub lookup : ℕ → List (ℕ × V) → Option V
  lookup k [] = none
  lookup k ((j, v) ∷ m) = if j == k then some v else lookup k m

  unfoldable pub insert : ℕ → V → List (ℕ × V) → List (ℕ × V)
  insert key new [] = (key, new) ∷ []
  insert key new ((first, old) ∷ entries) =
      if first == key then (key, new) ∷ entries else (first, old) ∷ insert key new entries

  unfoldable pub remove : ℕ → List (ℕ × V) → List (ℕ × V)
  remove k [] = []
  remove k ((j, w) ∷ m) = if j == k then m else (j, w) ∷ remove k m

  -- What a key shows after a write.
  pub lookup-insert :
      (written key : ℕ) (new : V) (entries : List (ℕ × V))
      → lookup key (insert written new entries)
        ≡ (if written == key then some new else lookup key entries)
  unfolding insert lookup
  lookup-insert written key new [] = refl
  lookup-insert written key new ((first, old) ∷ entries) =
      let later = lookup-insert written key new entries in ground (arith, later)

  pub lookup-remove_ne : (k j : ℕ) (m : List (ℕ × V)) → k ≢ j → lookup j (remove k m) ≡ lookup j m
  unfolding lookup remove
  lookup-remove_ne k j [] h = refl
  lookup-remove_ne k j ((i, w) ∷ m) h = ground (arith, lookup-remove_ne k j m h)

  -- A key is in the map exactly when it is among the keys.
  pub lookup-some : (k : ℕ) (m : List (ℕ × V)) → 0 < count k (keys m) → lookup k m ≢ none
  unfolding lookup
  lookup-some k [] h = absurd (omega arith)
  lookup-some k ((j, v) ∷ m) h = ground (arith, lookup-some k m)

  pub lookup-none : (k : ℕ) (m : List (ℕ × V)) → count k (keys m) ≡ 0 → lookup k m ≡ none
  unfolding lookup
  lookup-none k [] h = refl
  lookup-none k ((j, v) ∷ m) h = ground (arith, lookup-none k m)

  pub count-keys : (k : ℕ) (v : V) (m : List (ℕ × V)) → lookup k m ≡ some v → 0 < count k (keys m)
  unfolding lookup
  count-keys k v [] h = ground arith
  count-keys k v ((j, w) ∷ m) h = ground (arith, count-keys k v m)

  pub count-insert_new :
      (x k : ℕ) (v : V) (m : List (ℕ × V))
      → count k (keys m) ≡ 0
      → count x (keys (insert k v m)) ≡ (if k == x then 1 else 0) + count x (keys m)
  unfolding insert
  count-insert_new x k v [] h = omega arith
  count-insert_new x k v ((j, w) ∷ m) h = ground (arith, count-insert_new x k v m)

  -- Writing to a key that is there leaves the keys.
  pub count-insert_old :
      (x k : ℕ) (v : V) (m : List (ℕ × V))
      → 0 < count k (keys m)
      → count x (keys (insert k v m)) ≡ count x (keys m)
  unfolding insert
  count-insert_old x k v [] h = absurd (omega arith)
  count-insert_old x k v ((j, w) ∷ m) h = ground (arith, count-insert_old x k v m)

  pub count-remove :
      (x k : ℕ) (m : List (ℕ × V))
      → count x (keys (remove k m)) ≡ count x (keys m) - (if k == x then 1 else 0)
  unfolding remove
  count-remove x k [] = ground arith
  count-remove x k ((j, w) ∷ m) = ground (arith, count-remove x k m)

  pub length-insert_new :
      (k : ℕ) (v : V) (m : List (ℕ × V))
      → count k (keys m) ≡ 0
      → length (insert k v m) ≡ suc (length m)
  unfolding insert
  length-insert_new k v [] h = refl
  length-insert_new k v ((j, w) ∷ m) h = ground (arith, length-insert_new k v m)

  pub length-insert_old :
      (k : ℕ) (v : V) (m : List (ℕ × V)) → 0 < count k (keys m) → length (insert k v m) ≡ length m
  unfolding insert
  length-insert_old k v [] h = absurd (omega arith)
  length-insert_old k v ((j, w) ∷ m) h = ground (arith, length-insert_old k v m)

  pub length-remove :
      (k : ℕ) (m : List (ℕ × V)) → 0 < count k (keys m) → suc (length (remove k m)) ≡ length m
  unfolding remove
  length-remove k [] h = absurd (omega arith)
  length-remove k ((j, w) ∷ m) h = ground (arith, length-remove k m)

  pub no_keys : (m : List (ℕ × V)) → ((x : ℕ) → count x (keys m) ≡ 0) → m ≡ []
  no_keys [] h = refl
  no_keys ((k, v) ∷ m) h = absurd (ground (arith, h k))

  -- No key stands twice.
  abbrev pub IsMap : List (ℕ × V) → Type 0
  IsMap m = (x : ℕ) → count x (keys m) ≤ 1

  pub lookup-remove_self : (k : ℕ) (m : List (ℕ × V)) → IsMap m → lookup k (remove k m) ≡ none
  lookup-remove_self k m h = lookup-none k (remove k m) (ground (arith, count-remove k k m, h k))

  pub insert-IsMap : (k : ℕ) (v : V) (m : List (ℕ × V)) → IsMap m → IsMap (insert k v m)
  insert-IsMap k v m h x = elim (Bool-cases (count k (keys m) == 0)) [
    | inl new ↦ ground (arith, count-insert_new x k v m, h x)
    | inr old ↦ ground (arith, count-insert_old x k v m, h x)
  ]

  pub remove-IsMap : (k : ℕ) (m : List (ℕ × V)) → IsMap m → IsMap (remove k m)
  remove-IsMap k m h x = omega (arith, count-remove x k m, h x)

  -- What a key shows after a removal.
  pub lookup-remove :
      (k x : ℕ) (m : List (ℕ × V))
      → IsMap m
      → lookup x (remove k m) ≡ (if k == x then none else lookup x m)
  lookup-remove k x m h = elim (Bool-cases (k == x)) [
    | inl same ↦
        let equal : k ≡ x = (==_iff k x).0 same in rw (same, equal) (lookup-remove_self x m h)
    | inr apart ↦ rw apart (lookup-remove_ne k x m (λ equal. absurd (ground arith)))
  ]

  -- The sum of a weight over the values.
  module _ (weight : V → ℕ) where
    abbrev pub total : List (ℕ × V) → ℕ
    total [] = 0
    total ((k, v) ∷ m) = weight v + total m

    pub total-insert_new :
        (k : ℕ) (v : V) (m : List (ℕ × V))
        → lookup k m ≡ none
        → total (insert k v m) ≡ weight v + total m
    unfolding lookup insert
    total-insert_new k v [] h = omega arith
    total-insert_new k v ((j, w) ∷ m) h = ground (arith, total-insert_new k v m)

    pub total-insert_old :
        (k : ℕ) (v w : V) (m : List (ℕ × V))
        → lookup k m ≡ some w
        → total (insert k v m) + weight w ≡ weight v + total m
    unfolding lookup insert
    total-insert_old k v w [] h = absurd (ground arith)
    total-insert_old k v w ((j, u) ∷ m) h = ground (arith, total-insert_old k v w m)

    pub total-remove :
        (k : ℕ) (w : V) (m : List (ℕ × V))
        → lookup k m ≡ some w
        → total (remove k m) + weight w ≡ total m
    unfolding lookup remove
    total-remove k w [] h = absurd (ground arith)
    total-remove k w ((j, u) ∷ m) h = ground (arith, total-remove k w m)
