-- ===== src/Common/Maps.antt =====
-- std::map and std::set with unsigned keys, as lists in the order of the keys.
use Prim.Native.Nat.{ℕ, ◌≤◌, ◌<◌}
use mathlib.Core.Path.{◌≡◌, refl}
use mathlib.Core.Logic.{inl, inr}
use mathlib.Core.Bool.{Bool, true, false, ◌||◌}
use mathlib.Core.List.{List, [], ◌∷◌}
use mathlib.Core.Option
use mathlib.Core.Option.{Option, none, some}
use native.Mathlib.Omega.{arith}
use tusa.Common.Tests.{ltb, ltb→lt, ◌==◌, if◌then◌else◌, Bool-cases}

abbrev pub Map {ℓ} : Type ℓ → Type ℓ
Map V = List (ℕ × V)

-- s.count(x), as a truth value
unfoldable pub member : ℕ → List ℕ → Bool
member x [] = false
member x (y ∷ s) = y == x || member x s

-- s.insert(x)
unfoldable pub set_insert : ℕ → List ℕ → List ℕ
set_insert x [] = x ∷ []
set_insert x (y ∷ s) = if ltb x y then x ∷ y ∷ s else if x == y then y ∷ s else y ∷ set_insert x s

-- s.erase(x)
unfoldable pub set_erase : ℕ → List ℕ → List ℕ
set_erase x [] = []
set_erase x (y ∷ s) = let rest = set_erase x s in if y == x then rest else y ∷ rest

pub member-nil : (x : ℕ) → member x [] ≡ false
unfolding member
member-nil x = refl

pub member-one : (x y : ℕ) → member x (y ∷ []) ≡ (y == x)
unfolding member
member-one x y = ground arith

pub member-set_insert : (x y : ℕ) (s : List ℕ) → member x (set_insert y s) ≡ (y == x || member x s)
unfolding member set_insert
member-set_insert x y [] = refl
member-set_insert x y (z ∷ s) = ground (arith, member-set_insert x y s)

pub member-set_erase :
    (x y : ℕ) (s : List ℕ) → member x (set_erase y s) ≡ (if y == x then false else member x s)
unfolding member set_erase
member-set_erase x y [] = ground arith
member-set_erase x y (z ∷ s) = ground (arith, member-set_erase x y s)

module _ {ℓ} {V : Type ℓ} where
  -- m.find(k)
  unfoldable pub find : ℕ → Map V → Option V
  find k [] = none
  find k ((j, v) ∷ m) = if j == k then some v else find k m

  unfoldable pub has_key : ℕ → Map V → Bool
  has_key k [] = false
  has_key k ((j, v) ∷ m) = j == k || has_key k m

  -- m.erase(k)
  unfoldable pub erase : ℕ → Map V → Map V
  erase k [] = []
  erase k ((j, v) ∷ m) = let rest = erase k m in if j == k then rest else (j, v) ∷ rest

  -- A mapped value changed in place.
  unfoldable pub update : ℕ → (V → V) → Map V → Map V
  update k f [] = []
  update k f ((j, v) ∷ m) = (j, if j == k then f v else v) ∷ update k f m

  -- A new key at its place.
  unfoldable pub add_new : ℕ → V → Map V → Map V
  add_new k v [] = (k, v) ∷ []
  add_new k v ((j, w) ∷ m) = if ltb k j then (k, v) ∷ (j, w) ∷ m else (j, w) ∷ add_new k v m

  -- A change of m[k], where the operator [] makes a missing entry with the value d.
  unfoldable pub at_key : ℕ → V → (V → V) → Map V → Map V
  unfolding has_key update add_new
  at_key k d f m = if has_key k m then update k f m else add_new k (f d) m

  pub find-erase : (j k : ℕ) (m : Map V) → find j (erase k m) ≡ (if k == j then none else find j m)
  unfolding find erase
  find-erase j k [] = ground arith
  find-erase j k ((i, v) ∷ m) = ground (arith, find-erase j k m)

  pub find-update :
      (j k : ℕ) (f : V → V) (m : Map V)
      → find j (update k f m) ≡ (if k == j then Option.map f (find j m) else find j m)
  unfolding find update
  find-update j k f [] = ground arith
  find-update j k f ((i, v) ∷ m) = ground (arith, find-update j k f m)

  pub find-add_new :
      (j k : ℕ) (v : V) (m : Map V)
      → has_key k m ≡ false
      → find j (add_new k v m) ≡ (if k == j then some v else find j m)
  unfolding find add_new has_key
  find-add_new j k v [] h = ground arith
  find-add_new j k v ((i, w) ∷ m) h = ground (arith, find-add_new j k v m)

  pub find-missing : (k : ℕ) (m : Map V) → has_key k m ≡ false → find k m ≡ none
  unfolding find has_key
  find-missing k [] h = refl
  find-missing k ((i, v) ∷ m) h = ground (arith, find-missing k m)

  abbrev pub value_or : Option V → V → V
  value_or none d = d
  value_or (some v) d = v

  pub find-present : (k : ℕ) (m : Map V) → has_key k m ≡ true → (v : V) × (find k m ≡ some v)
  unfolding find has_key
  find-present k [] h = cc
  find-present k ((i, v) ∷ m) h = elim (Bool-cases (i == k)) [
    | inl e ↦ (v, rw e refl)
    | inr e ↦ rw e (find-present k m (rw e at h))
  ]

  present :
      (j k : ℕ) (d : V) (f : V → V) (m : Map V)
      → has_key k m ≡ true
      → (v : V) × (find k m ≡ some v)
      → find j (at_key k d f m) ≡ (if k == j then some (f (value_or (find k m) d)) else find j m)
  unfolding at_key
  present j k d f m e (v, p) = rw (e, find-update j k f m, p) (ground (arith, p))

  pub find-at_key :
      (j k : ℕ) (d : V) (f : V → V) (m : Map V)
      → find j (at_key k d f m) ≡ (if k == j then some (f (value_or (find k m) d)) else find j m)
  unfolding at_key
  find-at_key j k d f m = elim (Bool-cases (has_key k m)) [
    | inl e ↦ present j k d f m e (find-present k m e)
    | inr e ↦ rw (e, find-add_new j k (f d) m e, find-missing k m e) refl
  ]

  -- The keys ascend, as in every std::map.
  abbrev pub IsAfter : ℕ → Map V → Type 0
  IsAfter k [] = Unit
  IsAfter k ((j, v) ∷ m) = (k < j) × IsAfter k m

  abbrev pub IsOrdered : Map V → Type 0
  IsOrdered [] = Unit
  IsOrdered ((j, v) ∷ m) = IsAfter j m × IsOrdered m

  pub IsAfter-has_key : (k : ℕ) (m : Map V) → IsAfter k m → has_key k m ≡ false
  unfolding has_key
  IsAfter-has_key k [] h = refl
  IsAfter-has_key k ((j, v) ∷ m) h = ground (arith, IsAfter-has_key k m h.1)

  IsAfter-le : (i k : ℕ) (m : Map V) → i ≤ k → IsAfter k m → IsAfter i m
  IsAfter-le i k [] e h = tt
  IsAfter-le i k ((j, v) ∷ m) e h = (omega arith, IsAfter-le i k m e h.1)

  IsAfter-update : (i k : ℕ) (f : V → V) (m : Map V) → IsAfter i m → IsAfter i (update k f m)
  unfolding update
  IsAfter-update i k f [] h = tt
  IsAfter-update i k f ((j, v) ∷ m) h = (h.0, IsAfter-update i k f m h.1)

  IsAfter-add_new : (i k : ℕ) (v : V) (m : Map V) → i < k → IsAfter i m → IsAfter i (add_new k v m)
  unfolding add_new
  IsAfter-add_new i k v [] e h = (e, tt)
  IsAfter-add_new i k v ((j, w) ∷ m) e h = elim (Bool-cases (ltb k j)) [
    | inl t ↦ rw t (e, (h.0, h.1))
    | inr t ↦ rw t (h.0, IsAfter-add_new i k v m e h.1)
  ]

  IsAfter-erase : (i k : ℕ) (m : Map V) → IsAfter i m → IsAfter i (erase k m)
  unfolding erase
  IsAfter-erase i k [] h = tt
  IsAfter-erase i k ((j, w) ∷ m) h = elim (Bool-cases (j == k)) [
    | inl t ↦ rw t (IsAfter-erase i k m h.1)
    | inr t ↦ rw t (h.0, IsAfter-erase i k m h.1)
  ]

  pub update-IsOrdered : (k : ℕ) (f : V → V) (m : Map V) → IsOrdered m → IsOrdered (update k f m)
  unfolding update
  update-IsOrdered k f [] h = tt
  update-IsOrdered k f ((j, v) ∷ m) h = (IsAfter-update j k f m h.0, update-IsOrdered k f m h.1)

  add_new-IsOrdered :
      (k : ℕ) (v : V) (m : Map V) → has_key k m ≡ false → IsOrdered m → IsOrdered (add_new k v m)
  unfolding add_new has_key
  add_new-IsOrdered k v [] e h = (tt, tt)
  add_new-IsOrdered k v ((j, w) ∷ m) e h = elim (Bool-cases (ltb k j)) [
    | inl t ↦
        let below : k < j = ltb→lt k j t in
        rw t ((below, IsAfter-le k j m (omega arith) h.0), (h.0, h.1))
    | inr t ↦
        let above : j < k = ground arith in
        rw t (IsAfter-add_new j k v m above h.0, add_new-IsOrdered k v m (ground arith) h.1)
  ]

  pub at_key-IsOrdered :
      (k : ℕ) (d : V) (f : V → V) (m : Map V) → IsOrdered m → IsOrdered (at_key k d f m)
  unfolding at_key
  at_key-IsOrdered k d f m h = elim (Bool-cases (has_key k m)) [
    | inl e ↦ rw e (update-IsOrdered k f m h)
    | inr e ↦ rw e (add_new-IsOrdered k (f d) m e h)
  ]

  pub erase-IsOrdered : (k : ℕ) (m : Map V) → IsOrdered m → IsOrdered (erase k m)
  unfolding erase
  erase-IsOrdered k [] h = tt
  erase-IsOrdered k ((j, w) ∷ m) h = elim (Bool-cases (j == k)) [
    | inl t ↦ rw t (erase-IsOrdered k m h.1)
    | inr t ↦ rw t (IsAfter-erase j k m h.0, erase-IsOrdered k m h.1)
  ]
