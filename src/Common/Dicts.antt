-- ===== src/Common/Dicts.antt =====
-- std::map with strings as keys, as lists in the order of the keys, and the operators == and < of strings.
use Prim.Native.Nat.{ℕ}
use mathlib.Core.Path.{◌≡◌, refl, subst}
use mathlib.Core.Logic.{inl, inr}
use mathlib.Core.Bool.{Bool, true, false, ◌&&◌, ◌||◌}
use mathlib.Core.List.{List, [], ◌∷◌}
use mathlib.Core.Option
use mathlib.Core.Option.{Option, none, some}
use native.Mathlib.Omega.{arith}
use tusa.Common.Tests.{ltb, ◌==◌, ==_iff, if◌then◌else◌, Bool-cases}

unfoldable pub same_string : List ℕ → List ℕ → Bool
same_string [] [] = true
same_string [] (y ∷ t) = false
same_string (x ∷ s) [] = false
same_string (x ∷ s) (y ∷ t) = x == y && same_string s t

unfoldable pub before : List ℕ → List ℕ → Bool
before s [] = false
before [] (y ∷ t) = true
before (x ∷ s) (y ∷ t) = ltb x y || x == y && before s t

pub same_string_refl : (s : List ℕ) → same_string s s ≡ true
unfolding same_string
same_string_refl [] = refl
same_string_refl (x ∷ s) = ground (arith, same_string_refl s)

same_string_sym : (s t : List ℕ) → same_string s t ≡ same_string t s
unfolding same_string
same_string_sym [] [] = refl
same_string_sym [] (y ∷ t) = refl
same_string_sym (x ∷ s) [] = refl
same_string_sym (x ∷ s) (y ∷ t) = ground (arith, same_string_sym s t)

pub same_string_eq : (s t : List ℕ) → same_string s t ≡ true → s ≡ t
unfolding same_string
same_string_eq [] [] h = refl
same_string_eq [] (y ∷ t) h = cc
same_string_eq (x ∷ s) [] h = cc
same_string_eq (x ∷ s) (y ∷ t) h = elim (Bool-cases (x == y)) [
  | inl e ↦
      let p : x ≡ y = (==_iff x y).0 e in
      let q : s ≡ t = same_string_eq s t (rw e at h) in rw (p, q) refl
  | inr e ↦ let p : false ≡ true = rw e at h in cc
]

moved : (i j k : List ℕ) → same_string i j ≡ true → same_string i k ≡ same_string k j
moved i j k e = let p : i ≡ j = same_string_eq i j e in rw p (same_string_sym j k)

abbrev pub Dict {ℓ} : Type ℓ → Type ℓ
Dict V = List (List ℕ × V)

module _ {ℓ} {V : Type ℓ} where
  -- m.find(k)
  unfoldable pub lookup : List ℕ → Dict V → Option V
  unfolding same_string
  lookup k [] = none
  lookup k ((j, v) ∷ m) = if same_string j k then some v else lookup k m

  -- m.count(k)
  unfoldable pub has_name : List ℕ → Dict V → Bool
  unfolding same_string
  has_name k [] = false
  has_name k ((j, v) ∷ m) = same_string j k || has_name k m

  -- A mapped value changed in place.
  unfoldable pub change : List ℕ → (V → V) → Dict V → Dict V
  unfolding same_string
  change k f [] = []
  change k f ((j, v) ∷ m) = (j, if same_string j k then f v else v) ∷ change k f m

  -- A new key at its place.
  unfoldable pub insert : List ℕ → V → Dict V → Dict V
  unfolding before
  insert k v [] = (k, v) ∷ []
  insert k v ((j, w) ∷ m) = if before k j then (k, v) ∷ (j, w) ∷ m else (j, w) ∷ insert k v m

  -- m.erase(k)
  unfoldable pub remove : List ℕ → Dict V → Dict V
  unfolding same_string
  remove k [] = []
  remove k ((j, v) ∷ m) = let rest = remove k m in if same_string j k then rest else (j, v) ∷ rest

  -- m[k] where it is made from `d` and `f` if it is not there, and else changed by `f`.
  unfoldable pub at_name : List ℕ → V → (V → V) → Dict V → Dict V
  unfolding has_name change insert
  at_name k d f m = if has_name k m then change k f m else insert k (f d) m

  pub lookup-change :
      (j k : List ℕ) (f : V → V) (m : Dict V)
      → lookup j (change k f m)
        ≡ (if same_string k j then Option.map f (lookup j m) else lookup j m)
  unfolding lookup change
  lookup-change j k f [] = ground arith
  lookup-change j k f ((i, v) ∷ m) = ground (arith, lookup-change j k f m, moved i j k)

  pub lookup-insert :
      (j k : List ℕ) (v : V) (m : Dict V)
      → has_name k m ≡ false
      → lookup j (insert k v m) ≡ (if same_string k j then some v else lookup j m)
  unfolding lookup insert has_name
  lookup-insert j k v [] h = refl
  lookup-insert j k v ((i, w) ∷ m) h = ground (arith, lookup-insert j k v m, moved i j k)

  pub lookup-missing : (k : List ℕ) (m : Dict V) → has_name k m ≡ false → lookup k m ≡ none
  unfolding lookup has_name
  lookup-missing k [] h = refl
  lookup-missing k ((i, v) ∷ m) h = ground (arith, lookup-missing k m)

  pub lookup-present :
      (k : List ℕ) (m : Dict V) → has_name k m ≡ true → (v : V) × (lookup k m ≡ some v)
  unfolding lookup has_name
  lookup-present k [] h = cc
  lookup-present k ((j, v) ∷ m) h = elim (Bool-cases (same_string j k)) [
    | inl e ↦ (v, rw e refl)
    | inr e ↦ rw e (lookup-present k m (rw e at h))
  ]

  abbrev pub or_else : Option V → V → V
  or_else none d = d
  or_else (some v) d = v

  same_key :
      (j k : List ℕ) (f : V → V) (m : Dict V) (v : V)
      → lookup k m ≡ some v
      → same_string k j ≡ true
      → Option.map f (lookup j m) ≡ some (f v)
  same_key j k f m v p e =
      let q : k ≡ j = same_string_eq k j e in
      let r : lookup j m ≡ some v = subst (λ i. lookup i m ≡ some v) q p in rw r refl

  pub lookup-changed :
      (j k : List ℕ) (d : V) (f : V → V) (m : Dict V)
      → (v : V) × (lookup k m ≡ some v)
      → lookup j (change k f m)
        ≡ (if same_string k j then some (f (or_else (lookup k m) d)) else lookup j m)
  lookup-changed j k d f m (v, p) = elim (Bool-cases (same_string k j)) [
    | inl e ↦ rw (lookup-change j k f m, e, p) (same_key j k f m v p e)
    | inr e ↦ rw (lookup-change j k f m, e) refl
  ]

  pub lookup-at_name :
      (j k : List ℕ) (d : V) (f : V → V) (m : Dict V)
      → lookup j (at_name k d f m)
        ≡ (if same_string k j then some (f (or_else (lookup k m) d)) else lookup j m)
  unfolding at_name
  lookup-at_name j k d f m = elim (Bool-cases (has_name k m)) [
    | inl e ↦ rw e (lookup-changed j k d f m (lookup-present k m e))
    | inr e ↦ rw (e, lookup-insert j k (f d) m e, lookup-missing k m e) refl
  ]

  pub lookup-remove :
      (j k : List ℕ) (m : Dict V)
      → lookup j (remove k m) ≡ (if same_string k j then none else lookup j m)
  unfolding lookup remove
  lookup-remove j k [] = ground arith
  lookup-remove j k ((i, v) ∷ m) = ground (arith, lookup-remove j k m, moved i j k, moved i k j)

  pub has_name-remove :
      (j k : List ℕ) (m : Dict V)
      → has_name j (remove k m) ≡ (if same_string k j then false else has_name j m)
  unfolding has_name remove
  has_name-remove j k [] = ground arith
  has_name-remove j k ((i, v) ∷ m) = ground (arith, has_name-remove j k m, moved i j k, moved i k j)
