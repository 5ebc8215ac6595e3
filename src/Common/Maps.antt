-- ===== src/Common/Maps.antt =====
-- Hash maps and hash sets (core/silkworm/common/hash_maps.hpp) with keys that are numbers, as
-- association lists. The order of iteration, which the library leaves open, is that of the list.
use Prim.Native.Nat.{ℕ}
use mathlib.Core.Path.{◌≡◌, refl}
use mathlib.Core.Bool.{Bool, true, false, ◌||◌}
use mathlib.Core.List.{List, [], ◌∷◌}
use mathlib.Core.Option.{Option, none, some}
use native.Mathlib.Omega.{arith}
use mathlib.Core.Logic.{inl, inr}
use silkworm.Common.Tests.{◌==◌, if◌then◌else◌, Bool-cases}

abbrev pub Map {ℓ} : Type ℓ → Type ℓ
Map V = List (ℕ × V)

module _ {ℓ} {V : Type ℓ} where
  unfoldable pub find : ℕ → Map V → Option V
  find k [] = none
  find k ((j, v) ∷ m) = if j == k then some v else find k m

  unfoldable pub insert : ℕ → V → Map V → Map V
  insert k v [] = (k, v) ∷ []
  insert k v ((j, w) ∷ m) = let rest = insert k v m in if j == k then (k, v) ∷ m else (j, w) ∷ rest

  pub erase : ℕ → Map V → Map V
  erase k [] = []
  erase k ((j, v) ∷ m) = let rest = erase k m in if j == k then rest else (j, v) ∷ rest

  pub find-insert :
      (k j : ℕ) (v : V) (m : Map V) → find j (insert k v m) ≡ (if k == j then some v else find j m)
  unfolding find insert
  find-insert k j v [] = refl
  find-insert k j v ((i, w) ∷ m) = ground (arith, find-insert k j v m)

  pub find-erase : (k j : ℕ) (m : Map V) → find j (erase k m) ≡ (if k == j then none else find j m)
  unfolding find erase
  find-erase k j [] = ground arith
  find-erase k j ((i, w) ∷ m) = ground (arith, find-erase k j m)

unfoldable pub contains : ℕ → List ℕ → Bool
contains k [] = false
contains k (j ∷ m) = j == k || contains k m

-- `insert` of a set; whether it was new is `not (contains k m)`.
unfoldable pub add : ℕ → List ℕ → List ℕ
add k m = if contains k m then m else k ∷ m

pub remove : ℕ → List ℕ → List ℕ
remove k [] = []
remove k (j ∷ m) = let rest = remove k m in if j == k then rest else j ∷ rest

pub contains-cons : (k j : ℕ) (m : List ℕ) → contains j (k ∷ m) ≡ (k == j || contains j m)
unfolding contains
contains-cons k j m = refl

pub contains-add : (k j : ℕ) (m : List ℕ) → contains j (add k m) ≡ (k == j || contains j m)
unfolding add
contains-add k j m = ground (arith, contains-cons k j m)

pub contains-remove :
    (k j : ℕ) (m : List ℕ) → contains j (remove k m) ≡ (if k == j then false else contains j m)
unfolding contains remove
contains-remove k j [] = ground arith
contains-remove k j (i ∷ m) = ground (arith, contains-remove k j m)

pub ruleset map_laws = (find-insert, find-erase, contains-add, contains-remove)

-- Adding what is there, and removing what was added.
pub contains-add_old :
    (k j : ℕ) (m : List ℕ) → contains k m ≡ true → contains j (add k m) ≡ contains j m
contains-add_old k j m h = ground (arith, contains-add k j m)

pub contains-remove_added :
    (k j : ℕ) (m n : List ℕ)
    → contains k m ≡ false
    → contains j n ≡ contains j (add k m)
    → contains j (remove k n) ≡ contains j m
contains-remove_added k j m n h e = ground (arith, contains-add k j m, contains-remove k j n)

-- A loop over a map that changes every value in place.
pub map_values {ℓ κ} : {V : Type ℓ} {W : Type κ} → (V → W) → Map V → Map W
map_values f [] = []
map_values f ((k, v) ∷ m) = (k, f v) ∷ map_values f m

pub find-map_values {ℓ κ} :
    {V : Type ℓ} {W : Type κ} (f : V → W) (k : ℕ) (m : Map V)
    → find k (map_values f m) ≡ elim (find k m) [ none ↦ none | some v ↦ some (f v) ]
unfolding find map_values
find-map_values f k [] = refl
find-map_values f k ((j, v) ∷ m) = elim (Bool-cases (j == k)) [
  | inl e ↦ rw (e, if◌then◌else◌)
  | inr n ↦ rw (n, if◌then◌else◌) (find-map_values f k m)
]

pub find-nil {ℓ} : {V : Type ℓ} (k : ℕ) → find {V = V} k [] ≡ none
unfolding find
find-nil k = refl

pub find-cons {ℓ} :
    {V : Type ℓ} (k j : ℕ) (v : V) (m : Map V)
    → find k ((j, v) ∷ m) ≡ (if j == k then some v else find k m)
unfolding find
find-cons k j v m = refl

pub contains-nil : (k : ℕ) → contains k [] ≡ false
unfolding contains
contains-nil k = refl
