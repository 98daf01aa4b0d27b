-- ===== src/Prelude/Maps.antt =====
-- std::set and std::map over numbers: ascending lists of keys, or of keys with their values.
use Prim.Native.Nat.{ℕ, ◌+◌, ◌<◌}
use mathlib.Core.Path.{◌≡◌, refl}
use mathlib.Core.Bool.{not, ◌&&◌, ◌||◌}
use mathlib.Core.Option.{Option, none, some}
use mathlib.Core.List.{List, [], ◌∷◌}
use native.Mathlib.Omega.{arith}
use mpmpescore_cpp.Prelude.Tests.{ltb, ◌==◌, if◌then◌else◌}
use mpmpescore_cpp.Prelude.Lists.{elem, length}

abbrev pub set_insert : ℕ → List ℕ → List ℕ
set_insert k [] = k ∷ []
set_insert k (x ∷ xs) =
    let rest = set_insert k xs in
    if ltb k x then k ∷ x ∷ xs else (if k == x then x ∷ xs else x ∷ rest)

abbrev pub set_erase : ℕ → List ℕ → List ℕ
set_erase k [] = []
set_erase k (x ∷ xs) = let rest = set_erase k xs in if k == x then rest else x ∷ rest

module _ {ℓ} {V : Type ℓ} where
  abbrev pub map_find : ℕ → List (ℕ × V) → Option V
  map_find k [] = none
  map_find k ((j, v) ∷ m) = if j == k then some v else map_find k m

  -- `m[k] = v`.
  abbrev pub map_set : ℕ → V → List (ℕ × V) → List (ℕ × V)
  map_set k v [] = (k, v) ∷ []
  map_set k v ((j, w) ∷ m) =
      let rest = map_set k v m in
      if ltb k j then (k, v) ∷ (j, w) ∷ m else (if k == j then (k, v) ∷ m else (j, w) ∷ rest)

  abbrev pub map_erase : ℕ → List (ℕ × V) → List (ℕ × V)
  map_erase k [] = []
  map_erase k ((j, w) ∷ m) = let rest = map_erase k m in if k == j then rest else (j, w) ∷ rest

-- An insertion adds its key and nothing else.
pub elem-set_insert : (j k : ℕ) (xs : List ℕ) → elem j (set_insert k xs) ≡ ((k == j) || elem j xs)
elem-set_insert j k [] = refl
elem-set_insert j k (x ∷ xs) = ground (arith, elem-set_insert j k xs)

pub elem-set_erase : (j k : ℕ) (xs : List ℕ) → elem j (set_erase k xs) ≡ (not (k == j) && elem j xs)
elem-set_erase j k [] = ground arith
elem-set_erase j k (x ∷ xs) = ground (arith, elem-set_erase j k xs)

-- Strictly ascending from above `l` on.
abbrev pub Above : ℕ → List ℕ → Type 0
Above l [] = Unit {0}
Above l (x ∷ xs) = (l < x) × Above x xs

module _ {ℓ} {V : Type ℓ} where
  pub map_find-set :
      (j k : ℕ) (v : V) (m : List (ℕ × V))
      → map_find j (map_set k v m) ≡ (if k == j then some v else map_find j m)
  map_find-set j k v [] = refl
  map_find-set j k v ((i, w) ∷ m) = ground (arith, map_find-set j k v m)

  pub map_find-erase :
      (j k : ℕ) (m : List (ℕ × V))
      → map_find j (map_erase k m) ≡ (if k == j then none else map_find j m)
  map_find-erase j k [] = ground arith
  map_find-erase j k ((i, w) ∷ m) = ground (arith, map_find-erase j k m)

  -- A new key makes the map longer by one, and a key that is there leaves its length.
  pub length-map_set :
      (k : ℕ) (v : V) (m : List (ℕ × V))
      → map_find k m ≡ none
      → length (map_set k v m) ≡ length m + 1
  length-map_set k v [] h = ground arith
  length-map_set k v ((j, w) ∷ m) h = ground (arith, length-map_set k v m)
