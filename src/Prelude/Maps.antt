-- ===== src/Prelude/Maps.antt =====
-- Rust's maps with text keys (HashMap, BTreeMap, IndexMap) as association lists. An insertion
-- replaces the value in place, or appends; the order of a list is one order of iteration.
use Prim.Native.String.{String}
use mathlib.Core.Path.{◌≡◌, refl}
use mathlib.Core.Bool.{Bool, false, ◌||◌}
use mathlib.Core.Option.{Option, none, some}
use mathlib.Core.List.{List, [], ◌∷◌, ◌++◌, map}
use native.Mathlib.Omega.{arith}
use text.Mathlib.Text.{◌==◌}
use text.Mathlib.TextEquality.{eq_iff}
use wadm.Prelude.Tests.{if◌then◌else◌, is_some}

abbrev pub Map {ℓ} : Type ℓ → Type ℓ
Map V = List (String × V)

module _ {ℓ} {V : Type ℓ} where
  unfoldable pub lookup : String → Map V → Option V
  lookup k [] = none
  lookup key (e ∷ entries) =
      let later = lookup key entries in if e.0 == key then some e.1 else later

  abbrev pub contains_key : String → Map V → Bool
  contains_key k m = is_some (lookup k m)

  unfoldable pub insert : String → V → Map V → Map V
  insert k v [] = (k, v) ∷ []
  insert k v ((j, w) ∷ m) = let rest = insert k v m in if j == k then (k, v) ∷ m else (j, w) ∷ rest

  unfoldable pub remove : String → Map V → Map V
  remove k [] = []
  remove k ((j, v) ∷ m) = let rest = remove k m in if j == k then rest else (j, v) ∷ rest

  abbrev pub keys : Map V → List String
  keys m = map (λ e. e.0) m

  pub lookup-remove :
      (key other : String) (entries : Map V)
      → lookup other (remove key entries) ≡ (if key == other then none else lookup other entries)
  unfolding lookup remove
  lookup-remove key other [] = ground arith
  lookup-remove key other (e ∷ entries) =
      ground
        (arith, eq_iff key other, eq_iff e.0 key, eq_iff e.0 other, lookup-remove key other entries)

  pub lookup-insert :
      (key other : String) (value : V) (entries : Map V)
      → lookup other (insert key value entries)
        ≡ (if key == other then some value else lookup other entries)
  unfolding lookup insert
  lookup-insert key other value [] = refl
  lookup-insert key other value (e ∷ entries) = ground (
    arith,
    eq_iff key other,
    eq_iff e.0 key,
    eq_iff e.0 other,
    lookup-insert key other value entries,
  )

  pub lookup-append :
      (k : String) (l m : Map V)
      → lookup k (l ++ m) ≡ elim (lookup k l) [ none ↦ lookup k m | some v ↦ some v ]
  unfolding lookup
  lookup-append k [] m = refl
  lookup-append k ((j, w) ∷ l) m = ground (arith, lookup-append k l m)

-- A set of texts as a list.
abbrev pub contains : String → List String → Bool
contains k [] = false
contains k (j ∷ js) = j == k || contains k js

-- No text stands twice.
abbrev pub Distinct : List String → Type 0
Distinct [] = Unit
Distinct (k ∷ ks) = (contains k ks ≡ false) × Distinct ks

pub contains-append :
    (k : String) (js ks : List String) → contains k (js ++ ks) ≡ (contains k js || contains k ks)
contains-append k [] ks = refl
contains-append k (j ∷ js) ks = ground (arith, contains-append k js ks)
