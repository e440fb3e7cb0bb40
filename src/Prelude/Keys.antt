-- ===== src/Prelude/Keys.antt =====
-- The keys of a map, and the order in which an IndexMap holds its entries.
use Prim.Native.String.{String}
use mathlib.Core.Path.{◌≡◌, refl, ap}
use mathlib.Core.Logic.{inl, inr}
use mathlib.Core.Bool.{true, false, ◌||◌}
use mathlib.Core.Option.{none, some}
use mathlib.Core.List.{List, [], ◌∷◌, ◌++◌}
use native.Mathlib.Omega.{arith}
use text.Mathlib.Text.{◌==◌}
use text.Mathlib.TextEquality.{eq_iff}
use text.Mathlib.TextPositions.{eq_refl}
use wadm.Prelude.Tests.{Bool-cases}
use wadm.Prelude.Lists.{All, last?}
use wadm.Prelude.Maps.{Map, lookup, insert, remove, keys, contains, contains_key, Distinct}

pub contains_concat :
    (k j : String) (ks : List String) → contains k (ks ++ j ∷ []) ≡ (contains k ks || j == k)
contains_concat k j [] = ground arith
contains_concat k j (i ∷ ks) = ground (arith, contains_concat k j ks)

pub Distinct-concat :
    (j : String) (ks : List String) → Distinct ks → contains j ks ≡ false → Distinct (ks ++ j ∷ [])
Distinct-concat j [] d h = (refl, tt)
Distinct-concat j (k ∷ ks) (out, d) h = (
  ground (arith, contains_concat k j ks, eq_iff j k, eq_iff k j),
  Distinct-concat j ks d (ground arith),
)

module _ {ℓ} {A : Type ℓ} where
  pub insert_new :
      (k : String) (a : A) (m : Map A) → lookup k m ≡ none → insert k a m ≡ m ++ (k, a) ∷ []
  unfolding insert lookup
  insert_new k a [] e = refl
  insert_new k a ((j, b) ∷ m) e = ground (arith, insert_new k a m)

  pub contains-keys : (k : String) (m : Map A) → contains k (keys m) ≡ contains_key k m
  unfolding lookup
  contains-keys k [] = refl
  contains-keys k ((j, a) ∷ m) = ground (arith, contains-keys k m)

  pub keys-append : (m : Map A) (e : String × A) → keys (m ++ e ∷ []) ≡ keys m ++ e.0 ∷ []
  keys-append [] e = refl
  keys-append (x ∷ m) e = ap (◌∷◌ x.0) (keys-append m e)

  contains-remove :
      (k j : String) (m : Map A)
      → contains k (keys m) ≡ false
      → contains k (keys (remove j m)) ≡ false
  unfolding remove
  contains-remove k j [] h = refl
  contains-remove k j ((i, a) ∷ m) h = ground (arith, contains-remove k j m)

  pub remove-Distinct : (j : String) (m : Map A) → Distinct (keys m) → Distinct (keys (remove j m))
  unfolding remove
  remove-Distinct j [] d = tt
  remove-Distinct j ((i, a) ∷ m) (out, d) = elim (Bool-cases (i == j)) [
    | inl e ↦ rw e (remove-Distinct j m d)
    | inr e ↦ rw e (contains-remove i j m out, remove-Distinct j m d)
  ]

  pub last?-append : (m : List A) (a : A) → last? (m ++ a ∷ []) ≡ some a
  last?-append [] a = refl
  last?-append (x ∷ []) a = refl
  last?-append (x ∷ y ∷ m) a = last?-append (y ∷ m) a

  pub last?-none : (m : List A) → last? m ≡ none → m ≡ []
  last?-none [] h = refl
  last?-none (x ∷ []) h = cc
  last?-none (x ∷ y ∷ m) h = let e = last?-none (y ∷ m) h in cc

  contains_last :
      (e f : String × A) (m : Map A) → last? (e ∷ m) ≡ some f → contains f.0 (keys (e ∷ m)) ≡ true
  contains_last e f [] h = ground (arith, eq_refl f.0)
  contains_last e f (g ∷ m) h = ground (arith, contains_last g f m h)

  -- The last entry is the one that its key finds.
  pub lookup-last? :
      (m : Map A) (e : String × A) → Distinct (keys m) → last? m ≡ some e → lookup e.0 m ≡ some e.1
  unfolding lookup
  lookup-last? [] e d h = cc
  lookup-last? (f ∷ []) e d h = ground (arith, eq_refl e.0)
  lookup-last? (f ∷ g ∷ m) e d h =
      let there = contains_last g e m h in
      ground (arith, lookup-last? (g ∷ m) e d.1 h, eq_iff f.0 e.0, d.0)

pub remove-All {ℓ κ} :
    {A : Type ℓ} (P : String × A → Type κ) (j : String) (m : Map A) → All P m → All P (remove j m)
unfolding remove
remove-All P j [] h = tt
remove-All P j ((i, a) ∷ m) (h, hs) = elim (Bool-cases (i == j)) [
  | inl e ↦ rw e (remove-All P j m hs)
  | inr e ↦ rw e (h, remove-All P j m hs)
]

contains-insert {ℓ} :
    {A : Type ℓ} (k j : String) (a : A) (m : Map A)
    → contains k (keys m) ≡ false
    → (j == k) ≡ false
    → contains k (keys (insert j a m)) ≡ false
unfolding insert
contains-insert k j a [] h n = ground arith
contains-insert k j a (e ∷ m) h n = ground (arith, contains-insert k j a m)

pub insert-Distinct {ℓ} :
    {A : Type ℓ} (j : String) (a : A) (m : Map A)
    → Distinct (keys m)
    → Distinct (keys (insert j a m))
unfolding insert
insert-Distinct j a [] d = (refl, tt)
insert-Distinct j a ((i, b) ∷ m) (out, d) = elim (Bool-cases (i == j)) [
  | inl e ↦ rw e (ground (arith, eq_iff i j, out), d)
  | inr e ↦ rw e (
    contains-insert i j a m out (ground (arith, eq_iff j i, eq_iff i j)),
    insert-Distinct j a m d,
  )
]
