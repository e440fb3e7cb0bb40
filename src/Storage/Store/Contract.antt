-- ===== src/Storage/Store/Contract.antt =====
-- What a store promises: its operations on the three tables, seen as functions of the keys.
use wadm.Prelude.{
  String, ◌≡◌, refl, ap, ◌∙◌, subst, arith, ◌⊎◌, inl, inr, false, Option, none, some, List, [], ◌∷◌,
  Map, lookup, keys, Distinct, contains, ok, if◌then◌else◌, ◌==◌, eq_iff, Bool-cases, All,
}
use mathlib.Core.Path.{fun_ext}
use wadm.Prelude.Actions.{Ensures}
use wadm.External.{External}
use wadm.Storage.{Component, Host, Provider}
use wadm.Storage.Store.{Table, Store}

-- A table as a function: the order and the representation are forgotten.
abbrev pub View : Type 0 → Type 0
View A = String → Option A

module _ {A : Type 0} where
  unfoldable pub update : String → Option A → View A → View A
  update key value view other = if key == other then value else view other

  -- Later entries overwrite earlier ones.
  unfoldable pub overwrite : Map A → View A → View A
  overwrite [] view = view
  overwrite ((key, value) ∷ entries) view = overwrite entries (update key (some value) view)

  unfoldable pub erase : List String → View A → View A
  erase [] view = view
  erase (key ∷ keys) view = erase keys (update key none view)

-- `get` and `put` select the table's view in that of the whole state.
pub record IsTable {A σ L : Type 0} (table : Table A σ) (view : σ → L) (get : L → View A)
    (put : View A → L → L) : Type 0 where
  pub get_found :
      (key : String) (s : σ) (found : Option A)
      → table.get key s ≡ ok found
      → get (view s) key ≡ found
  pub list_found :
      (s : σ) (entries : Map A)
      → table.list s ≡ ok entries
      → Distinct (keys entries) × ((key : String) → lookup key entries ≡ get (view s) key)
  pub stored :
      (entries : Map A) (s : σ)
      → Ensures
          (table.store_many entries s)
          (λ _ t. view t ≡ put (overwrite entries (get (view s))) (view s))
  pub deleted :
      (keys : List String) (s : σ)
      → Ensures
          (table.delete_many keys s)
          (λ _ t. view t ≡ put (erase keys (get (view s))) (view s))

-- The state of a lattice.
pub record Lattice (x : External) : Type 0 where
  pub components : View Component
  pub hosts : View (Host x)
  pub providers : View Provider

module _ {x : External} where
  abbrev pub with_components : View Component → Lattice x → Lattice x
  with_components c l = record l { components = c }

  abbrev pub with_hosts : View (Host x) → Lattice x → Lattice x
  with_hosts h l = record l { hosts = h }

  abbrev pub with_providers : View Provider → Lattice x → Lattice x
  with_providers p l = record l { providers = p }

pub record IsStore {x : External} {σ : Type 0} (store : Store x σ) (view : σ → Lattice x)
    : Type 0 where
  pub components : IsTable store.components view (λ l. l.components) with_components
  pub hosts : IsTable store.hosts view (λ l. l.hosts) with_hosts
  pub providers : IsTable store.providers view (λ l. l.providers) with_providers

module _ {A : Type 0} where
  -- What is found after a list of writes: the last one of the key, or what was there.
  pub overwrite-cases :
      (P : String → A → Type 0) (entries : Map A) (view : View A) (key : String)
      → All (λ e. P e.0 e.1) entries
      → ((a : A) × (overwrite entries view key ≡ some a) × P key a)
        ⊎ ((contains key (keys entries) ≡ false) × (overwrite entries view key ≡ view key))
  unfolding overwrite update
  overwrite-cases P [] view key h = inr (refl, refl)
  overwrite-cases P ((k, a) ∷ entries) view key (h, hs) =
      elim (overwrite-cases P entries (update k (some a) view) key hs) [
        | inl found ↦ inl found
        | inr (out, same) ↦ elim (Bool-cases (k == key)) [
          | inl e ↦
              let k_key : k ≡ key = ground (arith, eq_iff k key, e) in
              inl (a, same ∙ ground (arith, e), subst (λ k. P k a) k_key h)
          | inr e ↦ inr (ground (arith, e, out), same ∙ ground (arith, e))
        ]
      ]

  pub erase-eq :
      (ks : List String) (view : View A) (key : String)
      → erase ks view key ≡ (if contains key ks then none else view key)
  unfolding erase update
  erase-eq [] view key = refl
  erase-eq (k ∷ ks) view key = rw (erase-eq ks (update k none view) key) (ground arith)

  pub update_self : (key : String) (view : View A) → update key (view key) view ≡ view
  unfolding update
  update_self key view = fun_ext (λ k. elim (Bool-cases (key == k)) [
    | inl e ↦ let same : key ≡ k = ground (arith, eq_iff key k, e) in rw e (ap view same)
    | inr e ↦ rw e refl
  ])
