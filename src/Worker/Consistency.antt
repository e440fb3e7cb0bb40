-- ===== src/Worker/Consistency.antt =====
-- When the stored state is consistent: what a host's inventory lists runs there.
pub mod Places
pub mod Scaled
pub mod Providers
pub mod Stopped
pub mod Heartbeat
pub mod Runs
use wadm.Prelude.{
  String, ◌≡◌, refl, subst, arith, Bool-cases, Option-cases, ◌⊎◌, inl, inr, eq_iff, Bool, true,
  false, Option, none, some, List, ◌==◌, any, contains_key, lookup, Map, is_empty, [], ◌∷◌,
}
use wadm.External.{External}
use wadm.Event.{ProviderInfo}
use wadm.Storage.{Component, Host, Provider}
use wadm.Storage.Store.Contract.{Lattice, View, update}
use wadm.Worker.Effects.{Keyed, mapped}
use wadm.Worker.Consistency.Places.{runs_on, hosted_on, listed}

pub record IsConsistent {x : External} (l : Lattice x) : Type 0 where
  pub keyed : Keyed l.hosts
  pub running :
      (key : String) (h : Host x) (id : String)
      → l.hosts key ≡ some h
      → contains_key id h.components ≡ true
      → runs_on key (l.components id) ≡ true
  pub hosted :
      (key : String) (h : Host x) (id : String)
      → l.hosts key ≡ some h
      → listed id h.providers ≡ true
      → hosted_on key (l.providers id) ≡ true

pub not_empty_of_key {ℓ} :
    {A : Type ℓ} (key : String) (m : Map A) → contains_key key m ≡ true → is_empty m ≡ false
unfolding lookup
not_empty_of_key key [] h = cc
not_empty_of_key key (e ∷ m) h = refl

module _ {A : Type 0} where
  -- An entry of a table in which one entry was changed.
  pub updated-cases :
      (f : A → A) (at : String) (view : View A) (key : String) (a : A)
      → update at (mapped f (view at)) view key ≡ some a
      → (((at == key) ≡ false) × (view key ≡ some a))
        ⊎ ((at ≡ key) × (old : A) × (view key ≡ some old) × (f old ≡ a))
  unfolding update
  updated-cases f at view key a h = elim (Bool-cases (at == key)) [
    | inl e ↦
        let same : at ≡ key = ground (arith, eq_iff at key, e) in
        elim (Option-cases (view at)) [
          | inl n ↦ absurd (ground (arith, e, n, h))
          | inr (old, o) ↦
              inr (same, old, subst (λ k. view k ≡ some old) same o, ground (arith, e, o, h))
        ]
    | inr e ↦ inl (e, ground (arith, e, h))
  ]

  -- A property of every entry after one was put.
  pub updated-holds :
      (P : Option A → Type 0) (at : String) (value : Option A) (view : View A) (key : String)
      → (at ≡ key → P value)
      → ((at == key) ≡ false → P (view key))
      → P (update at value view key)
  unfolding update
  updated-holds P at value view key hit miss = elim (Bool-cases (at == key)) [
    | inl e ↦ rw e (hit (ground (arith, eq_iff at key, e)))
    | inr e ↦ rw e (miss e)
  ]
