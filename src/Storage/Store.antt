-- ===== src/Storage/Store.antt =====
-- The traits `ReadStore` and `Store` of crates/wadm/src/storage/mod.rs, for the three kinds of
-- state of one lattice.
pub mod Contract
pub mod Sweep
use wadm.Prelude.{String, Option, List, [], ◌∷◌, Map, Result}
use wadm.Prelude.Actions.{Action}
use wadm.External.{External}
use wadm.Storage.{Component, Host, Provider}

-- The operations at one kind. A write that fails may have changed the state.
pub record Table (A σ : Type 0) : Type 0 where
  pub get : String → σ → Result (Option A)
  pub list : σ → Result (Map A)
  pub store_many : Map A → Action σ (Unit {0})
  pub delete_many : List String → Action σ (Unit {0})

module _ {A σ : Type 0} (table : Table A σ) where
  abbrev pub store : String → A → Action σ (Unit {0})
  store id item = table.store_many ((id, item) ∷ [])

  abbrev pub delete : String → Action σ (Unit {0})
  delete id = table.delete_many (id ∷ [])

pub record Store (x : External) (σ : Type 0) : Type 0 where
  pub components : Table Component σ
  pub hosts : Table (Host x) σ
  pub providers : Table Provider σ
