-- ===== src/Model.antt =====
-- The stored history of an application: crates/wadm/src/model/mod.rs. An IndexMap keeps the order
-- of insertion, as the association lists do. A method that panics on an empty history is an option.
pub mod Versions
pub mod Histories
pub mod Deployment
use wadm.Prelude.{
  ℕ, String, Bool, true, false, Option, none, some, List, [], ◌∷◌, Map, lookup, insert, remove,
  contains_key, keys, ◌==◌, is_some, is_empty, last?, length, if◌then◌else◌,
}
use wadm.Manifest.{Manifest, Metadata, version_annotation_key, latest_version}

pub record StoredManifest (V : Type 0) : Type 0 where
  pub manifests : Map (Manifest V)
  pub deployed_version : Option String

module _ {V : Type 0} where
  -- `StoredManifest::default`
  abbrev pub empty_stored : StoredManifest V
  empty_stored = record { manifests = []; deployed_version = none }

  unfoldable pub current_version : StoredManifest V → String
  current_version s = elim (last? s.manifests) [ none ↦ "" | some e ↦ e.0 ]

  abbrev pub with_version : String → Manifest V → Manifest V
  with_version v m = record m {
    metadata = record (m.metadata) {
      annotations = insert version_annotation_key v m.metadata.annotations;
    };
  }

  -- The version annotation, or the given ULID, which is then annotated.
  unfoldable pub assign_version : String → Manifest V → String × Manifest V
  assign_version ulid m = elim (lookup version_annotation_key m.metadata.annotations) [
    | some v ↦ (v, m)
    | none ↦ (ulid, with_version ulid m)
  ]

  unfoldable pub add_entry : String → Manifest V → StoredManifest V → StoredManifest V × Bool
  add_entry version manifest s =
      if contains_key version s.manifests
      then (s, false)
      else (record s { manifests = insert version manifest s.manifests }, true)

  unfoldable pub add_version : String → Manifest V → StoredManifest V → StoredManifest V × Bool
  unfolding assign_version add_entry
  add_version ulid m s =
      let (version, manifest) = assign_version ulid m in add_entry version manifest s

  -- `shift_remove`
  unfoldable pub delete_version : String → StoredManifest V → StoredManifest V × Bool
  delete_version version s =
      (record s { manifests = remove version s.manifests }, contains_key version s.manifests)

  abbrev pub all_versions : StoredManifest V → List String
  all_versions s = keys s.manifests

  unfoldable pub is_deployed : String → StoredManifest V → Bool
  is_deployed version s = elim s.deployed_version [ none ↦ false | some v ↦ v == version ]

  unfoldable pub undeploy : StoredManifest V → StoredManifest V × Bool
  undeploy s = (record s { deployed_version = none }, is_some s.deployed_version)

  unfoldable pub deploy : Option String → StoredManifest V → StoredManifest V × Bool
  unfolding current_version
  deploy none s = (record s { deployed_version = some (current_version s) }, true)
  deploy (some v) s =
      if v == latest_version
      then (record s { deployed_version = some (current_version s) }, true)
      else if contains_key v s.manifests
      then (record s { deployed_version = some v }, true)
      else (s, false)

  unfoldable pub get_current : StoredManifest V → Option (Manifest V)
  get_current s = elim (last? s.manifests) [ none ↦ none | some e ↦ some e.1 ]

  unfoldable pub get_version : String → StoredManifest V → Option (Manifest V)
  get_version version s = lookup version s.manifests

  unfoldable pub get_deployed : StoredManifest V → Option (Manifest V)
  get_deployed s = elim s.deployed_version [ none ↦ none | some v ↦ lookup v s.manifests ]

  abbrev pub count : StoredManifest V → ℕ
  count s = length s.manifests
