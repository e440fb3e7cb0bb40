-- ===== src/Manifest/Validation/Core.antt =====
-- `core_validation` of crates/wadm-types/src/validation.rs: names and identifiers that stand
-- twice, labels, and link targets that are no component.
pub mod Fresh
pub mod Unique
use wadm.Prelude.{
  ℕ, String, Bool, true, false, not, Option, none, some, List, [], ◌∷◌, ◌++◌, Map, contains, filter,
  map, is_empty, Message, format, str, strs, if◌then◌else◌,
}
use wadm.Manifest.{
  Manifest, Component, Properties, component, capability, Trait, TraitProperty, link,
}
use wadm.Manifest.Queries.{traits_of}
use wadm.Manifest.Validation.{ValidationFailure, fail}
use wadm.Manifest.Validation.Labels.{valid_oam_label}

-- The sets are lists without repetitions, in order of insertion.
pub record Registries : Type 0 where
  pub failures : List ValidationFailure
  pub names : List String
  pub ids : List String
  pub required : List String

-- `HashSet::insert`
abbrev pub insert_new : String → List String → List String
insert_new k ks = if contains k ks then ks else ks ++ k ∷ []

unfoldable pub check_labels : String → Map String → List ValidationFailure
check_labels kind [] = []
check_labels kind (label ∷ labels) =
    let rest = check_labels kind labels in
    if valid_oam_label label
    then rest
    else fail (format kind (strs (label.0 ∷ label.1 ∷ []) ∷ [])) ++ rest

abbrev pub id_of : Properties → Option String
id_of (component p) = p.id
id_of (capability p) = p.id

unfoldable pub register_name : String → Registries → Registries
register_name name r =
    if contains name r.names
    then record r {
      failures =
          r.failures ++ fail (format "Duplicate component name in manifest: {}" (str name ∷ []));
    }
    else record r { names = r.names ++ name ∷ [] }

unfoldable pub register_id : Option String → Registries → Registries
register_id none r = r
register_id (some id) r =
    if contains id r.ids
    then record r {
      failures =
          r.failures
          ++ fail (format "Duplicate component identifier in manifest: {}" (str id ∷ []));
    }
    else record r { ids = r.ids ++ id ∷ [] }

abbrev pub missing : Registries → List String
missing r = filter (λ k. not (contains k r.names)) r.required

unfoldable pub missing_failures : List String → List ValidationFailure
missing_failures [] = []
missing_failures (k ∷ ks) = fail (
    format "The following capability component(s) are missing from the manifest: {:?}"
      (strs (k ∷ ks) ∷ []))

module _ {V : Type 0} where
  abbrev pub add_target : TraitProperty V → List String → List String
  add_target (link l) required = insert_new l.target.name required
  add_target _ required = required

  unfoldable pub add_targets : List (Trait V) → List String → List String
  add_targets [] required = required
  add_targets (t ∷ ts) required = add_targets ts (add_target t.properties required)

  unfoldable pub register : Component V → Registries → Registries
  register c r =
      let r' = register_id (id_of c.properties) (register_name c.name r) in
      record r' { required = add_targets (traits_of c) r'.required }

  unfoldable pub register_all : List (Component V) → Registries → Registries
  register_all [] r = r
  register_all (c ∷ cs) r = register_all cs (register c r)

  unfoldable pub core_validation : Manifest V → List ValidationFailure
  core_validation m =
      let r = register_all m.spec.components (record {
        failures =
            check_labels "Invalid OAM label: {:?}" m.metadata.labels
            ++ check_labels "Invalid OAM annotation: {:?}" m.metadata.annotations;
        names = [];
        ids = [];
        required = [];
      }) in
      r.failures ++ missing_failures (missing r)
