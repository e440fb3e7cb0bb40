-- ===== src/Manifest/Validation/Core/Unique.antt =====
-- When `core_validation` finds no failure.
use wadm.Prelude.{
  String, ◌≡◌, ◌↔◌, refl, ◌∙◌, ap, arith, Bool, true, not, ◌&&◌, ◌||◌, List, [], ◌∷◌, ◌++◌,
  contains, Distinct, filter_map, map, all, All, All-tabulate, all-All, flat_map,
}
use wadm.Manifest.{Manifest, Component, Trait, TraitProperty, link}
use wadm.Manifest.Queries.{traits_of}
use wadm.Manifest.Validation.{valid}
use wadm.Manifest.Validation.Labels.{valid_oam_label}
use wadm.Manifest.Validation.Core.{
  Registries, check_labels, register_name, register, register_all, add_target, add_targets, missing,
  missing_failures, core_validation, id_of, insert_new,
}
use wadm.Manifest.Validation.Core.Fresh.{
  valid-append, valid-check_labels, fresh, valid-register_name, names-register_name, is_new,
  insert_id, valid-register_id, ids-register_id, contains-insert_new, all-append, all-insert_new,
  fresh_iff, fresh_id, fresh_name, all-ext, valid-missing,
}

module _ {V : Type 0} where
  abbrev pub names_of : List (Component V) → List String
  names_of = map (λ c. c.name)

  abbrev pub ids_of : List (Component V) → List String
  ids_of = filter_map (λ c. id_of c.properties)

  abbrev pub target_of : TraitProperty V → List String
  target_of (link l) = l.target.name ∷ []
  target_of _ = []

  -- The targets of the links of a component, in whatever trait they stand.
  abbrev pub trait_targets : List (Trait V) → List String
  trait_targets = flat_map (λ t. target_of t.properties)

  abbrev pub targets_of : List (Component V) → List String
  targets_of = flat_map (λ c. trait_targets (traits_of c))

  all-add_target :
      (p : String → Bool) (q : TraitProperty V) (required : List String)
      → all p (add_target q required) ≡ (all p required && all p (target_of q))
  all-add_target p (link l) required = ground (arith, all-insert_new p l.target.name required)
  all-add_target p _ required = ground arith

  all-add_targets :
      (p : String → Bool) (ts : List (Trait V)) (required : List String)
      → all p (add_targets ts required) ≡ (all p required && all p (trait_targets ts))
  unfolding add_targets
  all-add_targets p [] required = ground arith
  all-add_targets p (t ∷ ts) required =
      all-add_targets p ts (add_target t.properties required)
      ∙ rw
          (
            all-add_target p t.properties required,
            all-append p (target_of t.properties) (trait_targets ts),
          )
          (ground arith)

  -- What registering a component does to each registry.
  register_lem :
      (c : Component V) (r : Registries)
      → let t = register c r in
        (valid t.failures ≡ (
          (valid r.failures && not (contains c.name r.names)) && is_new (id_of c.properties) r.ids))
        × (t.names ≡ insert_new c.name r.names)
        × (t.ids ≡ insert_id (id_of c.properties) r.ids)
        × (t.required ≡ add_targets (traits_of c) r.required)
  unfolding register
  register_lem c r =
      let id = id_of c.properties in
      let s = register_name c.name r in
      let (names, ids, required) = names-register_name c.name r in
      let (names', ids', required') = ids-register_id id s in
      (
        valid-register_id id s ∙ rw (valid-register_name c.name r, ids) refl,
        names' ∙ names,
        ids' ∙ ap (insert_id id) ids,
        ap (add_targets (traits_of c)) (required' ∙ required),
      )

  valid-register_all :
      (cs : List (Component V)) (r : Registries)
      → valid (register_all cs r).failures
        ≡ (valid r.failures && fresh r.names (names_of cs) && fresh r.ids (ids_of cs))
  unfolding register_all
  valid-register_all [] r = ground arith
  valid-register_all (c ∷ cs) r =
      let (v, names, ids, _) = register_lem c r in
      valid-register_all cs (register c r)
      ∙ rw
          (
            v,
            names,
            ids,
            fresh_id (id_of c.properties) r.ids (ids_of cs),
            fresh_name c.name r.names (names_of cs),
          )
          (ground arith)

  contains-names :
      (k : String) (cs : List (Component V)) (r : Registries)
      → contains k (register_all cs r).names ≡ (contains k r.names || contains k (names_of cs))
  unfolding register_all
  contains-names k [] r = ground arith
  contains-names k (c ∷ cs) r =
      let (_, names, _, _) = register_lem c r in
      contains-names k cs (register c r)
      ∙ rw (names, contains-insert_new k c.name r.names) (ground arith)

  all-required :
      (p : String → Bool) (cs : List (Component V)) (r : Registries)
      → all p (register_all cs r).required ≡ (all p r.required && all p (targets_of cs))
  unfolding register_all
  all-required p [] r = ground arith
  all-required p (c ∷ cs) r =
      let (_, _, _, required) = register_lem c r in
      all-required p cs (register c r)
      ∙ rw
          (
            required,
            all-add_targets p (traits_of c) r.required,
            all-append p (trait_targets (traits_of c)) (targets_of cs),
          )
          (ground arith)

  valid-core_validation :
      (m : Manifest V)
      → valid (core_validation m) ≡ (
          all valid_oam_label m.metadata.labels
          && all valid_oam_label m.metadata.annotations
          && fresh [] (names_of m.spec.components)
          && fresh [] (ids_of m.spec.components)
          && all (λ k. contains k (names_of m.spec.components)) (targets_of m.spec.components))
  unfolding core_validation
  valid-core_validation m =
      let cs = m.spec.components in
      let labels = check_labels "Invalid OAM label: {:?}" m.metadata.labels in
      let notes = check_labels "Invalid OAM annotation: {:?}" m.metadata.annotations in
      let r0 : Registries = record {
        failures = labels ++ notes;
        names = [];
        ids = [];
        required = [];
      } in
      let r = register_all cs r0 in
      valid-append r.failures (missing_failures (missing r))
      ∙ rw
          (
            valid-register_all cs r0,
            valid-append labels notes,
            valid-check_labels "Invalid OAM label: {:?}" m.metadata.labels,
            valid-check_labels "Invalid OAM annotation: {:?}" m.metadata.annotations,
            valid-missing r.names r.required,
            all-required (λ k. contains k r.names) cs r0,
            all-ext (λ k. contains k r.names) (λ k. contains k (names_of cs))
                (λ k. contains-names k cs r0) (targets_of cs),
          )
          (ground arith)

  -- What `core_validation` asks of a manifest.
  pub record IsCoherent (m : Manifest V) : Type 0 where
    pub labels : All (λ l. valid_oam_label l ≡ true) m.metadata.labels
    pub annotations : All (λ l. valid_oam_label l ≡ true) m.metadata.annotations
    pub names : Distinct (names_of m.spec.components)
    pub ids : Distinct (ids_of m.spec.components)
    pub targets :
        All (λ k. contains k (names_of m.spec.components) ≡ true) (targets_of m.spec.components)

  pub core_validation-IsCoherent_iff :
      (m : Manifest V) → (valid (core_validation m) ≡ true) ↔ IsCoherent m
  core_validation-IsCoherent_iff m =
      let cs = m.spec.components in
      let (labels_to, labels_from) = all-All valid_oam_label m.metadata.labels in
      let (notes_to, notes_from) = all-All valid_oam_label m.metadata.annotations in
      let (names_to, names_from) = fresh_iff [] (names_of cs) in
      let (ids_to, ids_from) = fresh_iff [] (ids_of cs) in
      let (targets_to, targets_from) = all-All (λ k. contains k (names_of cs)) (targets_of cs) in
      rw (valid-core_validation m) (
        λ h. record {
          labels = labels_to (ground arith);
          annotations = notes_to (ground arith);
          names = (names_to (ground arith)).0;
          ids = (ids_to (ground arith)).0;
          targets = targets_to (ground arith);
        },
        λ r. ground (
          arith,
          labels_from r.labels,
          notes_from r.annotations,
          names_from (r.names, All-tabulate (λ _. refl) (names_of cs)),
          ids_from (r.ids, All-tabulate (λ _. refl) (ids_of cs)),
          targets_from r.targets,
        ),
      )
