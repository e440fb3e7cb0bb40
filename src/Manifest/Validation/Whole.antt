-- ===== src/Manifest/Validation/Whole.antt =====
-- The validation of a whole manifest.
use wadm.Prelude.{
  String, ◌≡◌, ◌≢◌, ◌↔◌, refl, subst, arith, Bool, true, ◌&&◌, none, some, List, ◌++◌, lookup, any,
  All, All-tabulate, flat_map, Bool-cases, Option-cases, inl, inr, ◌==◌, eq_iff,
}
use wadm.External.{External}
use wadm.Manifest.{Manifest, latest_version}
use wadm.Manifest.Queries.{
  version, components, links, component_links, traits_of, secrets, component_lookup, policy_lookup,
}
use wadm.Manifest.Validation.{
  ValidationFailure, valid, errors, validate_manifest_name, validate_manifest_version,
}
use wadm.Manifest.Validation.Core.{core_validation}
use wadm.Manifest.Validation.Core.Fresh.{valid-append, valid-fail}
use wadm.Manifest.Validation.Core.Unique.{IsCoherent, core_validation-IsCoherent_iff}
use wadm.Manifest.Validation.Checks.{
  check_misnamed_interfaces, check_dangling_links, validate_policies, ensure_no_custom_traits,
  validate_component_properties, check_duplicate_links, validate_link_configs, validate_manifest,
  image_of, application_of, link_ids, link_configs, same_link,
}
use wadm.Manifest.Validation.Checks.Duplicates.{Unique, duplicates-Unique_iff}
use wadm.Manifest.Validation.Checks.Parts.{
  flat_map_iff, valid-errors, valid-nil, interface_iff, IsSecretPolicy, policy_iff, IsSourced,
  source_iff, IsTyped, custom_iff,
}
use wadm.Manifest.Validation.Dangling.{
  OkValid, check_dangling_links-OkValid, has_scale, dangling_all-none_iff,
}

version_iff :
    (v : String) → (valid (errors (validate_manifest_version v)) ≡ true) ↔ (v ≢ latest_version)
unfolding validate_manifest_version
version_iff v = elim (Bool-cases (v == latest_version)) [
  | inl e ↦
      rw (e, validate_manifest_version, valid-errors, valid-fail)
        (λ h. cc, λ h. absurd (h (ground (arith, eq_iff v latest_version, e))))
  | inr e ↦
      rw (e, validate_manifest_version)
        (λ h k. ground (arith, eq_iff v latest_version, e, k), λ h. valid-nil)
]

module _ (x : External) (is_match : String → Bool) where
  -- What makes a manifest acceptable.
  pub record IsAcceptable (m : Manifest x.Value) : Type 0 where
    pub name : is_match m.metadata.name ≡ true
    pub version_name : version m ≢ latest_version
    pub coherent : IsCoherent m
    pub typed : All (λ c. All (λ t. IsTyped t t.properties) (traits_of c)) (components m)
    pub policies :
        All
          (λ c.
            All (λ s. IsSecretPolicy (lookup s.properties.policy (policy_lookup m))) (secrets c))
          (components m)
    pub sources :
        All (λ c. IsSourced c (image_of c.properties) (application_of c.properties)) (components m)
    pub links_once :
        All
          (λ c. Unique same_link (flat_map (λ t. link_ids t.properties) (component_links c)))
          (components m)
    pub configs_once : Unique ◌==◌ (flat_map (λ t. link_configs t.properties) (links m))

  name_iff :
      (name : String)
      → (valid (errors (validate_manifest_name is_match name)) ≡ true) ↔ (is_match name ≡ true)
  unfolding validate_manifest_name
  name_iff name = elim (Bool-cases (is_match name)) [
    | inl e ↦ rw (e, validate_manifest_name) (λ h. refl, λ h. valid-nil)
    | inr e ↦ rw (e, validate_manifest_name, valid-errors, valid-fail) (λ h. cc, λ h. cc)
  ]

  -- All failures, given those of the links.
  abbrev failures_with : List ValidationFailure → Manifest x.Value → List ValidationFailure
  failures_with ds m =
      errors (validate_manifest_name is_match m.metadata.name)
      ++ errors (validate_manifest_version (version m))
      ++ core_validation m
      ++ check_misnamed_interfaces m
      ++ ds
      ++ validate_policies m
      ++ ensure_no_custom_traits x m
      ++ validate_component_properties m
      ++ check_duplicate_links m
      ++ validate_link_configs m

  valid-failures_with :
      (ds : List ValidationFailure) (m : Manifest x.Value)
      → valid (failures_with ds m) ≡ (
          valid (errors (validate_manifest_name is_match m.metadata.name))
          && valid (errors (validate_manifest_version (version m)))
          && valid (core_validation m)
          && valid (check_misnamed_interfaces m)
          && valid ds
          && valid (validate_policies m)
          && valid (ensure_no_custom_traits x m)
          && valid (validate_component_properties m)
          && valid (check_duplicate_links m)
          && valid (validate_link_configs m))
  valid-failures_with ds m = simp valid-append

  misnamed_valid : (m : Manifest x.Value) → valid (check_misnamed_interfaces m) ≡ true
  unfolding check_misnamed_interfaces
  misnamed_valid m =
      (flat_map_iff _ (λ _. Unit {0}) (λ t. interface_iff t.properties) (links m)).1
        (All-tabulate (λ _. tt) (links m))

  policies_iff :
      (m : Manifest x.Value)
      → (valid (validate_policies m) ≡ true)
        ↔ All
            (λ c.
              All (λ s. IsSecretPolicy (lookup s.properties.policy (policy_lookup m))) (secrets c))
            (components m)
  unfolding validate_policies
  policies_iff m =
      flat_map_iff _ _
        (λ c.
          flat_map_iff _ _ (λ s. policy_iff s (lookup s.properties.policy (policy_lookup m)))
            (secrets c))
        (components m)

  traits_iff :
      (m : Manifest x.Value)
      → (valid (ensure_no_custom_traits x m) ≡ true)
        ↔ All (λ c. All (λ t. IsTyped t t.properties) (traits_of c)) (components m)
  unfolding ensure_no_custom_traits
  traits_iff m =
      flat_map_iff _ _ (λ c. flat_map_iff _ _ (λ t. custom_iff x t t.properties) (traits_of c))
        (components m)

  sources_iff :
      (m : Manifest x.Value)
      → (valid (validate_component_properties m) ≡ true)
        ↔ All
            (λ c. IsSourced c (image_of c.properties) (application_of c.properties))
            (components m)
  unfolding validate_component_properties
  sources_iff m =
      flat_map_iff _ _ (λ c. source_iff c (image_of c.properties) (application_of c.properties))
        (components m)

  links_once_iff :
      (m : Manifest x.Value)
      → (valid (check_duplicate_links m) ≡ true)
        ↔ All
            (λ c. Unique same_link (flat_map (λ t. link_ids t.properties) (component_links c)))
            (components m)
  unfolding check_duplicate_links
  links_once_iff m = flat_map_iff _ _ (λ c. duplicates-Unique_iff same_link _ _) (components m)

  configs_once_iff :
      (m : Manifest x.Value)
      → (valid (validate_link_configs m) ≡ true)
        ↔ Unique ◌==◌ (flat_map (λ t. link_configs t.properties) (links m))
  unfolding validate_link_configs
  configs_once_iff m = duplicates-Unique_iff ◌==◌ _ _

  failures_with-IsAcceptable_iff :
      (ds : List ValidationFailure) (m : Manifest x.Value)
      → (All (λ c. All (λ t. IsTyped t t.properties) (traits_of c)) (components m)
          → valid ds ≡ true)
      → (valid (failures_with ds m) ≡ true) ↔ IsAcceptable m
  failures_with-IsAcceptable_iff ds m dangling_fine =
      let (name_to, name_from) = name_iff m.metadata.name in
      let (version_to, version_from) = version_iff (version m) in
      let (core_to, core_from) = core_validation-IsCoherent_iff m in
      let (policies_to, policies_from) = policies_iff m in
      let (typed_to, typed_from) = traits_iff m in
      let (sources_to, sources_from) = sources_iff m in
      let (links_to, links_from) = links_once_iff m in
      let (configs_to, configs_from) = configs_once_iff m in
      rw (valid-failures_with ds m) (
        λ h. record {
          name = name_to (ground arith);
          version_name = version_to (ground arith);
          coherent = core_to (ground arith);
          typed = typed_to (ground arith);
          policies = policies_to (ground arith);
          sources = sources_to (ground arith);
          links_once = links_to (ground arith);
          configs_once = configs_to (ground arith);
        },
        λ r. ground (
          arith,
          name_from r.name,
          version_from r.version_name,
          core_from r.coherent,
          misnamed_valid m,
          dangling_fine r.typed,
          policies_from r.policies,
          typed_from r.typed,
          sources_from r.sources,
          links_from r.links_once,
          configs_from r.configs_once,
        ),
      )

  -- A manifest for which the validation returns is valid, that is without errors, exactly when it
  -- is acceptable.
  pub validate_manifest-IsAcceptable_iff :
      (m : Manifest x.Value) (fs : List ValidationFailure)
      → validate_manifest x is_match m ≡ some fs
      → (valid fs ≡ true) ↔ IsAcceptable m
  unfolding validate_manifest
  validate_manifest-IsAcceptable_iff m fs e = elim (Option-cases (check_dangling_links x m)) [
    | inl n ↦ absurd (ground (arith, n, e))
    | inr (ds, found) ↦
        let all : validate_manifest x is_match m ≡ some (failures_with ds m) =
          rw (found, validate_manifest) refl in
        let same : failures_with ds m ≡ fs = cc in
        rw (← same) (
          failures_with-IsAcceptable_iff ds m
            (λ typed. subst OkValid found (check_dangling_links-OkValid x m typed)))
  ]

  -- The validation panics exactly when a trait of type `link` has the properties of a scaler.
  pub validate_manifest-none_iff :
      (m : Manifest x.Value)
      → (validate_manifest x is_match m ≡ none)
        ↔ (any (λ t. has_scale t.properties) (links m) ≡ true)
  unfolding validate_manifest check_dangling_links
  validate_manifest-none_iff m =
      ground (arith, dangling_all-none_iff x (component_lookup m) (links m))
