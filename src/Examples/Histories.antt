-- ===== src/Examples/Histories.antt =====
-- Examples for the history of an application.
use wadm.Prelude.{String, ◌≡◌, ◌⊎◌, refl, true, false, none, some, List, [], ◌∷◌, Map, Distinct}
use wadm.Manifest.{Manifest, version_annotation_key}
use wadm.Model.{StoredManifest, deploy, empty_stored, all_versions}
use wadm.Model.Versions.{IsValid}
use wadm.Model.Deployment.{Deploys, requested, deploy_lem}
use wadm.Model.Histories.{Change, adds, deletes, deploys, undeploys, run, run-IsValid}

abbrev hello : Map String → Manifest String
hello annotations = record {
  api_version = "core.oam.dev/v1beta1";
  kind = "Application";
  metadata = record { name = "hello"; annotations = annotations; labels = [] };
  spec = record { components = []; policies = [] };
}

abbrev stored : StoredManifest String
stored = record {
  manifests =
      ("v1", hello ((version_annotation_key, "v1") ∷ []))
      ∷ ("v2", hello ((version_annotation_key, "v2") ∷ []))
      ∷ [];
  deployed_version = some "v1";
}

abbrev unversioned : Manifest String
unversioned = hello []

stored-Distinct : Distinct (all_versions stored)
stored-Distinct = (refl, (refl, tt))

deploy_lem_example :
    let (t, done) = deploy (some "v2") stored in
    ((done ≡ true) × Deploys stored t (requested (some "v2") stored))
    ⊎ ((done ≡ false) × (t ≡ stored) × (requested (some "v2") stored ≡ none))
deploy_lem_example = deploy_lem (some "v2") stored stored-Distinct (λ e. cc)

empty-IsValid : IsValid {V = String} empty_stored
empty-IsValid = record { distinct = tt; annotations = tt }

abbrev session : List (Change String)
session =
    adds "v1" unversioned ∷ adds "v2" unversioned ∷ deploys none ∷ deletes "v1" ∷ undeploys ∷ []

run-IsValid_example : IsValid (run empty_stored session)
run-IsValid_example = run-IsValid session empty_stored empty-IsValid
