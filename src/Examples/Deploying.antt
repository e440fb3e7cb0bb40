-- ===== src/Examples/Deploying.antt =====
-- Examples for the handler `deploy_model`: two applications, of which one is deployed.
use wadm.Prelude.{
  String, ◌≡◌, refl, Option, none, some, [], ◌∷◌, map, ok, lookup, insert, subst, Distinct, format,
  str,
}
use wadm.Manifest.{Manifest, Component, component, version_annotation_key}
use wadm.Manifest.Queries.{version, missing_shared_components, is_missing, shared}
use wadm.Model.{StoredManifest, deploy, current_version, get_current, get_deployed, all_versions}
use wadm.Server.{Environment, response, error_reply, DeployResult, DeployModelResponse}
use wadm.Server.Publish.{deployed_shared_apps}
use wadm.Server.Deploy.{
  insert_ids, add_deployed, find_conflict, staged_model, existing_ids, notify_deployed,
  store_deployed, deploy_checked, deploy_staged, deploy_listed, deploy_found, deploy_model,
}
use wadm.Server.Promises.{IsStore, IsNamed}
use wadm.Server.Promises.Rivals.{IsAdmitted, deploy_model-IsAdmitted}
use wadm.Server.Promises.Deployed.{IsDeployed, deploy_model-IsDeployed}
use wadm.Examples.Serving.{Memory, memory, contents, memory-IsStore, history}

abbrev listing : Environment String Memory
listing = record memory { list = λ s. ok (map (λ e. e.1) s) }

listing-IsStore : IsStore listing contents
listing-IsStore = record {
  get_found = memory-IsStore.get_found;
  get_missing = memory-IsStore.get_missing;
  set_stores = memory-IsStore.set_stores;
  delete_removes = memory-IsStore.delete_removes;
  deployed_keeps = memory-IsStore.deployed_keeps;
  undeployed_keeps = memory-IsStore.undeployed_keeps;
}

abbrev part : String → Component String
part id = record {
  name = "part";
  properties = component (record {
    image = some "ghcr.io/part:1";
    application = none;
    id = some id;
    config = [];
    secrets = [];
  });
  traits = none;
}

abbrev app : String → String → String × Manifest String
app name id = (
  "v1",
  record {
    api_version = "core.oam.dev/v1beta1";
    kind = "Application";
    metadata = record {
      name = name;
      annotations = (version_annotation_key, "v1") ∷ [];
      labels = [];
    };
    spec = record { components = part id ∷ []; policies = [] };
  },
)

abbrev apps : Option String → String → Memory
apps deployed id =
    ("hello", history deployed (app "hello" id ∷ []))
    ∷ ("other", history (some "v1") (app "other" "b" ∷ []))
    ∷ []

abbrev answer : DeployModelResponse
answer = record {
  result = DeployResult.acknowledged;
  message = format "Successfully deployed application {} {}" (str "hello" ∷ str "v1" ∷ []);
  name = "hello";
  version = some "v1";
}

runs :
    (deploy_model listing (ok none) "hello" (apps none "a")
      ≡ some (response answer, apps (some "v1") "a"))
    × (deploy_model listing (ok none) "hello" (apps none "b")
        ≡ some (
          error_reply (
              format
                "Component identifier '{}' is already deployed in a different application '{}'."
                (str "b" ∷ str "other" ∷ [])),
          apps none "b",
        ))
unfolding deploy_model deploy_found deploy_listed staged_model deploy_staged existing_ids
    add_deployed insert_ids find_conflict deploy_checked deployed_shared_apps store_deployed
    notify_deployed deploy current_version get_current get_deployed version
    missing_shared_components is_missing lookup insert shared
runs = (refl, refl)

deploy_model-IsAdmitted_example : IsAdmitted listing "hello" (apps none "a") none
deploy_model-IsAdmitted_example =
    deploy_model-IsAdmitted listing "hello" (apps none "a") none (apps (some "v1") "a") answer refl
      runs.0

fine :
    (m : StoredManifest String)
    → contents (apps none "a") "hello" ≡ some m
    → IsNamed "hello" m × Distinct (all_versions m)
unfolding lookup
fine m e =
    let same : history none (app "hello" "a" ∷ []) ≡ m = cc in
    subst (λ m. IsNamed "hello" m × Distinct (all_versions m)) same
      (((refl, tt), λ n. cc), (refl, tt))

deploy_model-IsDeployed_example :
    IsDeployed listing contents listing-IsStore "hello" none
      (apps none "a")
      (apps (some "v1") "a")
      answer
      refl
deploy_model-IsDeployed_example =
    deploy_model-IsDeployed listing contents listing-IsStore "hello" none (apps none "a")
      (apps (some "v1") "a") answer refl fine runs.0
