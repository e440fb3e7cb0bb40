-- ===== src/Examples/Serving.antt =====
-- Examples for the server, over a store in memory.
use wadm.Prelude.{
  String, ◌≡◌, ◌≢◌, ◌⊎◌, refl, arith, true, Option, none, some, List, [], ◌∷◌, Map, lookup, insert,
  remove, lookup-insert, lookup-remove, eq_refl, Result, ok, err, format, str, subst,
}
use wadm.Manifest.{Manifest, version_annotation_key}
use wadm.Model.{StoredManifest, get_current, delete_version, undeploy}
use wadm.Server.{
  Environment, response, DeleteResult, DeleteModelResponse, DeployResult, DeployModelResponse,
  name_of,
}
use wadm.Server.Removal.{
  delete_response, undeploy_response, delete_model, undeploy_model, delete_data, delete_stored,
  delete_found, store_rest, notify_deleted, undeploy_found, store_undeployed, notify_undeployed,
}
use wadm.Server.Promises.{IsStore, IsNamed}
use wadm.Server.Promises.Undeployment.{IsUndeployed, undeploy_model-acknowledged}
use wadm.Server.Promises.Deletion.{IsRemoved, delete_model-deleted}

abbrev pub Memory : Type 0
Memory = Map (StoredManifest String)

abbrev put : Option String → StoredManifest String → Memory → Result (Unit {0}) × Memory
put none m s = (err "no versions", s)
put (some n) m s = (ok tt, insert n m s)

abbrev pub memory : Environment String Memory
memory = record {
  get = λ n s. ok (elim (lookup n s) [ none ↦ none | some m ↦ some (m, 1) ]);
  list = λ s. ok [];
  set = λ m r s. put (name_of m) m s;
  delete = λ n s. (ok tt, remove n s);
  deployed = λ m s. (ok tt, s);
  undeployed = λ n s. (ok tt, s);
}

abbrev pub contents : Memory → String → Option (StoredManifest String)
contents s n = lookup n s

pub memory-IsStore : IsStore memory contents
memory-IsStore = record {
  get_found = λ n s m r e. ground (arith, e);
  get_missing = λ n s e. ground (arith, e);
  set_stores = λ m r s n e k. rw e (rw (lookup-insert n n m s, eq_refl n) refl);
  delete_removes = λ n s k. rw (lookup-remove n n s, eq_refl n) refl;
  deployed_keeps = λ m k s. refl;
  undeployed_keeps = λ n k s. refl;
}

abbrev pub version_of : String → String × Manifest String
version_of v = (
  v,
  record {
    api_version = "core.oam.dev/v1beta1";
    kind = "Application";
    metadata = record {
      name = "hello";
      annotations = (version_annotation_key, v) ∷ [];
      labels = [];
    };
    spec = record { components = []; policies = [] };
  },
)

abbrev pub history : Option String → List (String × Manifest String) → StoredManifest String
history deployed versions = record { manifests = versions; deployed_version = deployed }

abbrev before : Memory
before = ("hello", history (some "v1") (version_of "v1" ∷ version_of "v2" ∷ [])) ∷ []

before-IsNamed : (m : StoredManifest String) → contents before "hello" ≡ some m → IsNamed "hello" m
unfolding lookup
before-IsNamed m e =
    let same : history (some "v1") (version_of "v1" ∷ version_of "v2" ∷ []) ≡ m = cc in
    subst (IsNamed "hello") same ((refl, (refl, tt)), λ n. cc)

abbrev undeployed : Memory
undeployed = ("hello", history none (version_of "v1" ∷ version_of "v2" ∷ [])) ∷ []

abbrev acknowledgement : DeployModelResponse
acknowledgement =
    undeploy_response "hello" DeployResult.acknowledged
      (format "Successfully undeployed application {}" (str "hello" ∷ []))

undeploy_model-hello :
    undeploy_model memory (ok tt) "hello" before ≡ (response acknowledgement, undeployed)
unfolding undeploy_model undeploy_found store_undeployed notify_undeployed undeploy get_current
    lookup insert
undeploy_model-hello = refl

undeploy_model-acknowledged_example :
    IsUndeployed memory contents memory-IsStore undeployed "hello"
    × (s : Memory) × (memory.undeployed "hello" s ≡ (ok tt, undeployed))
undeploy_model-acknowledged_example =
    undeploy_model-acknowledged memory contents memory-IsStore "hello" before undeployed
      acknowledgement before-IsNamed undeploy_model-hello refl

abbrev deletion : DeleteModelResponse
deletion =
    delete_response DeleteResult.deleted true
      (format "Successfully deleted version {} of application {}" (str "v1" ∷ str "hello" ∷ []))

abbrev without : Memory
without = ("hello", history none (version_of "v2" ∷ [])) ∷ []

delete_model-hello :
    delete_model memory (ok (some "v1")) "hello" before ≡ (response deletion, without)
unfolding delete_model delete_data delete_stored delete_found store_rest notify_deleted
    delete_version undeploy get_current lookup insert remove
delete_model-hello = refl

delete_model-deleted_example :
    IsRemoved (some "v1") "hello" (contents without "hello")
    ⊎ ((memory.delete "hello" before).0 ≢ ok tt)
delete_model-deleted_example =
    delete_model-deleted memory contents memory-IsStore (some "v1") "hello" before without deletion
      before-IsNamed delete_model-hello refl
