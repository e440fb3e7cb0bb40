-- ===== src/Server/Removal.antt =====
-- The handlers `delete_model` and `undeploy_model` of crates/wadm/src/server/handlers.rs.
use wadm.Prelude.{
  ℕ, String, Bool, true, false, ◌||◌, Option, none, some, [], ◌∷◌, Result, ok, err, Message,
  literal, format, str, is_empty, if◌then◌else◌, ◌==◌,
}
use wadm.Model.{StoredManifest, delete_version, undeploy}
use wadm.Server.{
  Environment, Reply, error_reply, response, DeleteResult, DeleteModelResponse, DeployResult,
  DeployModelResponse,
}

abbrev pub delete_response : DeleteResult → Bool → Message → DeleteModelResponse
delete_response result undeploy message = record {
  result = result;
  message = message;
  undeploy = undeploy;
}

abbrev pub undeploy_response : String → DeployResult → Message → DeployModelResponse
undeploy_response name result message = record {
  result = result;
  message = message;
  name = name;
  version = none;
}

module _ {V σ : Type 0} (env : Environment V σ) where
  -- A version that was deleted, with others left: it is no longer deployed.
  unfoldable pub store_rest : String → String → StoredManifest V → ℕ → σ → DeleteModelResponse × σ
  store_rest name version current revision s =
      let undeployed : Bool = elim current.deployed_version [
        | none ↦ false
        | some v ↦ v == version
      ] in
      let kept = if undeployed then (undeploy current).0 else current in
      let (r, t) = env.set kept (some revision) s in
      elim r [
        | ok _ ↦ (
          delete_response DeleteResult.deleted undeployed (
              format "Successfully deleted version {} of application {}"
                (str version ∷ str name ∷ [])),
          t,
        )
        | err _ ↦ (
          delete_response DeleteResult.error false (
              format "Internal storage error when deleting {} of application {}"
                (str version ∷ str name ∷ [])),
          t,
        )
      ]

  -- The last version was deleted. A storage error is reported as deleted, too.
  unfoldable pub delete_last : String → String → σ → DeleteModelResponse × σ
  delete_last name version s =
      let (r, t) = env.delete name s in
      elim r [
        | ok _ ↦ (
          delete_response DeleteResult.deleted true
              (format "Successfully deleted last version of application {}" (str name ∷ [])),
          t,
        )
        | err _ ↦ (
          delete_response DeleteResult.deleted false (
              format "Internal storage error when deleting {} of application {}"
                (str version ∷ str name ∷ [])),
          t,
        )
      ]

  unfoldable pub delete_whole : String → σ → DeleteModelResponse × σ
  delete_whole name s =
      let (r, t) = env.delete name s in
      elim r [
        | ok _ ↦ (
          delete_response DeleteResult.deleted true
              (format "Successfully deleted application {}" (str name ∷ [])),
          t,
        )
        | err _ ↦ (
          delete_response DeleteResult.error false
              (format "Internal storage error when deleting application {}" (str name ∷ [])),
          t,
        )
      ]

  -- By whether the version was there, and whether it was the last one.
  unfoldable pub delete_found :
      Bool → Bool → String → String → StoredManifest V → ℕ → σ → DeleteModelResponse × σ
  delete_found true false name version current revision s =
      store_rest name version current revision s
  delete_found true true name version current revision s = delete_last name version s
  delete_found false _ name version current revision s = (
    delete_response DeleteResult.noop false
        (format "Application version {} doesn't exist" (str version ∷ [])),
    s,
  )

  unfoldable pub delete_stored :
      Option String → String → StoredManifest V → ℕ → σ → DeleteModelResponse × σ
  delete_stored none name current revision s = delete_whole name s
  delete_stored (some version) name current revision s =
      let (left, deleted) = delete_version version current in
      delete_found deleted (is_empty left.manifests) name version left revision s

  -- The data of the reply, before any notification.
  unfoldable pub delete_data :
      Option String → String → Result (Option (StoredManifest V × ℕ)) → σ → DeleteModelResponse × σ
  delete_data request name (ok (some m)) s = delete_stored request name m.0 m.1 s
  delete_data request name (ok none) s = (
    delete_response DeleteResult.noop false
        (format "Application {} doesn't exist or was already deleted" (str name ∷ [])),
    s,
  )
  delete_data request name (err e) s = (
    delete_response DeleteResult.error false (
        format "Internal storage error while fetching manifest answer for application {}"
          (str name ∷ [])),
    s,
  )

  abbrev pub is_noop : DeleteResult → Bool
  is_noop DeleteResult.noop = true
  is_noop _ = false

  -- A no-op is notified as well.
  unfoldable pub notify_deleted : String → DeleteModelResponse → σ → Reply DeleteModelResponse × σ
  notify_deleted name answer s =
      let (r, t) = env.undeployed name s in
      elim (answer.undeploy || is_noop answer.result) [
        | false ↦ (response answer, s)
        | true ↦ elim r [
          | ok _ ↦ (response answer, t)
          | err _ ↦ (
            response (
                delete_response DeleteResult.error false (
                  literal
                    "Error notifying processors of newly undeployed manifest on delete. This is likely a transient error, so please retry the request. Please note that the response will say it is a noop, but will notify the processors")),
            t,
          )
        ]
      ]

  -- The request is parsed elsewhere: a version, or none for the whole application.
  unfoldable pub delete_model : Result (Option String) → String → σ → Reply DeleteModelResponse × σ
  delete_model (err e) name s =
      (error_reply (format "Unable to parse delete application request: {:?}" (str e ∷ [])), s)
  delete_model (ok request) name s =
      let (answer, t) = delete_data request name (env.get name s) s in notify_deleted name answer t

  unfoldable pub store_undeployed :
      Bool → String → StoredManifest V → ℕ → σ → DeployModelResponse × σ
  store_undeployed false name current revision s = (
    undeploy_response name DeployResult.acknowledged
        (format "Application {} was already undeployed" (str name ∷ [])),
    s,
  )
  store_undeployed true name current revision s =
      let (r, t) = env.set current (some revision) s in
      elim r [
        | ok _ ↦ (
          undeploy_response name DeployResult.acknowledged
              (format "Successfully undeployed application {}" (str name ∷ [])),
          t,
        )
        | err _ ↦ (undeploy_response name DeployResult.error (literal "Internal storage error"), t)
      ]

  unfoldable pub notify_undeployed :
      String → DeployModelResponse → σ → Reply DeployModelResponse × σ
  notify_undeployed name answer s =
      let (r, t) = env.undeployed name s in
      elim answer.result [
        | DeployResult.acknowledged ↦ elim r [
          | ok _ ↦ (response answer, t)
          | err _ ↦ (
            response (
                undeploy_response name DeployResult.error (
                  literal
                    "Error notifying processors of undeployed manifest. This is likely a transient error, so please retry the request")),
            t,
          )
        ]
        | _ ↦ (response answer, s)
      ]

  unfoldable pub undeploy_found :
      String → Result (Option (StoredManifest V × ℕ)) → σ → Reply DeployModelResponse × σ
  undeploy_found name (err e) s = (error_reply (literal "Internal storage error"), s)
  undeploy_found name (ok none) s = (
    response (
        undeploy_response name DeployResult.not_found
          (format "Application with the name {} not found" (str name ∷ []))),
    s,
  )
  undeploy_found name (ok (some m)) s =
      let (manifests, changed) = undeploy m.0 in
      let (answer, t) = store_undeployed changed name manifests m.1 s in
      notify_undeployed name answer t

  unfoldable pub undeploy_model : Result (Unit {0}) → String → σ → Reply DeployModelResponse × σ
  undeploy_model (err e) name s =
      (error_reply (format "Unable to parse undeploy application request: {:?}" (str e ∷ [])), s)
  undeploy_model (ok _) name s = undeploy_found name (env.get name s) s
