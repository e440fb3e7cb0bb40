-- ===== src/Server/Queries.antt =====
-- The handlers `get_model` and `list_versions` of crates/wadm/src/server/handlers.rs, which leave
-- the store as it is. `get_model` panics (`none`) on an empty history.
use wadm.Prelude.{
  ℕ, String, Option, none, some, [], ◌∷◌, map, Result, ok, err, Message, literal, format, str,
}
use wadm.Model.{StoredManifest, get_version, get_current, all_versions, is_deployed}
use wadm.Server.{
  Environment, Reply, error_reply, response, GetResult, GetModelResponse, VersionResponse,
}

module _ {V : Type 0} where
  abbrev pub not_found : Message → Reply (GetModelResponse V)
  not_found message =
      response (record { result = GetResult.not_found; message = message; manifest = none })

  unfoldable pub found :
      String → Option String → StoredManifest V → Option (Reply (GetModelResponse V))
  found name none manifests = elim (get_current manifests) [
    | none ↦ none
    | some m ↦ some (
        response (record {
          result = GetResult.success;
          message = format "Successfully fetched application {}" (str name ∷ []);
          manifest = some m;
        }))
  ]
  found name (some version) manifests = some (elim (get_version version manifests) [
    | none ↦
        not_found
          (format "Application {} with version {} doesn't exist" (str name ∷ str version ∷ []))
    | some m ↦ response (record {
      result = GetResult.success;
      message = format "Successfully fetched application {} {}" (str name ∷ str version ∷ []);
      manifest = some m;
    })
  ])

  unfoldable pub get_found :
      String
      → Option String
      → Result (Option (StoredManifest V × ℕ))
      → Option (Reply (GetModelResponse V))
  get_found name version (err e) = some (error_reply (literal "Internal storage error"))
  get_found name version (ok none) =
      some (not_found (format "Application with the name {} not found" (str name ∷ [])))
  get_found name version (ok (some m)) = found name version m.0

  unfoldable pub versions_found :
      String → Result (Option (StoredManifest V × ℕ)) → Reply VersionResponse
  versions_found name (err e) = error_reply (literal "Internal storage error")
  versions_found name (ok none) = response (record {
    result = GetResult.not_found;
    message = format "Application with the name {} not found" (str name ∷ []);
    versions = [];
  })
  versions_found name (ok (some m)) = response (record {
    result = GetResult.success;
    message = format "Successfully fetched versions for application {}" (str name ∷ []);
    versions = map (λ v. record { version = v; deployed = is_deployed v m.0 }) (all_versions m.0);
  })

module _ {V σ : Type 0} (env : Environment V σ) where
  unfoldable pub get_model :
      Result (Option String) → String → σ → Option (Reply (GetModelResponse V))
  get_model (err e) name s =
      some (error_reply (format "Unable to parse get application request: {:?}" (str e ∷ [])))
  get_model (ok version) name s = get_found name version (env.get name s)

  unfoldable pub list_versions : String → σ → Reply VersionResponse
  list_versions name s = versions_found name (env.get name s)
