-- ===== src/Server/Deploy.antt =====
-- The handler `deploy_model` of crates/wadm/src/server/handlers.rs. It panics (`none`) on an empty
-- history, and where the history of a listed application is gone when it is fetched.
use wadm.Prelude.{
  ℕ, String, Option, none, some, List, [], ◌∷◌, Map, map, lookup, insert, Result, ok, err, Message,
  literal, format, str, strs, if◌then◌else◌, ◌==◌,
}
use wadm.Manifest.{Manifest, Component, latest_version}
use wadm.Manifest.Queries.{version, missing_shared_components}
use wadm.Manifest.Validation.Core.{id_of}
use wadm.Model.{StoredManifest, empty_stored, deploy, get_current, get_version, get_deployed}
use wadm.Server.{
  Environment, Reply, error_reply, response, DeployResult, DeployModelResponse, name_of,
}
use wadm.Server.Publish.{deployed_shared_apps}

abbrev pub deploy_response : String → DeployResult → Message → Option String → DeployModelResponse
deploy_response name result message version = record {
  result = result;
  message = message;
  name = name;
  version = version;
}

module _ {V : Type 0} where
  -- The identifiers of the components, with the application that they belong to.
  unfoldable pub insert_ids : String → List (Component V) → Map String → Map String
  insert_ids name [] ids = ids
  insert_ids name (c ∷ cs) ids =
      insert_ids name cs (elim (id_of c.properties) [ none ↦ ids | some id ↦ insert id name ids ])

  -- Those of what is deployed, unless it is the same application.
  unfoldable pub add_deployed : String → StoredManifest V → Map String → Option (Map String)
  add_deployed name stored ids = elim (name_of stored) [
    | none ↦ none
    | some n ↦ some (
        if n == name then ids else elim (get_deployed stored) [
          | none ↦ ids
          | some m ↦ insert_ids n m.spec.components ids
        ])
  ]

  -- The first identifier of a component that is taken, and by which application.
  unfoldable pub find_conflict : List (Component V) → Map String → Option (String × String)
  find_conflict [] ids = none
  find_conflict (c ∷ cs) ids =
      let rest = find_conflict cs ids in
      elim (id_of c.properties) [
        | none ↦ rest
        | some id ↦ elim (lookup id ids) [ none ↦ rest | some name ↦ some (id, name) ]
      ]

  -- A history that is not found is the empty one.
  abbrev pub stored_or_default : Option (StoredManifest V × ℕ) → StoredManifest V
  stored_or_default none = empty_stored
  stored_or_default (some m) = m.0

  -- `err` is the version that does not exist.
  unfoldable pub staged_model : Option String → StoredManifest V → Option (Result (Manifest V))
  staged_model none s = elim (get_current s) [ none ↦ none | some m ↦ some (ok m) ]
  staged_model (some v) s =
      if v == latest_version
      then elim (get_current s) [ none ↦ none | some m ↦ some (ok m) ]
      else elim (get_version v s) [ none ↦ some (err v) | some m ↦ some (ok m) ]

module _ {V σ : Type 0} (env : Environment V σ) where
  -- The identifiers of all other applications that are deployed; `err` is an error of the store.
  unfoldable pub existing_ids :
      String → List (StoredManifest V) → σ → Map String → Option (Result (Map String))
  existing_ids name [] s ids = some (ok ids)
  existing_ids name (m ∷ ms) s ids =
      let rest = existing_ids name ms s ids in
      elim m.deployed_version [
        | none ↦ rest
        | some _ ↦ elim (name_of m) [
          | none ↦ none
          | some n ↦ elim (env.get n s) [
            | err e ↦ some (err e)
            | ok found ↦ elim (add_deployed name (stored_or_default found) ids) [
              | none ↦ none
              | some more ↦ existing_ids name ms s more
            ]
          ]
        ]
      ]

  -- The notification is sent also where the history could not be stored.
  unfoldable pub notify_deployed :
      String → Manifest V → DeployModelResponse → σ → Reply DeployModelResponse × σ
  notify_deployed name m answer s =
      let (r, t) = env.deployed m s in
      elim r [
        | ok _ ↦ (response answer, t)
        | err _ ↦ (
          response (
              deploy_response name DeployResult.error
                (literal
                  "Error notifying processors of newly deployed manifest. This is likely a transient error, so please retry the request")
                (some (version m))),
          t,
        )
      ]

  unfoldable pub store_deployed :
      String → StoredManifest V → ℕ → σ → Option (Reply DeployModelResponse × σ)
  store_deployed name next revision s = elim (get_deployed next) [
    | none ↦ none
    | some m ↦
        let (r, t) = env.set next (some revision) s in
        let answer : DeployModelResponse = elim r [
          | ok _ ↦
              deploy_response name DeployResult.acknowledged
                (format "Successfully deployed application {} {}" (str name ∷ str (version m) ∷ []))
                (some (version m))
          | err _ ↦
              deploy_response name DeployResult.error (literal "Internal storage error")
                (some (version m))
        ] in
        some (notify_deployed name m answer t)
  ]

  unfoldable pub deploy_checked :
      String
      → Option String
      → StoredManifest V
      → ℕ
      → List (Component V)
      → σ
      → Option (Reply DeployModelResponse × σ)
  deploy_checked name request manifests revision (c ∷ cs) s = some (
    error_reply (
        format
          "Application contains shared components that are not deployed in other applications: {:?}"
          (strs (map (λ c. c.name) (c ∷ cs)) ∷ [])),
    s,
  )
  deploy_checked name request manifests revision [] s =
      let (next, deployed) = deploy request manifests in
      if deployed
      then store_deployed name next revision s
      else some (
        response (
            deploy_response name DeployResult.error
              (format "Application with the name {} does not have the specified version to deploy"
                (str name ∷ []))
              request),
        s,
      )

  unfoldable pub deploy_staged :
      String
      → Option String
      → StoredManifest V
      → ℕ
      → List (StoredManifest V)
      → Manifest V
      → σ
      → Option (Reply DeployModelResponse × σ)
  deploy_staged name request manifests revision stored m s = elim (existing_ids name stored s []) [
    | none ↦ none
    | some (err e) ↦ some (error_reply (literal "Internal storage error"), s)
    | some (ok ids) ↦ elim (find_conflict m.spec.components ids) [
      | some (id, other) ↦ some (
        error_reply (
            format "Component identifier '{}' is already deployed in a different application '{}'."
              (str id ∷ str other ∷ [])),
        s,
      )
      | none ↦ elim (deployed_shared_apps stored) [
        | none ↦ none
        | some apps ↦
            deploy_checked name request manifests revision (missing_shared_components apps m) s
      ]
    ]
  ]

  unfoldable pub deploy_listed :
      Result (List (StoredManifest V))
      → String
      → Option String
      → StoredManifest V
      → ℕ
      → σ
      → Option (Reply DeployModelResponse × σ)
  deploy_listed (err e) name request manifests revision s =
      some (error_reply (literal "Internal storage error"), s)
  deploy_listed (ok stored) name request manifests revision s =
      elim (staged_model request manifests) [
        | none ↦ none
        | some (err v) ↦ some (
          response (
              deploy_response name DeployResult.error
                (format "Application with the name '{}' does not have a version '{}' to deploy"
                  (str name ∷ str v ∷ []))
                (some v)),
          s,
        )
        | some (ok m) ↦ deploy_staged name request manifests revision stored m s
      ]

  unfoldable pub deploy_found :
      Result (Option (StoredManifest V × ℕ))
      → String
      → Option String
      → σ
      → Option (Reply DeployModelResponse × σ)
  deploy_found (err e) name request s = some (error_reply (literal "Internal storage error"), s)
  deploy_found (ok none) name request s = some (
    response (
        deploy_response name DeployResult.not_found
          (format "Application with the name {} not found" (str name ∷ [])) request),
    s,
  )
  deploy_found (ok (some m)) name request s = deploy_listed (env.list s) name request m.0 m.1 s

  unfoldable pub deploy_model :
      Result (Option String) → String → σ → Option (Reply DeployModelResponse × σ)
  deploy_model (err e) name s =
      some (error_reply (format "Unable to parse deploy application request: {:?}" (str e ∷ [])), s)
  deploy_model (ok request) name s = deploy_found (env.get name s) name request s
