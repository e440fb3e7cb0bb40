-- ===== src/Server/Publish.antt =====
-- The handler `put_model` of crates/wadm/src/server/handlers.rs. It panics (`none`) where the
-- validation does, and on a stored history that is deployed and empty.
use wadm.Prelude.{
  ℕ, String, Bool, true, false, Option, none, some, is_some, List, [], ◌∷◌, ◌++◌, map, Result, ok,
  err, Message, literal, format, str, strs, join, is_empty, eqb, if◌then◌else◌,
}
use wadm.Prelude.Texts.{trim}
use wadm.External.{External}
use wadm.Manifest.{Manifest, Component}
use wadm.Manifest.Queries.{version, shared, missing_shared_components}
use wadm.Manifest.Validation.{
  ValidationFailure, is_error, errors, valid, validate_manifest_name, validate_manifest_version,
}
use wadm.Manifest.Validation.Checks.{validate_manifest}
use wadm.Model.{StoredManifest, empty_stored, current_version, add_version, get_current, count}
use wadm.Server.{Environment, Reply, error_reply, response, PutResult, PutModelResponse}

-- The handler's own `validate_manifest`: the first failure that is an error.
unfoldable pub first_error : List ValidationFailure → Option Message
first_error [] = none
first_error (f ∷ fs) = let rest = first_error fs in if is_error f then some f.msg else rest

module _ {V : Type 0} where
  -- The current versions of the deployed applications that are shared.
  unfoldable pub deployed_shared_apps : List (StoredManifest V) → Option (List (Manifest V))
  deployed_shared_apps [] = some []
  deployed_shared_apps (s ∷ ss) =
      let rest = deployed_shared_apps ss in
      if is_some s.deployed_version
      then elim (get_current s) [
        | none ↦ none
        | some m ↦ if shared m then elim rest [ none ↦ none | some ms ↦ some (m ∷ ms) ] else rest
      ]
      else rest

  -- The text of a missing component is kept as its name.
  abbrev pub put_message : String → String → List (Component V) → Message
  put_message name current [] =
      format "Successfully put manifest {} {}" (str name ∷ str current ∷ [])
  put_message name current missing =
      format "Successfully put manifest {} {}, but some shared components are not deployed: {:?}"
        (str name ∷ str current ∷ strs (map (λ c. c.name) missing) ∷ [])

  abbrev pub put_response : String → Message → StoredManifest V → PutModelResponse
  put_response name message s = record {
    result = if eqb (count s) 1 then PutResult.created else PutResult.new_version;
    total_versions = count s;
    current_version = current_version s;
    message = message;
    name = name;
  }

module _ (x : External) (is_match : String → Bool) {σ : Type 0} (env : Environment x.Value σ) where
  unfoldable pub store_put :
      String → Message → StoredManifest x.Value → ℕ → σ → Reply PutModelResponse × σ
  store_put name message next revision s =
      let (r, t) = env.set next (some revision) s in
      elim r [
        | ok _ ↦ (response (put_response name message next), t)
        | err _ ↦ (error_reply (literal "Internal storage error"), t)
      ]

  unfoldable pub put_added :
      Bool → String → Message → String → StoredManifest x.Value → ℕ → σ → Reply PutModelResponse × σ
  put_added true incoming message name next revision s = store_put name message next revision s
  put_added false incoming message name next revision s =
      (error_reply (format "Manifest version {} already exists" (str incoming ∷ [])), s)

  unfoldable pub put_version :
      String
      → Manifest x.Value
      → String
      → StoredManifest x.Value
      → ℕ
      → List (Manifest x.Value)
      → σ
      → Reply PutModelResponse × σ
  put_version ulid m name current revision apps s =
      let message = put_message name (current_version current) (missing_shared_components apps m) in
      let (next, added) = add_version ulid m current in
      put_added added (version m) message name next revision s

  abbrev pub listed : σ → List (StoredManifest x.Value)
  listed s = elim (env.list s) [ ok ms ↦ ms | err _ ↦ [] ]

  unfoldable pub put_validated :
      Option Message
      → String
      → Manifest x.Value
      → String
      → StoredManifest x.Value
      → ℕ
      → σ
      → Option (Reply PutModelResponse × σ)
  put_validated (some message) ulid m name current revision s = some (error_reply message, s)
  put_validated none ulid m name current revision s = elim (deployed_shared_apps (listed s)) [
    | none ↦ none
    | some apps ↦ some (put_version ulid m name current revision apps s)
  ]

  unfoldable pub put_fetched :
      Result (Option (StoredManifest x.Value × ℕ))
      → String
      → Manifest x.Value
      → String
      → σ
      → Option (Reply PutModelResponse × σ)
  put_fetched (err e) ulid m name s = some (error_reply (literal "Internal storage error"), s)
  put_fetched (ok none) ulid m name s = elim (validate_manifest x is_match m) [
    | none ↦ none
    | some fs ↦ put_validated (first_error fs) ulid m name empty_stored 0 s
  ]
  put_fetched (ok (some (current, revision))) ulid m name s =
      elim (validate_manifest x is_match m) [
        | none ↦ none
        | some fs ↦ put_validated (first_error fs) ulid m name current revision s
      ]

  unfoldable pub put_named :
      String → Manifest x.Value → String → σ → Option (Reply PutModelResponse × σ)
  put_named ulid m name s =
      if valid (validate_manifest_name is_match name)
      then put_fetched (env.get name s) ulid m name s
      else some (
        error_reply (
            format
              "Manifest name {} contains invalid characters. Manifest names can only contain alphanumeric characters, dashes, and underscores."
              (str name ∷ [])),
        s,
      )

  -- The manifest is parsed elsewhere. The first argument is the ULID of a new version.
  unfoldable pub put_model :
      String → Result (Manifest x.Value) → σ → Option (Reply PutModelResponse × σ)
  put_model ulid (err e) s =
      some (error_reply (format "Unable to parse manifest: {:?}" (str e ∷ [])), s)
  put_model ulid (ok m) s =
      let failures = errors (validate_manifest_version (version m)) in
      if is_empty failures
      then put_named ulid m (trim m.metadata.name) s
      else some (
        error_reply (
            literal "invalid manifest version, errors: {:#?}"
            ++ join "\n" (map (λ f. f.msg) failures)),
        s,
      )
