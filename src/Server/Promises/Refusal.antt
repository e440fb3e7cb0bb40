-- ===== src/Server/Promises/Refusal.antt =====
-- What a refused manifest means.
use wadm.Prelude.{
  ℕ, String, ◌≡◌, arith, ◌⊎◌, inl, inr, Bool, true, false, Option, none, some, List, is_empty,
  Result, ok, err, Message, Bool-cases, Option-cases, Result-cases,
}
use wadm.External.{External}
use wadm.Manifest.{Manifest}
use wadm.Manifest.Queries.{version}
use wadm.Manifest.Validation.{errors, valid, validate_manifest_name, validate_manifest_version}
use wadm.Manifest.Validation.Checks.{validate_manifest}
use wadm.Model.{StoredManifest, empty_stored}
use wadm.Server.{Environment, error_reply}
use wadm.Prelude.Texts.{trim}
use wadm.Server.Publish.{
  first_error, deployed_shared_apps, store_put, put_added, put_version, listed, put_validated,
  put_fetched, put_named, put_model,
}

module _ (x : External) (is_match : String → Bool) {σ : Type 0} (env : Environment x.Value σ) where
  -- The store reported that it could not store a history.
  pub record HasFailed (s t : σ) : Type 0 where
    pub next : StoredManifest x.Value
    pub revision : ℕ
    pub reason : String
    pub failed : env.set next (some revision) s ≡ (err reason, t)

  abbrev pub IsUntouched : σ → σ → Type 0
  IsUntouched s t = (t ≡ s) ⊎ HasFailed s t

  store_put-IsUntouched :
      (name : String) (message e : Message) (next : StoredManifest x.Value) (r : ℕ) (s t : σ)
      → store_put x is_match env name message next r s ≡ (error_reply e, t)
      → IsUntouched s t
  unfolding store_put
  store_put-IsUntouched name message e next r s t h =
      elim (Result-cases (env.set next (some r) s).0) [
        | inl (_, k) ↦ absurd (ground (arith, k, h))
        | inr (reason, k) ↦
            let after : (env.set next (some r) s).1 ≡ t = ground (arith, k, h) in
            inr (record {
              next = next;
              revision = r;
              reason = reason;
              failed = (λ i. (k i, after i));
            })
      ]

  put_added-IsUntouched :
      (b : Bool) (incoming name : String) (message e : Message) (next : StoredManifest x.Value)
      (r : ℕ) (s t : σ)
      → put_added x is_match env b incoming message name next r s ≡ (error_reply e, t)
      → IsUntouched s t
  unfolding put_added
  put_added-IsUntouched true incoming name message e next r s t h =
      store_put-IsUntouched name message e next r s t h
  put_added-IsUntouched false incoming name message e next r s t h = inl (ground (arith, h))

  module _ (ulid : String) (m : Manifest x.Value) where
    put_version-IsUntouched :
        (name : String) (base : StoredManifest x.Value) (r : ℕ) (apps : List (Manifest x.Value))
        (s t : σ) (e : Message)
        → put_version x is_match env ulid m name base r apps s ≡ (error_reply e, t)
        → IsUntouched s t
    unfolding put_version
    put_version-IsUntouched name base r apps s t e h = put_added-IsUntouched _ _ name _ e _ r s t h

    put_validated-IsUntouched :
        (f : Option Message) (name : String) (base : StoredManifest x.Value) (r : ℕ) (s t : σ)
        (e : Message)
        → put_validated x is_match env f ulid m name base r s ≡ some (error_reply e, t)
        → IsUntouched s t
    unfolding put_validated
    put_validated-IsUntouched (some f) name base r s t e h = inl (ground (arith, h))
    put_validated-IsUntouched none name base r s t e h =
        elim (Option-cases (deployed_shared_apps (listed x is_match env s))) [
          | inl k ↦ absurd (ground (arith, k, h))
          | inr (apps, k) ↦ put_version-IsUntouched name base r apps s t e (ground (arith, k, h))
        ]

    put_fetched-IsUntouched :
        (g : Result (Option (StoredManifest x.Value × ℕ))) (name : String) (s t : σ) (e : Message)
        → put_fetched x is_match env g ulid m name s ≡ some (error_reply e, t)
        → IsUntouched s t
    unfolding put_fetched
    put_fetched-IsUntouched (err k) name s t e h = inl (ground (arith, h))
    put_fetched-IsUntouched (ok none) name s t e h =
        elim (Option-cases (validate_manifest x is_match m)) [
          | inl v ↦ absurd (ground (arith, v, h))
          | inr (fs, v) ↦
              put_validated-IsUntouched (first_error fs) name empty_stored 0 s t e
                (ground (arith, v, h))
        ]
    put_fetched-IsUntouched (ok (some (base, r))) name s t e h =
        elim (Option-cases (validate_manifest x is_match m)) [
          | inl v ↦ absurd (ground (arith, v, h))
          | inr (fs, v) ↦
              put_validated-IsUntouched (first_error fs) name base r s t e (ground (arith, v, h))
        ]

    put_named-IsUntouched :
        (name : String) (s t : σ) (e : Message)
        → put_named x is_match env ulid m name s ≡ some (error_reply e, t)
        → IsUntouched s t
    unfolding put_named
    put_named-IsUntouched name s t e h =
        elim (Bool-cases (valid (validate_manifest_name is_match name))) [
          | inl k ↦ put_fetched-IsUntouched (env.get name s) name s t e (ground (arith, k, h))
          | inr k ↦ inl (ground (arith, k, h))
        ]

    put_parsed-IsUntouched :
        (s t : σ) (e : Message)
        → put_model x is_match env ulid (ok m) s ≡ some (error_reply e, t)
        → IsUntouched s t
    unfolding put_model
    put_parsed-IsUntouched s t e h =
        elim (Bool-cases (is_empty (errors (validate_manifest_version (version m))))) [
          | inl k ↦ put_named-IsUntouched (trim m.metadata.name) s t e (ground (arith, k, h))
          | inr k ↦ inl (ground (arith, k, h))
        ]

  -- A put that is answered with an error leaves the state as it was, or its one step was an attempt
  -- to store a history that the store refused.
  pub put_model-IsUntouched :
      (ulid : String) (request : Result (Manifest x.Value)) (s t : σ) (e : Message)
      → put_model x is_match env ulid request s ≡ some (error_reply e, t)
      → IsUntouched s t
  unfolding put_model
  put_model-IsUntouched ulid (err f) s t e h = inl (ground (arith, h))
  put_model-IsUntouched ulid (ok m) s t e h = put_parsed-IsUntouched ulid m s t e h
