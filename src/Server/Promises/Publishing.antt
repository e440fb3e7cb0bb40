-- ===== src/Server/Promises/Publishing.antt =====
-- What an accepted manifest means.
use wadm.Prelude.{
  ℕ, String, ◌≡◌, refl, sym, ◌∙◌, ap, subst, arith, ◌⊎◌, inl, inr, Bool, true, false, Option, none,
  some, List, [], ◌∷◌, lookup, is_empty, Result, ok, err, Message, Bool-cases, Option-cases,
  Result-cases,
}
use wadm.External.{External}
use wadm.Manifest.{Manifest, version_annotation_key}
use wadm.Manifest.Queries.{version}
use wadm.Manifest.Validation.{
  ValidationFailure, is_error, errors, valid, validate_manifest_name, validate_manifest_version,
}
use wadm.Manifest.Validation.Checks.{validate_manifest}
use wadm.Manifest.Validation.Whole.{IsAcceptable, validate_manifest-IsAcceptable_iff}
use wadm.Model.{StoredManifest, empty_stored, assign_version, get_current, count}
use wadm.Model.Versions.{IsAdded, add_version_lem}
use wadm.Server.{Environment, response, PutModelResponse, name_of}
use wadm.Prelude.Texts.{trim}
use wadm.Server.Publish.{
  first_error, deployed_shared_apps, put_response, store_put, put_added, put_version, listed,
  put_validated, put_fetched, put_named, put_model,
}
use wadm.Server.Promises.{IsStore}

first_error-none : (fs : List ValidationFailure) → first_error fs ≡ none → valid fs ≡ true
unfolding first_error valid
first_error-none [] e = refl
first_error-none (f ∷ fs) e = elim (Bool-cases (is_error f)) [
  | inl k ↦ absurd (ground (arith, k, e))
  | inr k ↦ let rest = first_error-none fs (ground (arith, k, e)) in ground (arith, k, rest)
]

module _ {V : Type 0} where
  name_of-added :
      (ulid : String) (m : Manifest V) (s : StoredManifest V)
      → get_current s ≡ some (assign_version ulid m).1
      → name_of s ≡ some m.metadata.name
  unfolding assign_version
  name_of-added ulid m s e =
      rw (e, name_of)
        (elim (Option-cases (lookup version_annotation_key m.metadata.annotations)) [
          | inl k ↦ rw (k, assign_version) refl
          | inr (v, k) ↦ rw (k, assign_version) refl
        ])

module _ (x : External) (is_match : String → Bool) {σ : Type 0} (env : Environment x.Value σ)
    (contents : σ → String → Option (StoredManifest x.Value)) (store : IsStore env contents)
    (ulid : String) (m : Manifest x.Value) where
  -- The next history of an application, and the answer that tells of it.
  pub record IsPut (base : StoredManifest x.Value) (t : σ) (a : PutModelResponse) : Type 0 where
    pub next : StoredManifest x.Value
    pub added : IsAdded base next (assign_version ulid m).0 (assign_version ulid m).1
    pub stored : contents t m.metadata.name ≡ some next
    pub version_answered : a.current_version ≡ (assign_version ulid m).0
    pub total : a.total_versions ≡ count next

  store_put-IsPut :
      (name : String) (message : Message) (base next : StoredManifest x.Value) (r : ℕ) (s t : σ)
      (a : PutModelResponse)
      → IsAdded base next (assign_version ulid m).0 (assign_version ulid m).1
      → store_put x is_match env name message next r s ≡ (response a, t)
      → IsPut base t a
  unfolding store_put
  store_put-IsPut name message base next r s t a added e =
      elim (Result-cases (env.set next (some r) s).0) [
        | inl (u, k) ↦
            let same : put_response name message next ≡ a = ground (arith, k, e) in
            let after : (env.set next (some r) s).1 ≡ t = ground (arith, k, e) in
            let named = name_of-added ulid m next added.current in
            record {
              next = next;
              added = added;
              stored =
                  subst (λ t. contents t m.metadata.name ≡ some next) after
                    (store.set_stores next (some r) s m.metadata.name named k);
              version_answered = ap (λ a. a.current_version) (sym same) ∙ added.current_name;
              total = ap (λ a. a.total_versions) (sym same);
            }
        | inr (f, k) ↦ absurd (ground (arith, k, e))
      ]

  put_added-IsPut :
      (b : Bool) (incoming name : String) (message : Message) (base next : StoredManifest x.Value)
      (r : ℕ) (s t : σ) (a : PutModelResponse)
      → (b ≡ true → IsAdded base next (assign_version ulid m).0 (assign_version ulid m).1)
      → put_added x is_match env b incoming message name next r s ≡ (response a, t)
      → IsPut base t a
  unfolding put_added
  put_added-IsPut true incoming name message base next r s t a added e =
      store_put-IsPut name message base next r s t a (added refl) e
  put_added-IsPut false incoming name message base next r s t a added e = absurd (ground (arith, e))

  put_version-IsPut :
      (name : String) (base : StoredManifest x.Value) (r : ℕ) (apps : List (Manifest x.Value))
      (s t : σ) (a : PutModelResponse)
      → put_version x is_match env ulid m name base r apps s ≡ (response a, t)
      → IsPut base t a
  unfolding put_version
  put_version-IsPut name base r apps s t a e =
      put_added-IsPut _ _ name _ base _ r s t a
        (λ k. elim (add_version_lem ulid m base) [
          | inl (_, added) ↦ added
          | inr (n, _, _) ↦ absurd (ground (arith, k, n))
        ])
        e

  put_validated-IsPut :
      (f : Option Message) (name : String) (base : StoredManifest x.Value) (r : ℕ) (s t : σ)
      (a : PutModelResponse)
      → put_validated x is_match env f ulid m name base r s ≡ some (response a, t)
      → (f ≡ none) × IsPut base t a
  unfolding put_validated
  put_validated-IsPut (some f) name base r s t a e = absurd (ground (arith, e))
  put_validated-IsPut none name base r s t a e =
      elim (Option-cases (deployed_shared_apps (listed x is_match env s))) [
        | inl k ↦ absurd (ground (arith, k, e))
        | inr (apps, k) ↦ (refl, put_version-IsPut name base r apps s t a (ground (arith, k, e)))
      ]

  -- The history that the handler found under the trimmed name, which is empty where there is none.
  abbrev pub IsFound : σ → StoredManifest x.Value → Type 0
  IsFound s base =
      ((r : ℕ) × (env.get (trim m.metadata.name) s ≡ ok (some (base, r))))
      ⊎ ((env.get (trim m.metadata.name) s ≡ ok none) × (base ≡ empty_stored))

  pub record IsAccepted (s t : σ) (a : PutModelResponse) : Type 0 where
    pub acceptable : IsAcceptable x is_match m
    pub base : StoredManifest x.Value
    pub found : IsFound s base
    pub put : IsPut base t a

  checked-IsAccepted :
      (base : StoredManifest x.Value) (r : ℕ) (fs : List ValidationFailure) (s t : σ)
      (a : PutModelResponse)
      → IsFound s base
      → validate_manifest x is_match m ≡ some fs
      → put_validated x is_match env (first_error fs) ulid m (trim m.metadata.name) base r s
        ≡ some (response a, t)
      → IsAccepted s t a
  checked-IsAccepted base r fs s t a found v e =
      let (fine, put) =
        put_validated-IsPut (first_error fs) (trim m.metadata.name) base r s t a e in
      let (sound, _) = validate_manifest-IsAcceptable_iff x is_match m fs v in
      record {
        acceptable = sound (first_error-none fs fine);
        base = base;
        found = found;
        put = put;
      }

  put_fetched-IsAccepted :
      (g : Result (Option (StoredManifest x.Value × ℕ))) (s t : σ) (a : PutModelResponse)
      → env.get (trim m.metadata.name) s ≡ g
      → put_fetched x is_match env g ulid m (trim m.metadata.name) s ≡ some (response a, t)
      → IsAccepted s t a
  unfolding put_fetched
  put_fetched-IsAccepted (err k) s t a g e = absurd (ground (arith, e))
  put_fetched-IsAccepted (ok none) s t a g e =
      elim (Option-cases (validate_manifest x is_match m)) [
        | inl v ↦ absurd (ground (arith, v, e))
        | inr (fs, v) ↦
            checked-IsAccepted empty_stored 0 fs s t a (inr (g, refl)) v (ground (arith, v, e))
      ]
  put_fetched-IsAccepted (ok (some (base, r))) s t a g e =
      elim (Option-cases (validate_manifest x is_match m)) [
        | inl v ↦ absurd (ground (arith, v, e))
        | inr (fs, v) ↦ checked-IsAccepted base r fs s t a (inl (r, g)) v (ground (arith, v, e))
      ]

  put_named-IsAccepted :
      (s t : σ) (a : PutModelResponse)
      → put_named x is_match env ulid m (trim m.metadata.name) s ≡ some (response a, t)
      → IsAccepted s t a
  unfolding put_named
  put_named-IsAccepted s t a e =
      elim (Bool-cases (valid (validate_manifest_name is_match (trim m.metadata.name)))) [
        | inl k ↦ put_fetched-IsAccepted _ s t a refl (ground (arith, k, e))
        | inr k ↦ absurd (ground (arith, k, e))
      ]

  -- A manifest that is put is acceptable. Its version was new and is added at the end of the
  -- history that the handler found, or of an empty one, with no other change. The result is
  -- stored under the name of the manifest, and the answer tells the version and their number.
  pub put_model-IsAccepted :
      (s t : σ) (a : PutModelResponse)
      → put_model x is_match env ulid (ok m) s ≡ some (response a, t)
      → IsAccepted s t a
  unfolding put_model
  put_model-IsAccepted s t a e =
      elim (Bool-cases (is_empty (errors (validate_manifest_version (version m))))) [
        | inl k ↦ put_named-IsAccepted s t a (ground (arith, k, e))
        | inr k ↦ absurd (ground (arith, k, e))
      ]
