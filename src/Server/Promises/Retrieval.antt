-- ===== src/Server/Promises/Retrieval.antt =====
-- What is put can be fetched.
use wadm.Prelude.{
  ℕ, String, ◌≡◌, refl, sym, ap, subst, arith, ◌∙◌, Bool, Option, none, some, [], ◌∷◌, ok, Message,
  format, str,
}
use wadm.External.{External}
use wadm.Manifest.{Manifest}
use wadm.Model.{StoredManifest, assign_version, get_version}
use wadm.Server.{Environment, Reply, response, GetResult, GetModelResponse, PutModelResponse}
use wadm.Server.Publish.{put_model}
use wadm.Server.Queries.{found, get_found, get_model}
use wadm.Server.Promises.{IsStore}
use wadm.Server.Promises.Publishing.{put_model-IsAccepted}

module _ {V : Type 0} where
  -- The answer is a success with the manifest.
  abbrev pub IsFetched : Manifest V → Option (Reply (GetModelResponse V)) → Type 0
  IsFetched m reply =
      (message : Message) × (reply
        ≡ some (
            response (record { result = GetResult.success; message = message; manifest = some m })))

module _ (x : External) (is_match : String → Bool) {σ : Type 0} (env : Environment x.Value σ)
    (contents : σ → String → Option (StoredManifest x.Value)) (store : IsStore env contents)
    (ulid : String) (m : Manifest x.Value) where
  found_next :
      (next : StoredManifest x.Value) (t : σ) (g : Option (StoredManifest x.Value × ℕ))
      → contents t m.metadata.name ≡ some next
      → env.get m.metadata.name t ≡ ok g
      → (r : ℕ) × (env.get m.metadata.name t ≡ ok (some (next, r)))
  found_next next t none stored read =
      let missing = store.get_missing m.metadata.name t read in
      absurd (ground (arith, missing, stored))
  found_next next t (some (got, r)) stored read =
      let there = store.get_found m.metadata.name t got r read in
      let same : some got ≡ some next = sym there ∙ stored in
      let is_next : got ≡ next = cc in (r, read ∙ ap (λ h. ok (some (h, r))) is_next)

  -- Over any store that keeps its contract: after a put that is answered with a response, and
  -- where the next read of the application does not fail, a request for the version of the answer,
  -- and one without a version, are both answered with the manifest that was put, annotated with
  -- that version.
  pub get_model-put_model :
      (s t : σ) (a : PutModelResponse) (g : Option (StoredManifest x.Value × ℕ))
      → put_model x is_match env ulid (ok m) s ≡ some (response a, t)
      → env.get m.metadata.name t ≡ ok g
      → IsFetched
          (assign_version ulid m).1
          (get_model env (ok (some a.current_version)) m.metadata.name t)
        × IsFetched (assign_version ulid m).1 (get_model env (ok none) m.metadata.name t)
  unfolding get_model get_found found
  get_model-put_model s t a g put read =
      let accepted = (put_model-IsAccepted x is_match env contents store ulid m s t a put).put in
      let (r, got) = found_next accepted.next t g accepted.stored read in
      let added = accepted.added in
      let named : get_version a.current_version accepted.next ≡ some (assign_version ulid m).1 =
        subst (λ v. get_version v accepted.next ≡ some (assign_version ulid m).1)
          (sym accepted.version_answered) added.found in
      (
        (
          format "Successfully fetched application {} {}"
              (str m.metadata.name ∷ str a.current_version ∷ []),
          rw (got, get_found, found, named) refl,
        ),
        (
          format "Successfully fetched application {}" (str m.metadata.name ∷ []),
          rw (got, get_found, found, added.current) refl,
        ),
      )
