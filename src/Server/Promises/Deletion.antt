-- ===== src/Server/Promises/Deletion.antt =====
-- What an answered deletion means.
use wadm.Prelude.{
  ℕ, String, ◌≡◌, ◌≢◌, refl, ◌∙◌, ap, arith, ◌⊎◌, inl, inr, Bool, true, false, Option, none, some,
  lookup-remove, eq_refl, remove-All, All, is_empty, Result, ok, err, Bool-cases, Result-cases,
  ◌==◌, if◌then◌else◌,
}
use wadm.Model.{StoredManifest, delete_version, undeploy, get_version}
use wadm.Server.{Environment, response, DeleteResult, DeleteModelResponse}
use wadm.Server.Removal.{
  store_rest, delete_last, delete_whole, delete_found, delete_stored, delete_data, notify_deleted,
  delete_model,
}
use wadm.Server.Promises.{IsStore, IsNamed, name_of-IsNamed}

module _ {V : Type 0} where
  -- Nothing of the version is left.
  abbrev pub IsGone : String → String → Option (StoredManifest V) → Type 0
  IsGone version name none = Unit
  IsGone version name (some m) =
      (get_version version m ≡ none) × (m.deployed_version ≢ some version)

  -- What a deletion is to bring about.
  abbrev pub IsRemoved : Option String → String → Option (StoredManifest V) → Type 0
  IsRemoved none name stored = stored ≡ none
  IsRemoved (some version) name stored = IsGone version name stored

module _ {V σ : Type 0} (env : Environment V σ) (contents : σ → String → Option (StoredManifest V))
    (store : IsStore env contents) where
  notify_deleted_lem :
      (name : String) (answer a : DeleteModelResponse) (s t : σ)
      → notify_deleted env name answer s ≡ (response a, t)
      → a.result ≡ DeleteResult.deleted
      → (answer.result ≡ DeleteResult.deleted) × ((t ≡ s) ⊎ (t ≡ (env.undeployed name s).1))
  unfolding notify_deleted
  notify_deleted_lem name answer a s t e h = elim (Result-cases (env.undeployed name s).0) [
    | inl (u, k) ↦ ground (arith, k, e, h)
    | inr (m, k) ↦ ground (arith, k, e, h)
  ]

  -- The history that is stored once a version was deleted.
  abbrev kept : String → StoredManifest V → StoredManifest V
  kept version m =
      if elim m.deployed_version [ none ↦ false | some v ↦ v == version ]
      then record m { deployed_version = none }
      else m

  kept_lem :
      (name version : String) (m : StoredManifest V)
      → IsNamed name m
      → get_version version m ≡ none
      → IsNamed name (kept version m) × IsGone version name (some (kept version m))
  unfolding get_version
  kept_lem name version m named gone =
      elim (Bool-cases (elim m.deployed_version [ none ↦ false | some v ↦ v == version ])) [
        | inl e ↦ rw e (named, (gone, λ k. cc))
        | inr e ↦ rw e (named, (gone, λ k. ground (arith, k, e, eq_refl version)))
      ]

  store_rest-deleted :
      (name version : String) (m : StoredManifest V) (r : ℕ) (s : σ)
      → IsNamed name m
      → get_version version m ≡ none
      → (store_rest env name version m r s).0.result ≡ DeleteResult.deleted
      → IsGone version name (contents (store_rest env name version m r s).1 name)
  unfolding store_rest undeploy
  store_rest-deleted name version m r s named gone h =
      let (named', gone') = kept_lem name version m named gone in
      let q = kept version m in
      elim (Result-cases (env.set q (some r) s).0) [
        | inl (u, k) ↦
            rw (k, store_rest, store.set_stores q (some r) s name (name_of-IsNamed name q named') k)
              gone'
        | inr (x, k) ↦ absurd (ground (arith, k, h))
      ]

  delete_last-deleted :
      (name version : String) (s : σ)
      → (env.delete name s).0 ≡ ok tt
      → IsGone version name (contents (delete_last env name version s).1 name)
  unfolding delete_last
  delete_last-deleted name version s k = rw (k, delete_last, store.delete_removes name s k) tt

  delete_found-deleted :
      (deleted empty : Bool) (name version : String) (m : StoredManifest V) (r : ℕ) (s : σ)
      → All (λ e. e.1.metadata.name ≡ name) m.manifests
      → is_empty m.manifests ≡ empty
      → get_version version m ≡ none
      → (delete_found env deleted empty name version m r s).0.result ≡ DeleteResult.deleted
      → IsGone version name (contents (delete_found env deleted empty name version m r s).1 name)
        ⊎ ((env.delete name s).0 ≢ ok tt)
  unfolding delete_found
  delete_found-deleted true false name version m r s all some_left gone h =
      inl (store_rest-deleted name version m r s (all, λ e. ground (arith, some_left, e)) gone h)
  delete_found-deleted true true name version m r s all none_left gone h =
      elim (Result-cases (env.delete name s).0) [
        | inl (u, k) ↦ inl (delete_last-deleted name version s k)
        | inr (x, k) ↦ inr (λ k'. cc)
      ]
  delete_found-deleted false empty name version m r s all e gone h = cc

  delete_stored-deleted :
      (request : Option String) (name : String) (m : StoredManifest V) (r : ℕ) (s : σ)
      → IsNamed name m
      → (delete_stored env request name m r s).0.result ≡ DeleteResult.deleted
      → IsRemoved request name (contents (delete_stored env request name m r s).1 name)
        ⊎ ((env.delete name s).0 ≢ ok tt)
  unfolding delete_stored delete_version delete_whole
  delete_stored-deleted none name m r s named h = elim (Result-cases (env.delete name s).0) [
    | inl (u, k) ↦ inl (rw (k, delete_stored, delete_whole) (store.delete_removes name s k))
    | inr (x, k) ↦ absurd (ground (arith, k, h))
  ]
  delete_stored-deleted (some version) name m r s (all, ne) h =
      delete_found-deleted _ _ name version (delete_version version m).0 r s
        (remove-All _ version m.manifests all) refl
        (unfold get_version in rw (lookup-remove version version m.manifests, eq_refl version) refl)
        h

  delete_data-deleted :
      (request : Option String) (g : Result (Option (StoredManifest V × ℕ))) (name : String) (s : σ)
      → env.get name s ≡ g
      → ((m : StoredManifest V) → contents s name ≡ some m → IsNamed name m)
      → (delete_data env request name g s).0.result ≡ DeleteResult.deleted
      → IsRemoved request name (contents (delete_data env request name g s).1 name)
        ⊎ ((env.delete name s).0 ≢ ok tt)
  unfolding delete_data
  delete_data-deleted request (err x) name s g named h = cc
  delete_data-deleted request (ok none) name s g named h = cc
  delete_data-deleted request (ok (some (m, r))) name s g named h =
      delete_stored-deleted request name m r s (named m (store.get_found name s m r g)) h

  -- When a deletion is answered with `deleted`, the version is gone and is not the deployed one,
  -- or the whole application is gone; or else the store refused to delete the application. All
  -- stored versions have the application's name.
  pub delete_model-deleted :
      (request : Option String) (name : String) (s t : σ) (a : DeleteModelResponse)
      → ((m : StoredManifest V) → contents s name ≡ some m → IsNamed name m)
      → delete_model env (ok request) name s ≡ (response a, t)
      → a.result ≡ DeleteResult.deleted
      → IsRemoved request name (contents t name) ⊎ ((env.delete name s).0 ≢ ok tt)
  unfolding delete_model
  delete_model-deleted request name s t a named e h =
      let d = delete_data env request name (env.get name s) s in
      let (done, after) = notify_deleted_lem name d.0 a d.1 t e h in
      let same : contents t name ≡ contents d.1 name = elim after [
        | inl k ↦ ap (λ u. contents u name) k
        | inr k ↦ ap (λ u. contents u name) k ∙ store.undeployed_keeps name name d.1
      ] in
      rw same (delete_data-deleted request (env.get name s) name s refl named done)
