-- ===== src/Server/Promises.antt =====
-- What the server promises, over any store that does what its answers say.
pub mod Undeployment
pub mod Deletion
pub mod Publishing
pub mod Refusal
pub mod Retrieval
pub mod Staging
pub mod Rivals
pub mod Deployed
use wadm.Prelude.{
  ℕ, String, ◌≡◌, ◌≢◌, refl, sym, ◌∙◌, ap, subst, arith, ◌⊎◌, inl, inr, Bool, true, false, not,
  ◌||◌, Option, none, some, List, [], ◌∷◌, Map, lookup, remove, lookup-remove, eq_refl, eq_iff,
  remove-All, All, last?, last?-none, is_empty, is_some, Result, ok, err, Bool-cases, Option-cases,
  Result-cases, ◌==◌, if◌then◌else◌,
}
use wadm.Manifest.{Manifest}
use wadm.Model.{StoredManifest, get_current, delete_version, undeploy, get_version}
use wadm.Server.{
  Environment, Reply, error_reply, response, DeleteResult, DeleteModelResponse, DeployResult,
  DeployModelResponse, name_of,
}
use wadm.Server.Removal.{
  store_rest, delete_last, delete_whole, delete_found, delete_stored, delete_data, notify_deleted,
  delete_model, store_undeployed, notify_undeployed, undeploy_found, undeploy_model,
}

-- `contents` is what the store holds under each name.
pub record IsStore {V σ : Type 0} (env : Environment V σ)
    (contents : σ → String → Option (StoredManifest V)) : Type 0 where
  pub get_found :
      (n : String) (s : σ) (m : StoredManifest V) (r : ℕ)
      → env.get n s ≡ ok (some (m, r))
      → contents s n ≡ some m
  pub get_missing : (n : String) (s : σ) → env.get n s ≡ ok none → contents s n ≡ none
  pub set_stores :
      (m : StoredManifest V) (r : Option ℕ) (s : σ) (n : String)
      → name_of m ≡ some n
      → (env.set m r s).0 ≡ ok tt
      → contents (env.set m r s).1 n ≡ some m
  pub delete_removes :
      (n : String) (s : σ) → (env.delete n s).0 ≡ ok tt → contents (env.delete n s).1 n ≡ none
  pub deployed_keeps :
      (m : Manifest V) (k : String) (s : σ) → contents (env.deployed m s).1 k ≡ contents s k
  pub undeployed_keeps : (n k : String) (s : σ) → contents (env.undeployed n s).1 k ≡ contents s k

module _ {V : Type 0} where
  -- The history is not empty, and all its versions have this name.
  abbrev pub IsNamed : String → StoredManifest V → Type 0
  IsNamed n m = All (λ e. e.1.metadata.name ≡ n) m.manifests × (m.manifests ≢ [])

  last-All :
      (P : String × Manifest V → Type 0) (m : Map (Manifest V)) (e : String × Manifest V)
      → All P m
      → last? m ≡ some e
      → P e
  last-All P [] e h k = cc
  last-All P (x ∷ []) e (h, _) k = let same : x ≡ e = cc in subst P same h
  last-All P (x ∷ y ∷ m) e (_, h) k = last-All P (y ∷ m) e h k

  pub name_of-IsNamed : (n : String) (m : StoredManifest V) → IsNamed n m → name_of m ≡ some n
  unfolding get_current
  name_of-IsNamed n m (h, ne) = elim (Option-cases (last? m.manifests)) [
    | inl e ↦ absurd (ne (last?-none m.manifests e))
    | inr (e, k) ↦ rw (k, get_current, name_of) (ap some (last-All _ m.manifests e h k))
  ]
