-- ===== src/Model/Deployment.antt =====
-- Deploying a version.
use wadm.Prelude.{
  String, ◌≡◌, ◌≢◌, refl, ◌∙◌, ◌⊎◌, inl, inr, true, false, Option, none, some, [], arith, Distinct,
  contains_key, ◌==◌, last?, if◌then◌else◌, Bool-cases, Option-cases, lookup-last?, last?-none,
}
use wadm.Manifest.{Manifest, latest_version}
use wadm.Model.{
  StoredManifest, current_version, deploy, get_current, get_version, get_deployed, all_versions,
}

module _ {V : Type 0} where
  -- The manifest that a request to deploy asks for.
  abbrev pub requested : Option String → StoredManifest V → Option (Manifest V)
  requested none s = get_current s
  requested (some v) s = if v == latest_version then get_current s else get_version v s

  -- What a deployment of a manifest leaves behind.
  pub record Deploys (s t : StoredManifest V) (m : Option (Manifest V)) : Type 0 where
    pub exists : m ≢ none
    pub found : get_deployed t ≡ m
    pub unchanged : t.manifests ≡ s.manifests

  abbrev with_deployed : String → StoredManifest V → StoredManifest V
  with_deployed v s = record s { deployed_version = some v }

  deploy_current-Deploys :
      (s : StoredManifest V)
      → Distinct (all_versions s)
      → s.manifests ≢ []
      → Deploys s (with_deployed (current_version s) s) (get_current s)
  unfolding get_current current_version get_deployed
  deploy_current-Deploys s d ne = elim (Option-cases (last? s.manifests)) [
    | inl e ↦ elim (ne (last?-none s.manifests e)) [ ]
    | inr (e, h) ↦ record {
      exists = rw (h, get_current) (λ n. cc);
      found = rw (h, current_version) (lookup-last? s.manifests e d h ∙ rw (h, get_current) refl);
      unchanged = refl;
    }
  ]

  deploy_version-Deploys :
      (v : String) (s : StoredManifest V)
      → contains_key v s.manifests ≡ true
      → Deploys s (with_deployed v s) (get_version v s)
  unfolding get_version get_deployed
  deploy_version-Deploys v s h = record {
    exists = λ e. ground arith;
    found = refl;
    unchanged = refl;
  }

  -- A request to deploy answers true exactly when the version that it asks for exists; then that
  -- version is the deployed one and the versions are unchanged. Otherwise nothing changes. The
  -- history has distinct versions and at least one.
  pub deploy_lem :
      (v : Option String) (s : StoredManifest V)
      → Distinct (all_versions s)
      → s.manifests ≢ []
      → let (t, deployed) = deploy v s in
        ((deployed ≡ true) × Deploys s t (requested v s))
        ⊎ ((deployed ≡ false) × (t ≡ s) × (requested v s ≡ none))
  unfolding deploy get_version
  deploy_lem none s d ne = inl (refl, deploy_current-Deploys s d ne)
  deploy_lem (some v) s d ne = elim (Bool-cases (v == latest_version)) [
    | inl e ↦ rw (e, deploy) (inl (refl, deploy_current-Deploys s d ne))
    | inr e ↦ elim (Bool-cases (contains_key v s.manifests)) [
      | inl h ↦ rw (e, h, deploy) (inl (refl, deploy_version-Deploys v s h))
      | inr h ↦ rw (e, h, deploy) (inr (refl, refl, ground arith))
    ]
  ]
