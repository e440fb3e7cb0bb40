-- ===== src/Server/Promises/Undeployment.antt =====
-- What an acknowledged undeployment means.
use wadm.Prelude.{
  ℕ, String, ◌≡◌, refl, ◌∙◌, ap, arith, inl, inr, Bool, true, false, Option, none, some, is_some,
  Result, ok, err, Result-cases,
}
use wadm.Model.{StoredManifest, undeploy}
use wadm.Server.{Environment, response, DeployResult, DeployModelResponse}
use wadm.Server.Removal.{store_undeployed, notify_undeployed, undeploy_found, undeploy_model}
use wadm.Server.Promises.{IsStore, IsNamed, name_of-IsNamed}

module _ {V σ : Type 0} (env : Environment V σ) (contents : σ → String → Option (StoredManifest V))
    (store : IsStore env contents) where
  -- The application is stored and not deployed.
  abbrev pub IsUndeployed : σ → String → Type 0
  IsUndeployed s n = (m : StoredManifest V) × (contents s n ≡ some m) × (m.deployed_version ≡ none)

  notify_undeployed_lem :
      (name : String) (answer a : DeployModelResponse) (s t : σ)
      → notify_undeployed env name answer s ≡ (response a, t)
      → a.result ≡ DeployResult.acknowledged
      → (answer.result ≡ DeployResult.acknowledged)
        × (t ≡ (env.undeployed name s).1)
        × ((env.undeployed name s).0 ≡ ok tt)
  unfolding notify_undeployed
  notify_undeployed_lem name answer a s t e h = elim (Result-cases (env.undeployed name s).0) [
    | inl (u, k) ↦ ground (arith, k, e, h)
    | inr (m, k) ↦ ground (arith, k, e, h)
  ]

  store_undeployed_lem :
      (changed : Bool) (name : String) (m : StoredManifest V) (r : ℕ) (s : σ)
      → IsNamed name m
      → m.deployed_version ≡ none
      → (changed ≡ false → contents s name ≡ some m)
      → (store_undeployed env changed name m r s).0.result ≡ DeployResult.acknowledged
      → contents (store_undeployed env changed name m r s).1 name ≡ some m
  unfolding store_undeployed
  store_undeployed_lem false name m r s named d same h = same refl
  store_undeployed_lem true name m r s named d same h =
      elim (Result-cases (env.set m (some r) s).0) [
        | inl (u, k) ↦
            rw (k, store_undeployed)
              (store.set_stores m (some r) s name (name_of-IsNamed name m named) k)
        | inr (x, k) ↦ absurd (ground (arith, k, h))
      ]

  undeploy_found-acknowledged :
      (g : Result (Option (StoredManifest V × ℕ))) (name : String) (s t : σ)
      (a : DeployModelResponse)
      → env.get name s ≡ g
      → ((m : StoredManifest V) → contents s name ≡ some m → IsNamed name m)
      → undeploy_found env name g s ≡ (response a, t)
      → a.result ≡ DeployResult.acknowledged
      → IsUndeployed t name × (before : σ) × (env.undeployed name before ≡ (ok tt, t))
  unfolding undeploy_found undeploy
  undeploy_found-acknowledged (err x) name s t a g named e h = cc
  undeploy_found-acknowledged (ok none) name s t a g named e h = absurd (ground (arith, e, h))
  undeploy_found-acknowledged (ok (some (m, r))) name s t a g named e h =
      let there = store.get_found name s m r g in
      let m' = record m { deployed_version = none } in
      let put = store_undeployed env (is_some m.deployed_version) name m' r s in
      let (ack, after, told) = notify_undeployed_lem name put.0 a put.1 t e h in
      let unchanged : is_some m.deployed_version ≡ false → contents s name ≡ some m' = λ n.
        let d : m.deployed_version ≡ none = ground (arith, n) in
        there ∙ ap (λ d. some (record m { deployed_version = d })) d in
      let stored =
        store_undeployed_lem (is_some m.deployed_version) name m' r s (named m there) refl unchanged
          ack in
      (
        (m', rw after (store.undeployed_keeps name name put.1 ∙ stored), refl),
        put.1,
        rw after (ap (λ r. (r, (env.undeployed name put.1).1)) told),
      )

  -- An undeployment that is acknowledged leaves the application stored and not deployed, and its
  -- last step was a successful notification. All stored versions have the application's name.
  pub undeploy_model-acknowledged :
      (name : String) (s t : σ) (a : DeployModelResponse)
      → ((m : StoredManifest V) → contents s name ≡ some m → IsNamed name m)
      → undeploy_model env (ok tt) name s ≡ (response a, t)
      → a.result ≡ DeployResult.acknowledged
      → IsUndeployed t name × (before : σ) × (env.undeployed name before ≡ (ok tt, t))
  unfolding undeploy_model
  undeploy_model-acknowledged name s t a named e h =
      undeploy_found-acknowledged (env.get name s) name s t a refl named e h
