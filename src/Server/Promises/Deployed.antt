-- ===== src/Server/Promises/Deployed.antt =====
-- What an acknowledged deployment leaves.
use wadm.Prelude.{
  ℕ, String, ◌≡◌, ◌≢◌, sym, ap, subst, ◌∙◌, arith, inl, inr, Option, some, [], Distinct, All, ok,
  Option-cases, Result-cases,
}
use wadm.Manifest.{Manifest}
use wadm.Manifest.Queries.{version}
use wadm.Model.{StoredManifest, deploy, get_deployed, all_versions}
use wadm.Model.Deployment.{Deploys, requested, deploy_lem}
use wadm.Server.{Environment, response, DeployResult, DeployModelResponse, name_of}
use wadm.Server.Deploy.{notify_deployed, store_deployed, deploy_model}
use wadm.Server.Promises.{IsStore, IsNamed, name_of-IsNamed}
use wadm.Server.Promises.Staging.{deploy_model-IsStaged}

module _ {V σ : Type 0} (env : Environment V σ) (contents : σ → String → Option (StoredManifest V))
    (store : IsStore env contents) (name : String) (request : Option String) (s t : σ)
    (a : DeployModelResponse) (ack : a.result ≡ DeployResult.acknowledged) where
  pub record IsKept (next : StoredManifest V) : Type 0 where
    pub model : Manifest V
    pub running : get_deployed next ≡ some model
    pub stored : contents t name ≡ some next
    pub answered : a.version ≡ some (version model)
    pub before : σ
    pub told : env.deployed model before ≡ (ok tt, t)

  store_deployed-IsKept :
      (next : StoredManifest V) (r : ℕ)
      → name_of next ≡ some name
      → store_deployed env name next r s ≡ some (response a, t)
      → IsKept next
  unfolding store_deployed notify_deployed
  store_deployed-IsKept next r named e = elim (Option-cases (get_deployed next)) [
    | inl k ↦ absurd (ground (arith, k, e))
    | inr (m, k) ↦ elim (Result-cases (env.set next (some r) s).0) [
      | inr (x, p) ↦ elim (Result-cases (env.deployed m (env.set next (some r) s).1).0) [
        | inl (u, q) ↦ absurd (ground (arith, k, p, q, e, ack))
        | inr (y, q) ↦ absurd (ground (arith, k, p, q, e, ack))
      ]
      | inl (u, p) ↦ elim (Result-cases (env.deployed m (env.set next (some r) s).1).0) [
        | inr (y, q) ↦ absurd (ground (arith, k, p, q, e, ack))
        | inl (v, q) ↦
            let put = (env.set next (some r) s).1 in
            let after : (env.deployed m put).1 ≡ t = ground (arith, k, p, q, e) in
            record {
              model = m;
              running = k;
              stored =
                  subst (λ t. contents t name ≡ some next) after
                    (store.deployed_keeps m name put
                      ∙ store.set_stores next (some r) s name named p);
              answered = ground (arith, k, p, q, e);
              before = put;
              told = rw (← after) (ap (λ r. (r, (env.deployed m put).1)) q);
            }
      ]
    ]
  ]

  pub record IsDeployed : Type 0 where
    pub base : StoredManifest V
    pub revision : ℕ
    pub got : env.get name s ≡ ok (some (base, revision))
    pub next : StoredManifest V
    pub deploys : Deploys base next (requested request base)
    pub kept : IsKept next

  -- An acknowledged deployment, over any store that keeps its contract, where the history of the
  -- application is not empty, has its name, and has distinct versions: afterwards the history that
  -- was found is stored with the same versions, and the one that was asked for is deployed. The
  -- answer tells its version, and the last step was the notification with it, which succeeded.
  pub deploy_model-IsDeployed :
      ((m : StoredManifest V)
        → contents s name ≡ some m
        → IsNamed name m × Distinct (all_versions m))
      → deploy_model env (ok request) name s ≡ some (response a, t)
      → IsDeployed
  deploy_model-IsDeployed fine e =
      let staged = deploy_model-IsStaged env name request s t a ack e in
      let base = staged.base in
      let (named, distinct) = fine base (store.get_found name s base staged.revision staged.got) in
      let next = (deploy request base).0 in
      elim (deploy_lem request base distinct named.1) [
        | inr (n, _, _) ↦ absurd (ground (arith, n, staged.put.deployed))
        | inl (_, deploys) ↦
            let next_named : IsNamed name next = (
              subst (λ ms. All (λ e. e.1.metadata.name ≡ name) ms) (sym deploys.unchanged) named.0,
              subst (λ ms. ms ≢ []) (sym deploys.unchanged) named.1,
            ) in
            record {
              base = base;
              revision = staged.revision;
              got = staged.got;
              next = next;
              deploys = deploys;
              kept =
                  store_deployed-IsKept next staged.revision (name_of-IsNamed name next next_named)
                    staged.put.outcome;
            }
      ]
