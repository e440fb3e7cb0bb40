-- ===== src/Server/Promises/Staging.antt =====
-- What an acknowledged deployment went through.
use wadm.Prelude.{
  ℕ, String, ◌≡◌, refl, arith, inl, inr, true, Option, none, some, List, [], ◌∷◌, Map, Result, ok,
  err, Bool-cases, Option-cases, Result-cases,
}
use wadm.Manifest.{Manifest, Component}
use wadm.Manifest.Queries.{missing_shared_components}
use wadm.Model.{StoredManifest, deploy}
use wadm.Server.{Environment, response, DeployResult, DeployModelResponse}
use wadm.Server.Publish.{deployed_shared_apps}
use wadm.Server.Deploy.{
  existing_ids, find_conflict, staged_model, store_deployed, deploy_checked, deploy_staged,
  deploy_listed, deploy_found, deploy_model,
}

module _ {V σ : Type 0} (env : Environment V σ) (name : String) (request : Option String) (s t : σ)
    (a : DeployModelResponse) (ack : a.result ≡ DeployResult.acknowledged) where
  pub record IsStored (base : StoredManifest V) (revision : ℕ) : Type 0 where
    pub deployed : (deploy request base).1 ≡ true
    pub outcome : store_deployed env name (deploy request base).0 revision s ≡ some (response a, t)

  pub record IsStaged : Type 0 where
    pub base : StoredManifest V
    pub revision : ℕ
    pub stored : List (StoredManifest V)
    pub model : Manifest V
    pub ids : Map String
    pub got : env.get name s ≡ ok (some (base, revision))
    pub listed : env.list s ≡ ok stored
    pub staged : staged_model request base ≡ some (ok model)
    pub collected : existing_ids env name stored s [] ≡ some (ok ids)
    pub free : find_conflict model.spec.components ids ≡ none
    pub put : IsStored base revision

  deploy_checked-IsStored :
      (base : StoredManifest V) (r : ℕ) (missing : List (Component V))
      → deploy_checked env name request base r missing s ≡ some (response a, t)
      → IsStored base r
  unfolding deploy_checked
  deploy_checked-IsStored base r (c ∷ cs) e = absurd (ground (arith, e))
  deploy_checked-IsStored base r [] e = elim (Bool-cases (deploy request base).1) [
    | inl k ↦ record { deployed = k; outcome = ground (arith, k, e) }
    | inr k ↦ absurd (ground (arith, k, e, ack))
  ]

  pub record IsClear (base : StoredManifest V) (r : ℕ) (stored : List (StoredManifest V))
      (m : Manifest V) : Type 0 where
    pub ids : Map String
    pub collected : existing_ids env name stored s [] ≡ some (ok ids)
    pub free : find_conflict m.spec.components ids ≡ none
    pub put : IsStored base r

  deploy_staged-IsClear :
      (base : StoredManifest V) (r : ℕ) (stored : List (StoredManifest V)) (m : Manifest V)
      → deploy_staged env name request base r stored m s ≡ some (response a, t)
      → IsClear base r stored m
  unfolding deploy_staged
  deploy_staged-IsClear base r stored m e =
      elim (Option-cases (existing_ids env name stored s [])) [
        | inl k ↦ absurd (ground (arith, k, e))
        | inr (got, k) ↦ elim (Result-cases got) [
          | inr (x, l) ↦ absurd (ground (arith, k, l, e))
          | inl (ids, l) ↦ elim (Option-cases (find_conflict m.spec.components ids)) [
            | inr (c, f) ↦ absurd (ground (arith, k, l, f, e))
            | inl f ↦ elim (Option-cases (deployed_shared_apps stored)) [
              | inl d ↦ absurd (ground (arith, k, l, f, d, e))
              | inr (apps, d) ↦ record {
                ids = ids;
                collected = ground (arith, k, l);
                free = f;
                put =
                    deploy_checked-IsStored base r (missing_shared_components apps m)
                      (ground (arith, k, l, f, d, e));
              }
            ]
          ]
        ]
      ]

  deploy_found-IsStaged :
      (base : StoredManifest V) (r : ℕ)
      → env.get name s ≡ ok (some (base, r))
      → deploy_listed env (env.list s) name request base r s ≡ some (response a, t)
      → IsStaged
  unfolding deploy_listed
  deploy_found-IsStaged base r got e = elim (Result-cases (env.list s)) [
    | inr (x, l) ↦ absurd (ground (arith, l, e))
    | inl (stored, l) ↦ elim (Option-cases (staged_model request base)) [
      | inl k ↦ absurd (ground (arith, l, k, e))
      | inr (found, k) ↦ elim (Result-cases found) [
        | inr (v, f) ↦ absurd (ground (arith, l, k, f, e, ack))
        | inl (m, f) ↦
            let clear = deploy_staged-IsClear base r stored m (ground (arith, l, k, f, e)) in
            record {
              base = base;
              revision = r;
              stored = stored;
              model = m;
              ids = clear.ids;
              got = got;
              listed = l;
              staged = ground (arith, k, f);
              collected = clear.collected;
              free = clear.free;
              put = clear.put;
            }
      ]
    ]
  ]

  got-IsStaged :
      (g : Result (Option (StoredManifest V × ℕ)))
      → env.get name s ≡ g
      → deploy_found env g name request s ≡ some (response a, t)
      → IsStaged
  unfolding deploy_found
  got-IsStaged (err x) got e = absurd (ground (arith, e))
  got-IsStaged (ok none) got e = absurd (ground (arith, e, ack))
  got-IsStaged (ok (some (base, r))) got e = deploy_found-IsStaged base r got e

  pub deploy_model-IsStaged : deploy_model env (ok request) name s ≡ some (response a, t) → IsStaged
  unfolding deploy_model
  deploy_model-IsStaged e = got-IsStaged (env.get name s) refl e
