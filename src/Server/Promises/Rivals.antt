-- ===== src/Server/Promises/Rivals.antt =====
-- No two deployed applications share the identifier of a component.
use wadm.Prelude.{
  ℕ, String, ◌≡◌, ◌≢◌, subst, arith, inl, inr, false, Option, none, some, List, [], ◌∷◌, All,
  All-imp, Map, lookup, insert, lookup-insert, eq_refl, ok, Bool-cases, Option-cases, Result-cases,
  ◌==◌,
}
use wadm.Manifest.{Manifest, Component}
use wadm.Manifest.Validation.Core.{id_of}
use wadm.Model.{StoredManifest, get_deployed}
use wadm.Server.{Environment, response, DeployResult, DeployModelResponse, name_of}
use wadm.Server.Deploy.{
  insert_ids, add_deployed, find_conflict, stored_or_default, existing_ids, staged_model,
  deploy_model,
}
use wadm.Server.Promises.Staging.{deploy_model-IsStaged}

module _ {V : Type 0} where
  -- No component has this identifier.
  abbrev pub IsUnused : String → List (Component V) → Type 0
  IsUnused id = All (λ c. id_of c.properties ≢ some id)

  insert_ids-IsUnused :
      (id name : String) (cs : List (Component V)) (ids : Map String)
      → lookup id (insert_ids name cs ids) ≡ none
      → (lookup id ids ≡ none) × IsUnused id cs
  unfolding insert_ids
  insert_ids-IsUnused id name [] ids e = (e, tt)
  insert_ids-IsUnused id name (c ∷ cs) ids e = elim (Option-cases (id_of c.properties)) [
    | inl k ↦
        let (was, rest) = insert_ids-IsUnused id name cs ids (ground (arith, k, e)) in
        (was, (λ f. absurd (ground (arith, k, f)), rest))
    | inr (i, k) ↦
        let (new, rest) =
          insert_ids-IsUnused id name cs (insert i name ids) (ground (arith, k, e)) in
        let step = lookup-insert i id name ids in
        elim (Bool-cases (i == id)) [
          | inl q ↦ absurd (ground (arith, new, step, q))
          | inr q ↦ (
            ground (arith, new, step, q),
            (λ f. absurd (ground (arith, k, f, q, eq_refl id)), rest),
          )
        ]
  ]

  find_conflict-none :
      (cs : List (Component V)) (ids : Map String)
      → find_conflict cs ids ≡ none
      → All (λ c. (id : String) → id_of c.properties ≡ some id → lookup id ids ≡ none) cs
  unfolding find_conflict
  find_conflict-none [] ids e = tt
  find_conflict-none (c ∷ cs) ids e = elim (Option-cases (id_of c.properties)) [
    | inl k ↦
        (λ id f. absurd (ground (arith, k, f)), find_conflict-none cs ids (ground (arith, k, e)))
    | inr (i, k) ↦ elim (Option-cases (lookup i ids)) [
      | inr (n, l) ↦ absurd (ground (arith, k, l, e))
      | inl l ↦ (
        λ id f. let same : i ≡ id = ground (arith, k, f) in rw (← same) l,
        find_conflict-none cs ids (ground (arith, k, l, e)),
      )
    ]
  ]

  add_deployed-IsUnused :
      (id name : String) (other : StoredManifest V) (ids more : Map String)
      → add_deployed name other ids ≡ some more
      → lookup id more ≡ none
      → (lookup id ids ≡ none)
        × ((k : String) (d : Manifest V)
            → name_of other ≡ some k
            → (k == name) ≡ false
            → get_deployed other ≡ some d
            → IsUnused id d.spec.components)
  unfolding add_deployed
  add_deployed-IsUnused id name other ids more e free = elim (Option-cases (name_of other)) [
    | inl q ↦ absurd (ground (arith, q, e))
    | inr (n, q) ↦ elim (Bool-cases (n == name)) [
      | inl w ↦ (ground (arith, q, w, e, free), λ k d p v r. absurd (ground (arith, q, w, p, v)))
      | inr w ↦ elim (Option-cases (get_deployed other)) [
        | inl g ↦ (ground (arith, q, w, g, e, free), λ k d p v r. absurd (ground (arith, g, r)))
        | inr (d', g) ↦
            let same : insert_ids n d'.spec.components ids ≡ more = ground (arith, q, w, g, e) in
            let (was, unused) = insert_ids-IsUnused id n d'.spec.components ids (rw same free) in
            (
              was,
              λ k d p v r.
                  let is_d : d' ≡ d = ground (arith, g, r) in
                  subst (λ d. IsUnused id d.spec.components) is_d unused,
            )
      ]
    ]
  ]

module _ {V σ : Type 0} (env : Environment V σ) (name : String) (s : σ) where
  -- A listed application that is deployed: when it is fetched, it has another name, and this
  -- manifest is the deployed one.
  pub record IsRival (l : StoredManifest V) (d : Manifest V) : Type 0 where
    pub listed_version : String
    pub listed_name : String
    pub other_name : String
    pub other : StoredManifest V
    pub revision : ℕ
    pub deployed : l.deployed_version ≡ some listed_version
    pub named : name_of l ≡ some listed_name
    pub fetched : env.get listed_name s ≡ ok (some (other, revision))
    pub other_named : name_of other ≡ some other_name
    pub different : (other_name == name) ≡ false
    pub running : get_deployed other ≡ some d

  existing_ids-IsUnused :
      (id : String) (ls : List (StoredManifest V)) (ids out : Map String)
      → existing_ids env name ls s ids ≡ some (ok out)
      → lookup id out ≡ none
      → (lookup id ids ≡ none)
        × All (λ l. (d : Manifest V) → IsRival l d → IsUnused id d.spec.components) ls
  unfolding existing_ids
  existing_ids-IsUnused id [] ids out e free = (ground (arith, e, free), tt)
  existing_ids-IsUnused id (l ∷ ls) ids out e free = elim (Option-cases l.deployed_version) [
    | inl k ↦
        let (was, rest) = existing_ids-IsUnused id ls ids out (ground (arith, k, e)) free in
        (was, (λ d r. absurd (ground (arith, k, r.deployed)), rest))
    | inr (v, k) ↦ elim (Option-cases (name_of l)) [
      | inl q ↦ absurd (ground (arith, k, q, e))
      | inr (n, q) ↦ elim (Result-cases (env.get n s)) [
        | inr (x, g) ↦ absurd (ground (arith, k, q, g, e))
        | inl (found, g) ↦ elim (Option-cases (add_deployed name (stored_or_default found) ids)) [
          | inl w ↦ absurd (ground (arith, k, q, g, w, e))
          | inr (more, w) ↦
              let (new, rest) =
                existing_ids-IsUnused id ls more out (ground (arith, k, q, g, w, e)) free in
              let (was, unused) =
                add_deployed-IsUnused id name (stored_or_default found) ids more w new in
              (
                was,
                (
                  λ d r.
                      let same_name : n ≡ r.listed_name = cc in
                      let same : found ≡ some (r.other, r.revision) = cc in
                      let other_named : name_of (stored_or_default found) ≡ some r.other_name =
                        rw same r.other_named in
                      let running : get_deployed (stored_or_default found) ≡ some d =
                        rw same r.running in
                      unused r.other_name d other_named r.different running,
                  rest,
                ),
              )
        ]
      ]
    ]
  ]

  -- No component of a manifest has the identifier of a component of a rival.
  abbrev pub IsApart : List (StoredManifest V) → Manifest V → Type 0
  IsApart stored m =
      All
        (λ c.
          (id : String)
          → id_of c.properties ≡ some id
          → All (λ l. (d : Manifest V) → IsRival l d → IsUnused id d.spec.components) stored)
        m.spec.components

  pub record IsAdmitted (request : Option String) : Type 0 where
    pub base : StoredManifest V
    pub revision : ℕ
    pub stored : List (StoredManifest V)
    pub model : Manifest V
    pub got : env.get name s ≡ ok (some (base, revision))
    pub listed : env.list s ≡ ok stored
    pub staged : staged_model request base ≡ some (ok model)
    pub apart : IsApart stored model

  -- An acknowledged deployment: the history of the application was found and the applications were
  -- listed, the version that was asked for exists, and none of its components has the identifier
  -- of a component that another listed application deploys, as it is fetched one by one.
  pub deploy_model-IsAdmitted :
      (request : Option String) (t : σ) (a : DeployModelResponse)
      → a.result ≡ DeployResult.acknowledged
      → deploy_model env (ok request) name s ≡ some (response a, t)
      → IsAdmitted request
  deploy_model-IsAdmitted request t a ack e =
      let staged = deploy_model-IsStaged env name request s t a ack e in
      let free = find_conflict-none staged.model.spec.components staged.ids staged.free in
      record {
        base = staged.base;
        revision = staged.revision;
        stored = staged.stored;
        model = staged.model;
        got = staged.got;
        listed = staged.listed;
        staged = staged.staged;
        apart =
            All-imp
              (λ c h id f.
                (existing_ids-IsUnused id staged.stored [] staged.ids staged.collected (h id f)).1)
              staged.model.spec.components free;
      }
