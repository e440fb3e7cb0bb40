-- ===== src/Model/Histories.antt =====
-- Whatever sequence of changes a history goes through.
use wadm.Prelude.{
  String, ◌≡◌, ◌∙◌, Option, none, some, List, [], ◌∷◌, arith, lookup, contains_key, ◌==◌,
  contains-keys, Distinct-concat, remove-Distinct, remove-All, insert_new, keys-append, inl, inr,
  Option-cases, All-append, Bool-cases,
}
use wadm.Manifest.{Manifest, latest_version}
use wadm.Model.{StoredManifest, add_version, add_entry, delete_version, undeploy, deploy}
use wadm.Model.Versions.{IsValid, annotated, annotated-assign_version}

-- What a client of the history does.
pub data Change (V : Type 0) : Type 0 where
  adds : String → Manifest V → Change V
  deletes : String → Change V
  deploys : Option String → Change V
  undeploys : Change V

module _ {V : Type 0} where
  add_entry-IsValid :
      (version : String) (m : Manifest V) (s : StoredManifest V)
      → annotated m ≡ some version
      → IsValid s
      → IsValid (add_entry version m s).0
  unfolding add_entry
  add_entry-IsValid version m s a v = elim (Option-cases (lookup version s.manifests)) [
    | inr (old, found) ↦ rw found v
    | inl new ↦
        rw (new, insert_new version m s.manifests new)
          (record {
            distinct = rw (keys-append s.manifests (version, m)) (
                Distinct-concat version _ v.distinct
                  (contains-keys version s.manifests ∙ ground (arith, new)));
            annotations = All-append _ s.manifests _ v.annotations (a, tt);
          })
  ]

  pub apply : Change V → StoredManifest V → StoredManifest V
  apply (adds ulid m) s = (add_version ulid m s).0
  apply (deletes version) s = (delete_version version s).0
  apply (deploys version) s = (deploy version s).0
  apply undeploys s = (undeploy s).0

  apply-IsValid : (c : Change V) (s : StoredManifest V) → IsValid s → IsValid (apply c s)
  unfolding apply add_version delete_version deploy undeploy
  apply-IsValid (adds ulid m) s v = add_entry-IsValid _ _ s (annotated-assign_version ulid m) v
  apply-IsValid (deletes version) s v = record {
    distinct = remove-Distinct version s.manifests v.distinct;
    annotations = remove-All _ version s.manifests v.annotations;
  }
  apply-IsValid (deploys none) s v = record { distinct = v.distinct; annotations = v.annotations }
  apply-IsValid (deploys (some w)) s v = elim (Bool-cases (w == latest_version)) [
    | inl e ↦ rw (e, apply, deploy) (record { distinct = v.distinct; annotations = v.annotations })
    | inr e ↦ elim (Bool-cases (contains_key w s.manifests)) [
      | inl f ↦
          rw (e, f, apply, deploy) (record { distinct = v.distinct; annotations = v.annotations })
      | inr f ↦ rw (e, f, apply, deploy) v
    ]
  ]
  apply-IsValid undeploys s v = record { distinct = v.distinct; annotations = v.annotations }

  pub run : StoredManifest V → List (Change V) → StoredManifest V
  run s [] = s
  run s (c ∷ cs) = run (apply c s) cs

  -- Whatever is done to a history that starts empty, each version is in it once, under the name
  -- that its manifest is annotated with.
  pub run-IsValid : (cs : List (Change V)) (s : StoredManifest V) → IsValid s → IsValid (run s cs)
  unfolding run
  run-IsValid [] s v = v
  run-IsValid (c ∷ cs) s v = run-IsValid cs (apply c s) (apply-IsValid c s v)
