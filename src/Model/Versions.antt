-- ===== src/Model/Versions.antt =====
-- Adding and deleting versions.
use wadm.Prelude.{
  String, ◌≡◌, ◌≢◌, refl, ◌∙◌, true, false, Option, none, some, [], ◌∷◌, ◌++◌, arith, lookup,
  insert, Distinct, eq_iff, eq_refl, ◌⊎◌, lookup-insert, lookup-remove, insert_new, keys-append,
  last?-append, ◌↔◌, inl, inr, Option-cases, All,
}
use wadm.Manifest.{Manifest, version_annotation_key}
use wadm.Model.{
  StoredManifest, current_version, assign_version, add_version, add_entry, delete_version,
  all_versions, get_current, get_version,
}

module _ {V : Type 0} where
  abbrev pub annotated : Manifest V → Option String
  annotated m = lookup version_annotation_key m.metadata.annotations

  -- The versions are distinct, and each is the version annotation of its manifest.
  pub record IsValid (s : StoredManifest V) : Type 0 where
    pub distinct : Distinct (all_versions s)
    pub annotations : All (λ e. annotated e.1 ≡ some e.0) s.manifests

  pub annotated-assign_version :
      (ulid : String) (m : Manifest V)
      → annotated (assign_version ulid m).1 ≡ some (assign_version ulid m).0
  unfolding assign_version
  annotated-assign_version ulid m = ground (
    arith,
    lookup-insert version_annotation_key version_annotation_key ulid m.metadata.annotations,
    eq_refl version_annotation_key,
  )

  -- What an accepted version changes.
  pub record IsAdded (s t : StoredManifest V) (version : String) (m : Manifest V) : Type 0 where
    pub fresh : get_version version s ≡ none
    pub versions : all_versions t ≡ all_versions s ++ version ∷ []
    pub current : get_current t ≡ some m
    pub current_name : current_version t ≡ version
    pub found : get_version version t ≡ some m
    pub others : (w : String) → version ≢ w → get_version w t ≡ get_version w s
    pub deployed : t.deployed_version ≡ s.deployed_version

  add_new-IsAdded :
      (version : String) (m : Manifest V) (s : StoredManifest V)
      → lookup version s.manifests ≡ none
      → IsAdded s (record s { manifests = insert version m s.manifests }) version m
  unfolding get_version get_current current_version
  add_new-IsAdded version m s new =
      let e = insert_new version m s.manifests new in
      record {
        fresh = new;
        versions = rw e (keys-append s.manifests (version, m));
        current = rw (e, last?-append s.manifests (version, m), get_current);
        current_name = rw (e, last?-append s.manifests (version, m), current_version);
        found = rw (lookup-insert version version m s.manifests, eq_refl version);
        others =
            λ w ne. lookup-insert version w m s.manifests ∙ ground (arith, eq_iff version w, ne);
        deployed = refl;
      }

  add_entry_lem :
      (version : String) (m : Manifest V) (s : StoredManifest V)
      → let (t, added) = add_entry version m s in
        ((added ≡ true) × IsAdded s t version m)
        ⊎ ((added ≡ false) × (t ≡ s) × (get_version version s ≢ none))
  unfolding add_entry get_version
  add_entry_lem version m s = elim (Option-cases (lookup version s.manifests)) [
    | inl new ↦ rw new (inl (refl, add_new-IsAdded version m s new))
    | inr (old, found) ↦ rw found (inr (refl, refl, λ e. cc))
  ]

  -- A version is added exactly when it is new: at the end, as the current one, and with no other
  -- change. Otherwise nothing changes.
  pub add_version_lem :
      (ulid : String) (m : Manifest V) (s : StoredManifest V)
      → let (version, manifest) = assign_version ulid m in
        let (t, added) = add_version ulid m s in
        ((added ≡ true) × IsAdded s t version manifest)
        ⊎ ((added ≡ false) × (t ≡ s) × (get_version version s ≢ none))
  unfolding add_version
  add_version_lem ulid m s = add_entry_lem (assign_version ulid m).0 (assign_version ulid m).1 s

  -- Deleting a version takes it out, leaves the others in their order, and does not undeploy it.
  pub delete_version_lem :
      (version : String) (s : StoredManifest V)
      → let (t, deleted) = delete_version version s in
        (get_version version t ≡ none)
        × ((w : String) → version ≢ w → get_version w t ≡ get_version w s)
        × (t.deployed_version ≡ s.deployed_version)
        × ((deleted ≡ false) ↔ (get_version version s ≡ none))
  unfolding delete_version get_version
  delete_version_lem version s = (
    rw (lookup-remove version version s.manifests, eq_refl version),
    λ w ne. lookup-remove version w s.manifests ∙ ground (arith, eq_iff version w, ne),
    refl,
    ground arith,
  )
