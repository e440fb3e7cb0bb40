-- ===== src/Worker/Consistency/Scaled.antt =====
-- Scaling a component keeps the state consistent.
use wadm.Prelude.{
  String, ◌≡◌, refl, sym, ◌∙◌, ap, subst, arith, true, false, Option, none, some, List, [], ◌∷◌,
  Map, lookup, insert, lookup-insert, lookup-remove, contains_key, eqb, eq_iff, eq_refl, ◌==◌,
  Bool-cases, Option-cases, inl, inr,
}
use wadm.External.{External}
use wadm.Event.{ComponentScaled}
use wadm.Storage.{Component, Host, WadmComponentInfo}
use wadm.Storage.Sets.{set_remove, set_replace, same_info}
use wadm.Storage.Conversions.{component_of, info_of}
use wadm.Storage.Store.Contract.{Lattice}
use wadm.Worker.Components.{scale_instances, drop_stopped, scale_component_data, scale_host}
use wadm.Worker.Effects.{Keyed, component_after, after_scaled}
use wadm.Worker.Consistency.Places.{runs_on, hosted_on, listed}
use wadm.Worker.Consistency.{IsConsistent, not_empty_of_key, updated-cases, updated-holds}

module _ (e : ComponentScaled) where
  -- Other hosts are left alone.
  pub lookup-scale_instances :
      (key : String) (m : Map (List WadmComponentInfo))
      → (e.host_id == key) ≡ false
      → lookup key (scale_instances e m) ≡ lookup key m
  unfolding scale_instances
  lookup-scale_instances key m n = elim (Option-cases (lookup e.host_id m)) [
    | inl k ↦
        rw (k, scale_instances) (ground (arith, n, lookup-insert e.host_id key (info_of e ∷ []) m))
    | inr (infos, k) ↦
        rw (k, scale_instances)
          (ground (
            arith,
            n,
            lookup-insert e.host_id key (set_remove same_info (info_of e) infos) m,
            lookup-insert e.host_id key (set_replace same_info (info_of e) infos) m,
          ))
  ]

  pub lookup-drop_stopped :
      (key : String) (m : Map (List WadmComponentInfo))
      → (e.host_id == key) ≡ false
      → lookup key (drop_stopped e.host_id m) ≡ lookup key m
  unfolding drop_stopped
  lookup-drop_stopped key m n = elim (Option-cases (lookup e.host_id m)) [
    | inl k ↦ rw (k, drop_stopped) refl
    | inr (infos, k) ↦ rw (k, drop_stopped) (ground (arith, n, lookup-remove e.host_id key m))
  ]

  -- Where the component is scaled to some instances, the host's entry has them first.
  drop_inserted :
      (infos : List WadmComponentInfo) (m : Map (List WadmComponentInfo))
      → let scaled = insert e.host_id (info_of e ∷ infos) m in
        lookup e.host_id (drop_stopped e.host_id scaled) ≡ some (info_of e ∷ infos)
  unfolding drop_stopped
  drop_inserted infos m =
      let now : lookup e.host_id (insert e.host_id (info_of e ∷ infos) m)
          ≡ some (info_of e ∷ infos) =
        lookup-insert e.host_id e.host_id (info_of e ∷ infos) m ∙ rw (eq_refl e.host_id) refl in
      rw (now, drop_stopped) now

  -- The other instances on the host.
  abbrev pub others : Map (List WadmComponentInfo) → List WadmComponentInfo
  others m = elim (lookup e.host_id m) [
    | none ↦ []
    | some infos ↦ set_remove same_info (info_of e) infos
  ]

  pub scale_instances_up :
      (m : Map (List WadmComponentInfo))
      → eqb e.max_instances 0 ≡ false
      → lookup e.host_id (drop_stopped e.host_id (scale_instances e m))
        ≡ some (info_of e ∷ others m)
  unfolding set_replace scale_instances
  scale_instances_up m n = elim (Option-cases (lookup e.host_id m)) [
    | inl k ↦ rw (k, n, scale_instances, others) (drop_inserted [] m)
    | inr (infos, k) ↦
        rw (k, n, scale_instances, others)
          (drop_inserted (set_remove same_info (info_of e) infos) m)
  ]

  runs-up :
      (found : Option Component)
      → eqb e.max_instances 0 ≡ false
      → runs_on e.host_id (component_after e found) ≡ true
  unfolding scale_component_data component_of lookup
  runs-up none n = ground (arith, eq_refl e.host_id)
  runs-up (some c) n =
      let now = scale_instances_up c.instances n in
      let there =
        not_empty_of_key e.host_id (drop_stopped e.host_id (scale_instances e c.instances)) in
      ground (arith, now, there)

  runs-kept :
      (key : String) (found : Option Component)
      → (e.host_id == key) ≡ false
      → runs_on key found ≡ true
      → runs_on key (component_after e found) ≡ true
  unfolding scale_component_data
  runs-kept key none n h = cc
  runs-kept key (some c) n h =
      let kept =
        lookup-drop_stopped key (scale_instances e c.instances) n
        ∙ lookup-scale_instances key c.instances n in
      let there = not_empty_of_key key (drop_stopped e.host_id (scale_instances e c.instances)) in
      ground (arith, kept, there)

  listed-scale_host :
      {x : External} (old : Host x) (id : String)
      → contains_key id (scale_host e old).components ≡ true
      → (e.component_id ≡ id → eqb e.max_instances 0 ≡ false)
        × ((e.component_id == id) ≡ false → contains_key id old.components ≡ true)
  unfolding scale_host
  listed-scale_host old id h =
      let added = lookup-insert e.component_id id e.max_instances old.components in
      let removed = lookup-remove e.component_id id old.components in
      elim (Bool-cases (eqb e.max_instances 0)) [
        | inl z ↦ (
          λ this. absurd (ground (arith, z, h, this, removed, eq_iff e.component_id id)),
          λ other. ground (arith, z, h, other, removed),
        )
        | inr z ↦ (λ _. z, λ other. ground (arith, z, h, other, added))
      ]

  module _ {x : External} (l : Lattice x) (v : IsConsistent l) where
    scaled-Keyed : Keyed (after_scaled e l).hosts
    unfolding scale_host
    scaled-Keyed key h k = elim (updated-cases (scale_host e) e.host_id l.hosts key h k) [
      | inl (_, there) ↦ v.keyed key h there
      | inr (_, old, there, same) ↦ ap (λ h. h.id) (sym same) ∙ v.keyed key old there
    ]

    scaled-running :
        (key : String) (h : Host x) (id : String)
        → (after_scaled e l).hosts key ≡ some h
        → contains_key id h.components ≡ true
        → runs_on key ((after_scaled e l).components id) ≡ true
    scaled-running key h id k c = elim (updated-cases (scale_host e) e.host_id l.hosts key h k) [
      | inl (n, there) ↦
          let before = v.running key h id there c in
          updated-holds (λ o. runs_on key o ≡ true) e.component_id _ l.components id
            (λ same. runs-kept key (l.components e.component_id) n (rw same before)) (λ _. before)
      | inr (here, old, there, same) ↦
          let asked =
            listed-scale_host old id
              (subst (λ h. contains_key id h.components ≡ true) (sym same) c) in
          updated-holds (λ o. runs_on key o ≡ true) e.component_id _ l.components id
            (λ this. rw (← here) (runs-up (l.components e.component_id) (asked.0 this)))
            (λ other. v.running key old id there (asked.1 other))
    ]

    scaled-hosted :
        (key : String) (h : Host x) (id : String)
        → (after_scaled e l).hosts key ≡ some h
        → listed id h.providers ≡ true
        → hosted_on key (l.providers id) ≡ true
    unfolding scale_host
    scaled-hosted key h id k c = elim (updated-cases (scale_host e) e.host_id l.hosts key h k) [
      | inl (_, there) ↦ v.hosted key h id there c
      | inr (_, old, there, same) ↦
          v.hosted key old id there (subst (λ h. listed id h.providers ≡ true) (sym same) c)
    ]

    pub after_scaled-IsConsistent : IsConsistent (after_scaled e l)
    after_scaled-IsConsistent = record {
      keyed = scaled-Keyed;
      running = scaled-running;
      hosted = scaled-hosted;
    }
