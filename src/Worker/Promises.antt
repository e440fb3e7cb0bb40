-- ===== src/Worker/Promises.antt =====
-- What a handler that succeeds has done to the stored state.
use wadm.Prelude.{
  ℕ, String, ◌≡◌, ◌≢◌, refl, ◌∙◌, ap, sym, subst, arith, ◌⊎◌, true, false, Option, none, some, List,
  [], ◌∷◌, Map, lookup, insert, lookup-insert, lookup-remove, keys, Distinct, eqb, eq_refl, ◌==◌,
  Bool-cases, Option-cases, inl, inr, if◌then◌else◌, ok, is_empty,
}
use wadm.External.{External}
use wadm.Event.{ComponentScaled}
use wadm.Event.Matching.Equality.{map_eq_refl}
use wadm.Storage.{Component, Host, WadmComponentInfo}
use wadm.Storage.Sets.{set_remove, same_info}
use wadm.Storage.Conversions.{info_of, component_of}
use wadm.Storage.Store.{Store}
use wadm.Storage.Store.Contract.{IsStore, Lattice, update}
use wadm.Worker.Components.{
  scale_instances, drop_stopped, scale_component_data, scale_host, handle_component_scaled,
}
use wadm.Worker.Heartbeat.{info_with}
use wadm.Worker.Effects.{Keyed, component_after, after_scaled, handle_component_scaled-effect}
use wadm.Worker.Consistency.{not_empty_of_key}
use wadm.Worker.Consistency.Scaled.{scale_instances_up, lookup-scale_instances, lookup-drop_stopped}

-- The instances of a component on a host.
abbrev pub infos_on : String → Option Component → Option (List WadmComponentInfo)
infos_on host_id none = none
infos_on host_id (some c) = lookup host_id c.instances

-- The count of the instances with these annotations.
abbrev pub count_on : String → Map String → Option Component → Option ℕ
count_on host_id annotations found = elim (infos_on host_id found) [
  | none ↦ none
  | some infos ↦ elim (info_with annotations infos) [ none ↦ none | some i ↦ some i.count ]
]

-- The count of the component in a host's inventory.
abbrev pub inventory_count : {x : External} → String → Option (Host x) → Option ℕ
inventory_count id none = none
inventory_count id (some h) = lookup id h.components

removed_info :
    (a : WadmComponentInfo) (infos : List WadmComponentInfo)
    → info_with a.annotations (set_remove same_info a infos) ≡ none
unfolding info_with set_remove
removed_info a [] = refl
removed_info a (i ∷ infos) = ground (arith, removed_info a infos)

module _ (e : ComponentScaled) (distinct : Distinct (keys e.annotations)) where
  counted_up :
      (found : Option Component)
      → eqb e.max_instances 0 ≡ false
      → count_on e.host_id e.annotations (component_after e found) ≡ some e.max_instances
  unfolding scale_component_data component_of info_with lookup
  counted_up none n = ground (arith, eq_refl e.host_id, map_eq_refl e.annotations distinct)
  counted_up (some c) n =
      let now = scale_instances_up e c.instances n in
      let there =
        not_empty_of_key e.host_id (drop_stopped e.host_id (scale_instances e c.instances)) in
      ground (arith, now, there, map_eq_refl e.annotations distinct)

  -- What is left on the host after a scale down to nothing.
  left_down :
      (m : Map (List WadmComponentInfo))
      → eqb e.max_instances 0 ≡ true
      → let left = lookup e.host_id (drop_stopped e.host_id (scale_instances e m)) in
        (left ≡ none)
        ⊎ ((infos : List WadmComponentInfo) × (left ≡ some infos)
            × (info_with e.annotations infos ≡ none))
  unfolding scale_instances drop_stopped
  left_down m z = elim (Option-cases (lookup e.host_id m)) [
    | inl k ↦ rw (k, z, scale_instances) (inl (rw (k, drop_stopped) k))
    | inr (infos, k) ↦
        let rest = set_remove same_info (info_of e) infos in
        let next = insert e.host_id rest m in
        let now : lookup e.host_id next ≡ some rest =
          lookup-insert e.host_id e.host_id rest m ∙ rw (eq_refl e.host_id) refl in
        rw (k, z, scale_instances)
          (elim (Bool-cases (is_empty rest)) [
            | inl b ↦ inl (
                rw (now, b, drop_stopped)
                  (lookup-remove e.host_id e.host_id next ∙ rw (eq_refl e.host_id) refl))
            | inr b ↦ inr (rest, rw (now, b, drop_stopped) now, removed_info (info_of e) infos)
          ])
  ]

  counted_down :
      (c : Component)
      → eqb e.max_instances 0 ≡ true
      → count_on e.host_id e.annotations (component_after e (some c)) ≡ none
  unfolding scale_component_data
  counted_down c z =
      let left = left_down c.instances z in
      elim (Bool-cases (is_empty (drop_stopped e.host_id (scale_instances e c.instances)))) [
        | inl b ↦ rw b refl
        | inr b ↦ elim left [
          | inl n ↦ ground (arith, b, n)
          | inr (infos, i, n) ↦ ground (arith, b, i, n)
        ]
      ]

lookup_empty : {A : Type 0} (key : String) (m : Map A) → is_empty m ≡ true → lookup key m ≡ none
unfolding lookup
lookup_empty key [] e = refl
lookup_empty key (x ∷ m) e = cc

-- The instances on other hosts are the same.
kept_elsewhere :
    (e : ComponentScaled) (key : String) (c : Component)
    → (e.host_id == key) ≡ false
    → infos_on key (component_after e (some c)) ≡ infos_on key (some c)
unfolding scale_component_data
kept_elsewhere e key c n =
    let same : lookup key (drop_stopped e.host_id (scale_instances e c.instances))
        ≡ lookup key c.instances =
      lookup-drop_stopped e key (scale_instances e c.instances) n
      ∙ lookup-scale_instances e key c.instances n in
    elim (Bool-cases (is_empty (drop_stopped e.host_id (scale_instances e c.instances)))) [
      | inl b ↦ rw (b, ← same) (sym (lookup_empty key _ b))
      | inr b ↦ rw b same
    ]

counted_new :
    (e : ComponentScaled)
    → Distinct (keys e.annotations)
    → count_on e.host_id e.annotations (component_after e none) ≡ some e.max_instances
unfolding scale_component_data component_of info_with lookup
counted_new e distinct = ground (arith, eq_refl e.host_id, map_eq_refl e.annotations distinct)

-- What scaling a stored component does to the lattice.
pub record IsScaled {x : External} (e : ComponentScaled) (l l' : Lattice x) : Type 0 where
  pub up :
      e.max_instances ≢ 0
      → count_on e.host_id e.annotations (l'.components e.component_id) ≡ some e.max_instances
  pub down :
      e.max_instances ≡ 0 → count_on e.host_id e.annotations (l'.components e.component_id) ≡ none
  pub elsewhere :
      (key : String)
      → (e.host_id == key) ≡ false
      → infos_on key (l'.components e.component_id) ≡ infos_on key (l.components e.component_id)
  pub other_components :
      (id : String) → (e.component_id == id) ≡ false → l'.components id ≡ l.components id
  pub inventory :
      (h : Host x)
      → l.hosts e.host_id ≡ some h
      → inventory_count e.component_id (l'.hosts e.host_id)
        ≡ (if eqb e.max_instances 0 then none else some e.max_instances)
  pub other_hosts : (key : String) → (e.host_id == key) ≡ false → l'.hosts key ≡ l.hosts key
  pub providers : l'.providers ≡ l.providers

after_scaled-IsScaled :
    {x : External} (e : ComponentScaled) (l : Lattice x) (c : Component)
    → Distinct (keys e.annotations)
    → l.components e.component_id ≡ some c
    → IsScaled e l (after_scaled e l)
unfolding update scale_host
after_scaled-IsScaled e l c distinct there =
    let at : update e.component_id (component_after e (l.components e.component_id)) l.components
          e.component_id
        ≡ component_after e (some c) =
      rw (eq_refl e.component_id, there) refl in
    record {
      up = λ n. rw at (counted_up e distinct (some c) (ground (arith, n)));
      down = λ z. rw at (counted_down e distinct c (ground (arith, z)));
      elsewhere = λ key n. rw (at, there) (kept_elsewhere e key c n);
      other_components = λ id n. rw n refl;
      inventory = λ h k. ground (
        arith,
        k,
        eq_refl e.host_id,
        eq_refl e.component_id,
        lookup-insert e.component_id e.component_id e.max_instances h.components,
        lookup-remove e.component_id e.component_id h.components,
      );
      other_hosts = λ key n. rw n refl;
      providers = refl;
    }

module _ {x : External} {σ : Type 0} (db : Store x σ) (view : σ → Lattice x)
    (is_store : IsStore db view) where
  -- A successful update for a stored component, with the hosts under their identifiers: with the
  -- event's annotations, on its host, exactly the event's instances are stored, or none at zero;
  -- the host's inventory lists them; the instances on other hosts, the other components, the other
  -- hosts and the providers are the same.
  pub handle_component_scaled-IsScaled :
      (e : ComponentScaled) (s t : σ) (c : Component)
      → Distinct (keys e.annotations)
      → Keyed (view s).hosts
      → (view s).components e.component_id ≡ some c
      → handle_component_scaled db e s ≡ (ok tt, t)
      → IsScaled e (view s) (view t)
  handle_component_scaled-IsScaled e s t c distinct keyed there done =
      let after = (handle_component_scaled-effect db view is_store e s keyed).at tt t done in
      subst (IsScaled e (view s)) (sym after) (after_scaled-IsScaled e (view s) c distinct there)

  -- A successful update for a component that is not stored, with the hosts under their identifiers,
  -- stores it with the event's instances on its host: also where these are none.
  pub handle_component_scaled-unknown :
      (e : ComponentScaled) (s t : σ)
      → Distinct (keys e.annotations)
      → Keyed (view s).hosts
      → (view s).components e.component_id ≡ none
      → handle_component_scaled db e s ≡ (ok tt, t)
      → count_on e.host_id e.annotations ((view t).components e.component_id) ≡ some e.max_instances
  unfolding update
  handle_component_scaled-unknown e s t distinct keyed missing done =
      let after = (handle_component_scaled-effect db view is_store e s keyed).at tt t done in
      let at : (view t).components e.component_id ≡ component_after e none =
        ap (λ l. l.components e.component_id) after ∙ rw (eq_refl e.component_id, missing) refl in
      rw at (counted_new e distinct)
