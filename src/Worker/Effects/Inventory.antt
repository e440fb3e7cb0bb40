-- ===== src/Worker/Effects/Inventory.antt =====
-- The entries that a heartbeat writes, against the inventory that it brings.
use wadm.Prelude.{
  String, ◌≡◌, ◌∙◌, ap, sym, arith, Bool, true, false, not, none, some, List, [], ◌∷◌, Map, lookup,
  insert, lookup-insert, keys, contains, contains_key, filter, filter_map, map, any, All,
  Option-cases, Bool-cases, inl, inr, if◌then◌else◌, ◌==◌, eq_iff, eq_refl,
}
use wadm.External.{External}
use wadm.Storage.{Component, Provider, pending}
use wadm.Storage.Store.Contract.{Lattice, View}
use wadm.Worker.Heartbeat.{
  Claims, up_to_date, heartbeat_info, new_component, populate_one, fill_provider, provider_change,
}
use wadm.Worker.Consistency.Places.{runs_on, hosted_on}

module _ (x : External) where
  abbrev pub in_inventory : String → List x.ProviderDescription → Bool
  in_inventory id inventory = any (λ d. x.provider_id d == id) inventory

  abbrev pub in_components : String → List x.ComponentDescription → Bool
  in_components id inventory = any (λ d. x.component_id d == id) inventory

module _ (x : External) (host_id : String) where
  -- A provider that is written keeps its hosts, and has the host of the heartbeat.
  abbrev KeepsHosts : View Provider → String → Provider → Type 0
  KeepsHosts view id p =
      ((key : String) → hosted_on key (view id) ≡ true → contains_key key p.hosts ≡ true)
      × (contains_key host_id p.hosts ≡ true)

  filled-KeepsHosts :
      (view : View Provider) (d : x.ProviderDescription) (p : Provider) (e : String × Provider)
      → view (x.provider_id d) ≡ some p
      → fill_provider x host_id d p ≡ some e
      → KeepsHosts view e.0 e.1
  unfolding fill_provider
  filled-KeepsHosts view d p e there h =
      let id : e.0 ≡ x.provider_id d = ground (arith, h) in
      let seen : view e.0 ≡ some p = ap view id ∙ there in
      let hosts : e.1.hosts
          ≡ (if contains_key host_id p.hosts then p.hosts else insert host_id pending p.hosts) =
        ground (arith, h) in
      rw hosts (
        λ key k. ground (arith, seen, k, lookup-insert host_id key pending p.hosts),
        ground (arith, lookup-insert host_id host_id pending p.hosts, eq_refl host_id),
      )

  pub changed-KeepsHosts :
      (view : View Provider) (providers : Map Provider) (d : x.ProviderDescription)
      (e : String × Provider)
      → ((k : String) → lookup k providers ≡ view k)
      → provider_change x host_id providers d ≡ some e
      → KeepsHosts view e.0 e.1
  unfolding provider_change lookup
  changed-KeepsHosts view providers d e found h =
      elim (Option-cases (lookup (x.provider_id d) providers)) [
        | inl n ↦
            let id : e.0 ≡ x.provider_id d = ground (arith, n, h) in
            let none_seen : view e.0 ≡ none = ap view id ∙ sym (found (x.provider_id d)) ∙ n in
            let hosts : e.1.hosts ≡ (host_id, pending) ∷ [] = ground (arith, n, h) in
            rw hosts
              (λ key k. absurd (ground (arith, none_seen, k)), ground (arith, eq_refl host_id))
        | inr (p, there) ↦
            filled-KeepsHosts view d p e (sym (found (x.provider_id d)) ∙ there)
              (ground (arith, there, h))
      ]

  change-key :
      (providers : Map Provider) (d : x.ProviderDescription) (e : String × Provider)
      → provider_change x host_id providers d ≡ some e
      → e.0 ≡ x.provider_id d
  unfolding provider_change fill_provider
  change-key providers d e h = ground (arith, h)

  unchanged_one :
      (providers : Map Provider) (d : x.ProviderDescription)
      → provider_change x host_id providers d ≡ none
      → hosted_on host_id (lookup (x.provider_id d) providers) ≡ true
  unfolding provider_change fill_provider
  unchanged_one providers d h = ground (arith, h)

  pub unchanged-hosted :
      (id : String) (providers : Map Provider) (inventory : List x.ProviderDescription)
      → in_inventory x id inventory ≡ true
      → contains id (keys (filter_map (provider_change x host_id providers) inventory)) ≡ false
      → hosted_on host_id (lookup id providers) ≡ true
  unchanged-hosted id providers [] h out = cc
  unchanged-hosted id providers (d ∷ inventory) h out =
      elim (Option-cases (provider_change x host_id providers d)) [
        | inl same ↦ elim (Bool-cases (x.provider_id d == id)) [
          | inl e ↦
              let this : x.provider_id d ≡ id = ground (arith, eq_iff (x.provider_id d) id, e) in
              rw (← this) (unchanged_one providers d same)
          | inr e ↦
              unchanged-hosted id providers inventory (ground (arith, e, h))
                (ground (arith, same, out))
        ]
        | inr (c, change) ↦ elim (Bool-cases (x.provider_id d == id)) [
          | inl e ↦
              let key : c.0 ≡ x.provider_id d = change-key providers d c change in
              let this : c.0 ≡ id = key ∙ ground (arith, eq_iff (x.provider_id d) id, e) in
              absurd (ground (arith, change, out, this, eq_iff c.0 id))
          | inr e ↦
              unchanged-hosted id providers inventory (ground (arith, e, h))
                (ground (arith, change, out))
        ]
      ]

  abbrev KeepsInstances : View Component → String → Component → Type 0
  KeepsInstances view id c =
      ((key : String) → runs_on key (view id) ≡ true → contains_key key c.instances ≡ true)
      × (contains_key host_id c.instances ≡ true)

  populated-KeepsInstances :
      (view : View Component) (components : Map Component) (claims : Map Claims)
      (d : x.ComponentDescription)
      → ((k : String) → lookup k components ≡ view k)
      → let e = populate_one x components host_id claims d in KeepsInstances view e.0 e.1
  unfolding new_component lookup populate_one
  populated-KeepsInstances view components claims d found =
      elim (Option-cases (lookup (x.component_id d) components)) [
        | inl n ↦
            let none_seen : view (x.component_id d) ≡ none = sym (found (x.component_id d)) ∙ n in
            rw (n, populate_one)
              (λ key k. absurd (ground (arith, none_seen, k)), ground (arith, eq_refl host_id))
        | inr (c, there) ↦
            let seen : view (x.component_id d) ≡ some c = sym (found (x.component_id d)) ∙ there in
            let infos = heartbeat_info x d ∷ [] in
            rw (there, populate_one)
              (
                λ key k. ground (arith, seen, k, lookup-insert host_id key infos c.instances),
                ground (arith, lookup-insert host_id host_id infos c.instances, eq_refl host_id),
              )
      ]

  populated-key :
      (components : Map Component) (claims : Map Claims) (d : x.ComponentDescription)
      → (populate_one x components host_id claims d).0 ≡ x.component_id d
  unfolding populate_one
  populated-key components claims d = ground arith

  up_to_date_runs :
      (components : Map Component) (d : x.ComponentDescription)
      → up_to_date x host_id components d ≡ true
      → runs_on host_id (lookup (x.component_id d) components) ≡ true
  unfolding up_to_date
  up_to_date_runs components d h = ground (arith, h)

  -- The components that the heartbeat writes.
  abbrev pub written : Map Component → Map Claims → List x.ComponentDescription → Map Component
  written components claims inventory =
      map (populate_one x components host_id claims)
        (filter (λ d. not (up_to_date x host_id components d)) inventory)

  pub unwritten-runs :
      (id : String) (components : Map Component) (claims : Map Claims)
      (inventory : List x.ComponentDescription)
      → in_components x id inventory ≡ true
      → contains id (keys (written components claims inventory)) ≡ false
      → runs_on host_id (lookup id components) ≡ true
  unwritten-runs id components claims [] h out = cc
  unwritten-runs id components claims (d ∷ inventory) h out =
      elim (Bool-cases (x.component_id d == id)) [
        | inl e ↦
            let this : x.component_id d ≡ id = ground (arith, eq_iff (x.component_id d) id, e) in
            elim (Bool-cases (up_to_date x host_id components d)) [
              | inl u ↦ rw (← this) (up_to_date_runs components d u)
              | inr u ↦
                  let key = populated-key components claims d ∙ this in
                  absurd (
                    ground (
                      arith,
                      u,
                      out,
                      key,
                      eq_iff (populate_one x components host_id claims d).0 id,
                    ))
            ]
        | inr e ↦
            unwritten-runs id components claims inventory (ground (arith, e, h))
              (ground (arith, out))
      ]

  pub written-KeepsInstances :
      (view : View Component) (components : Map Component) (claims : Map Claims)
      (inventory : List x.ComponentDescription)
      → ((k : String) → lookup k components ≡ view k)
      → All (λ e. KeepsInstances view e.0 e.1) (written components claims inventory)
  written-KeepsInstances view components claims [] found = tt
  written-KeepsInstances view components claims (d ∷ inventory) found =
      let rest = written-KeepsInstances view components claims inventory found in
      elim (Bool-cases (up_to_date x host_id components d)) [
        | inl u ↦ rw u rest
        | inr u ↦ rw u (populated-KeepsInstances view components claims d found, rest)
      ]

  -- What the two parts of a heartbeat do.
  pub record ProvidersSeen (inventory : List x.ProviderDescription) (l l' : Lattice x)
      : Type 0 where
    pub hosts : l'.hosts ≡ l.hosts
    pub components : l'.components ≡ l.components
    pub kept :
        (id key : String)
        → hosted_on key (l.providers id) ≡ true
        → hosted_on key (l'.providers id) ≡ true
    pub seen :
        (id : String)
        → in_inventory x id inventory ≡ true
        → hosted_on host_id (l'.providers id) ≡ true

  pub record ComponentsSeen (inventory : List x.ComponentDescription) (l l' : Lattice x)
      : Type 0 where
    pub hosts : l'.hosts ≡ l.hosts
    pub providers : l'.providers ≡ l.providers
    pub kept :
        (id key : String)
        → runs_on key (l.components id) ≡ true
        → runs_on key (l'.components id) ≡ true
    pub seen :
        (id : String)
        → in_components x id inventory ≡ true
        → runs_on host_id (l'.components id) ≡ true
