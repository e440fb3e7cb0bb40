-- ===== src/Worker/Effects/Stopped.antt =====
-- The entries of what ran on a host that stops.
use wadm.Prelude.{
  String, ◌≡◌, refl, ◌∙◌, ap, sym, subst, arith, Bool, true, false, Option, none, some, List, [],
  ◌∷◌, Map, lookup, remove, keys, contains, contains_key, filter_map, any, ◌&&◌, ◌⊎◌, is_empty,
  contains-keys, All, All-imp, All-tabulate, All-filter_map, Option-cases, Bool-cases, inl, inr,
  ◌==◌, eq_iff,
}
use wadm.External.{External}
use wadm.Event.{ProviderInfo}
use wadm.Storage.{Component, Host, Provider}
use wadm.Storage.Store.Contract.{Lattice, View}
use wadm.Worker.Hosts.{stop_component, stop_provider_on}

-- The entry of a stopped component: what was stored, without the host.

pub record IsStoppedComponent {x : External} (current : Host x) (view : View Component)
    (id : String) (c : Component) : Type 0 where
  pub old : Component
  pub there : view id ≡ some old
  pub listed : contains_key id current.components ≡ true
  pub stopped : c ≡ record old { instances = remove current.id old.instances }

pub record IsStoppedProvider (host_id : String) (view : View Provider) (id : String) (p : Provider)
    : Type 0 where
  pub old : Provider
  pub there : view id ≡ some old
  pub stopped : p ≡ record old { hosts = remove host_id old.hosts }

module _ {x : External} (current : Host x) where
  pub stopped-All :
      (view : View Component) (entries : Map Component)
      → All (λ e. view e.0 ≡ some e.1) entries
      → All
          (λ e. IsStoppedComponent current view e.0 e.1)
          (filter_map (stop_component current) entries)
  unfolding stop_component
  stopped-All view entries h = All-filter_map _ (stop_component current) entries (
      All-imp
        (λ e there y found. elim (Bool-cases (contains_key e.0 current.components)) [
          | inl b ↦
              let same : (e.0, record (e.1) { instances = remove current.id e.1.instances }) ≡ y =
                ground (arith, b, found) in
              subst (λ y. IsStoppedComponent current view y.0 y.1) same
                (record { old = e.1; there = there; listed = b; stopped = refl })
          | inr b ↦ absurd (ground (arith, b, found))
        ])
        entries h)

  stopped_contains :
      (id : String) (entries : Map Component)
      → contains_key id current.components ≡ true
      → contains id (keys entries)
        ≡ contains id (keys (filter_map (stop_component current) entries))
  unfolding stop_component
  stopped_contains id [] h = refl
  stopped_contains id ((k, c) ∷ entries) h =
      ground (arith, stopped_contains id entries h, eq_iff k id)

pub stopped_providers-All :
    (host_id : String) (view : View Provider) (entries : Map Provider) (infos : List ProviderInfo)
    → ((k : String) → lookup k entries ≡ view k)
    → All
        (λ e. IsStoppedProvider host_id view e.0 e.1)
        (filter_map (stop_provider_on host_id entries) infos)
unfolding stop_provider_on
stopped_providers-All host_id view entries infos h =
    All-filter_map _ (stop_provider_on host_id entries) infos (
      All-tabulate
        (λ i y found. elim (Option-cases (lookup i.provider_id entries)) [
          | inl n ↦ absurd (ground (arith, n, found))
          | inr (p, f) ↦ elim (Option-cases (lookup host_id p.hosts)) [
            | inl n ↦ absurd (ground (arith, f, n, found))
            | inr (_, o) ↦
                let same : (i.provider_id, record p { hosts = remove host_id p.hosts }) ≡ y =
                  ground (arith, f, o, found) in
                subst (λ y. IsStoppedProvider host_id view y.0 y.1) same
                  (record { old = p; there = sym (h i.provider_id) ∙ f; stopped = refl })
          ]
        ])
        infos)

-- The provider is in the inventory and has a status on the host.
abbrev ran_on : String → List ProviderInfo → String → Option Provider → Bool
ran_on host_id infos id none = false
ran_on host_id infos id (some p) =
    any (λ i. i.provider_id == id) infos && contains_key host_id p.hosts

module _ (host_id id : String) (entries : Map Provider) (p : Provider)
    (found : lookup id entries ≡ some p) (hosted : contains_key host_id p.hosts ≡ true) where
  contains-stopped :
      (infos : List ProviderInfo)
      → any (λ i. i.provider_id == id) infos ≡ true
      → contains id (keys (filter_map (stop_provider_on host_id entries) infos)) ≡ true
  unfolding stop_provider_on
  contains-stopped [] h = h
  contains-stopped (i ∷ infos) h = elim (Bool-cases (i.provider_id == id)) [
    | inl e ↦
        let same : i.provider_id ≡ id = ground (arith, eq_iff i.provider_id id, e) in
        ground (arith, ap (λ k. lookup k entries) same, found, hosted, e)
    | inr e ↦ ground (arith, e, h, contains-stopped infos)
  ]

providers_contains :
    (host_id id : String) (entries : Map Provider) (infos : List ProviderInfo)
    → ran_on host_id infos id (lookup id entries) ≡ true
    → contains id (keys (filter_map (stop_provider_on host_id entries) infos)) ≡ true
providers_contains host_id id entries infos h = elim (Option-cases (lookup id entries)) [
  | inl n ↦ absurd (ground (arith, n, h))
  | inr (p, f) ↦
      contains-stopped host_id id entries p f (ground (arith, f, h)) infos (ground (arith, f, h))
]

-- What the components and the providers are after a host was stopped.
pub record ComponentsStopped {x : External} (current : Host x) (l l' : Lattice x) : Type 0 where
  pub hosts : l'.hosts ≡ l.hosts
  pub providers : l'.providers ≡ l.providers
  pub component :
      (id : String)
      → ((c : Component) × (l'.components id ≡ some c)
          × IsStoppedComponent current l.components id c)
        ⊎ ((l'.components id ≡ none)
            × (c : Component) × IsStoppedComponent current l.components id c
            × (is_empty c.instances ≡ true))
        ⊎ (((l.components id ≡ none) ⊎ (contains_key id current.components ≡ false))
            × (l'.components id ≡ l.components id))

pub record ProvidersStopped {x : External} (host_id : String) (current : Host x) (l l' : Lattice x)
    : Type 0 where
  pub hosts : l'.hosts ≡ l.hosts
  pub components : l'.components ≡ l.components
  pub provider :
      (id : String)
      → ((p : Provider) × (l'.providers id ≡ some p) × IsStoppedProvider host_id l.providers id p)
        ⊎ ((l'.providers id ≡ none)
            × (p : Provider) × IsStoppedProvider host_id l.providers id p
            × (is_empty p.hosts ≡ true))
        ⊎ ((ran_on host_id current.providers id (l.providers id) ≡ false)
            × (l'.providers id ≡ l.providers id))

pub ran_elsewhere :
    (host_id id : String) (entries : Map Provider) (infos : List ProviderInfo)
    (view : View Provider)
    → contains id (keys (filter_map (stop_provider_on host_id entries) infos)) ≡ false
    → lookup id entries ≡ view id
    → ran_on host_id infos id (view id) ≡ false
ran_elsewhere host_id id entries infos view out found =
    elim (Bool-cases (ran_on host_id infos id (view id))) [
      | inl ran ↦ let there = providers_contains host_id id entries infos (rw found ran) in cc
      | inr n ↦ n
    ]

-- A component that is not among the stopped ones is not stored, or is not in the inventory.
pub untouched_component :
    {x : External} (current : Host x) (id : String) (entries : Map Component)
    (view : View Component)
    → contains id (keys (filter_map (stop_component current) entries)) ≡ false
    → lookup id entries ≡ view id
    → (view id ≡ none) ⊎ (contains_key id current.components ≡ false)
untouched_component current id entries view out found =
    elim (Bool-cases (contains_key id current.components)) [
      | inl listed ↦ inl (
          ground (
            arith,
            stopped_contains current id entries listed,
            out,
            contains-keys id entries,
            found,
          ))
      | inr n ↦ inr n
    ]
