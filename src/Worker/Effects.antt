-- ===== src/Worker/Effects.antt =====
-- What the handlers of single components and providers do to the state, when they succeed: one
-- update of each table.
pub mod Providers
pub mod Stopped
pub mod Inventory
pub mod Hosts
pub mod Heartbeat
use wadm.Prelude.{
  String, ◌≡◌, refl, ◌∙◌, ap, sym, subst, [], ◌∷◌, arith, Bool, true, false, Option, none, some,
  Result, if◌then◌else◌, is_empty, Bool-cases, inl, inr,
}
use wadm.Prelude.Actions.{Ensures, Ensures-imp, Ensures-pure, Ensures-bind, Ensures-read, pure}
use wadm.External.{External}
use wadm.Event.{ComponentScaled}
use wadm.Storage.{Component, Host, Provider}
use wadm.Storage.Store.{Store, store, delete}
use wadm.Storage.Store.Contract.{
  IsStore, Lattice, View, update, overwrite, erase, update_self, with_hosts, with_components,
}
use wadm.Worker.Components.{
  scale_component_data, scale_host, update_host, store_component, handle_component_scaled,
}

-- `and_then` of a total function.
abbrev pub mapped : {A : Type 0} → (A → A) → Option A → Option A
mapped f none = none
mapped f (some a) = some (f a)

-- Every host is stored under its identifier.
abbrev pub Keyed : {x : External} → View (Host x) → Type 0
Keyed hosts = (key : String) (h : Host _) → hosts key ≡ some h → h.id ≡ key

-- The component as it is after the event: absent without instances.
abbrev pub component_after : ComponentScaled → Option Component → Option Component
component_after e found =
    let c = scale_component_data e found in if is_empty c.instances then none else some c

-- The lattice after a component was scaled.
abbrev pub after_scaled : {x : External} → ComponentScaled → Lattice x → Lattice x
after_scaled e l = record {
  components = update e.component_id (component_after e (l.components e.component_id)) l.components;
  hosts = update e.host_id (mapped (scale_host e) (l.hosts e.host_id)) l.hosts;
  providers = l.providers;
}

module _ {x : External} {σ : Type 0} (db : Store x σ) (view : σ → Lattice x)
    (is_store : IsStore db view) where
  pub update_host-effect :
      (f : Host x → Host x) (key : String) (found : Option (Host x)) (s : σ)
      → (view s).hosts key ≡ found
      → ((h : Host x) → found ≡ some h → (f h).id ≡ key)
      → Ensures
          (update_host db f found s)
          (λ _ t. view t ≡ with_hosts (update key (mapped f found) (view s).hosts) (view s))
  unfolding update_host overwrite
  update_host-effect f key none s e k =
      let same : update key none (view s).hosts ≡ (view s).hosts =
        subst (λ o. update key o (view s).hosts ≡ (view s).hosts) e
          (update_self key (view s).hosts) in
      Ensures-pure tt s _ (ap (λ v. with_hosts v (view s)) (sym same))
  update_host-effect f key (some h) s e k =
      subst
        (λ k.
          Ensures (store db.hosts (f h).id (f h) s)
            (λ _ t. view t ≡ with_hosts (update k (some (f h)) (view s).hosts) (view s)))
        (k h refl) (is_store.hosts.stored (((f h).id, f h) ∷ []) s)

  store_component-effect :
      (e : ComponentScaled) (c : Component) (s : σ)
      → Ensures (store_component db e c s) (λ _ t.
        view t
        ≡ with_components
            (update e.component_id
              (if is_empty c.instances then none else some c)
              (view s).components)
            (view s))
  unfolding store_component overwrite erase
  store_component-effect e c s = elim (Bool-cases (is_empty c.instances)) [
    | inl k ↦ rw k (is_store.components.deleted (e.component_id ∷ []) s)
    | inr k ↦ rw k (is_store.components.stored ((e.component_id, c) ∷ []) s)
  ]

  pub handle_component_scaled-effect :
      (e : ComponentScaled) (s : σ)
      → Keyed (view s).hosts
      → Ensures (handle_component_scaled db e s) (λ _ t. view t ≡ after_scaled e (view s))
  unfolding handle_component_scaled scale_host
  handle_component_scaled-effect e s keyed = Ensures-read _ _ s _ (λ current got_current.
      Ensures-read _ _ s _ (λ host got_host.
        Ensures-bind _ _ s _
          (update_host-effect (scale_host e) e.host_id host s
            (is_store.hosts.get_found e.host_id s host got_host)
            (λ h k. keyed e.host_id h (is_store.hosts.get_found e.host_id s host got_host ∙ k)))
          (λ _ t updated.
            Ensures-imp _ _ (store_component-effect e (scale_component_data e current) t)
              (λ _ u stored.
                let there : (view s).components e.component_id ≡ current =
                  is_store.components.get_found e.component_id s current got_current in
                let running : (view s).hosts e.host_id ≡ host =
                  is_store.hosts.get_found e.host_id s host got_host in
                let joined : with_components
                      (update e.component_id (component_after e current) (view t).components)
                      (view t)
                    ≡ after_scaled e (view s) =
                  rw (updated, there, running) refl in
                stored ∙ joined))))
