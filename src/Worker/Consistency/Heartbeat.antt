-- ===== src/Worker/Consistency/Heartbeat.antt =====
-- A heartbeat makes the state of its host consistent.
use wadm.Prelude.{
  ℕ, String, ◌≡◌, refl, sym, ◌∙◌, ap, subst, arith, ◌||◌, ◌⊎◌, true, false, some, List, [], ◌∷◌,
  Map, map, lookup, insert, lookup-insert, contains_key, any, ◌==◌, inl, inr, Result,
}
use wadm.Prelude.Actions.{Ensures, Ensures-imp, Ensures-bind}
use wadm.External.{External}
use wadm.Event.{HostHeartbeat, ProviderInfo}
use wadm.Storage.{Host}
use wadm.Storage.Sets.{set_from_iter, set_insert, map_from_iter, same_provider}
use wadm.Storage.Conversions.{host_of_heartbeat, component_entry_of, provider_info_of}
use wadm.Storage.Store.{Store}
use wadm.Storage.Store.Contract.{IsStore, Lattice, update, overwrite, with_hosts}
use wadm.Worker.Heartbeat.{Claims, handle_host_heartbeat}
use wadm.Worker.Effects.Inventory.{in_inventory, in_components, ProvidersSeen, ComponentsSeen}
use wadm.Worker.Effects.Heartbeat.{
  heartbeat_provider_update-effect, heartbeat_component_update-effect,
}
use wadm.Worker.Consistency.Places.{listed}
use wadm.Worker.Consistency.{IsConsistent}
use wadm.Worker.Consistency.Stopped.{put-cases}

contains-map_from_iter :
    {A : Type 0} (key : String) (acc entries : Map A)
    → contains_key key (map_from_iter acc entries) ≡ true
    → (contains_key key acc || any (λ e. e.0 == key) entries) ≡ true
unfolding map_from_iter
contains-map_from_iter key acc [] h = ground (arith, h)
contains-map_from_iter key acc ((k, a) ∷ entries) h =
    let later = contains-map_from_iter key (insert k a acc) entries h in
    ground (arith, later, lookup-insert k key a acc)

listed-set_from_iter :
    (id : String) (acc infos : List ProviderInfo)
    → listed id (set_from_iter same_provider acc infos) ≡ true
    → (listed id acc || listed id infos) ≡ true
unfolding set_from_iter set_insert
listed-set_from_iter id acc [] h = ground (arith, h)
listed-set_from_iter id acc (i ∷ infos) h =
    let later = listed-set_from_iter id (set_insert same_provider i acc) infos h in
    ground (arith, later)

module _ (x : External) where
  any-component_entries :
      (id : String) (inventory : List x.ComponentDescription)
      → any (λ e. e.0 == id) (map (component_entry_of x) inventory) ≡ in_components x id inventory
  any-component_entries id [] = refl
  any-component_entries id (d ∷ inventory) = ground (arith, any-component_entries id inventory)

  listed-provider_infos :
      (id : String) (inventory : List x.ProviderDescription)
      → listed id (map (provider_info_of x) inventory) ≡ in_inventory x id inventory
  listed-provider_infos id [] = refl
  listed-provider_infos id (d ∷ inventory) = ground (arith, listed-provider_infos id inventory)

  module _ (now : ℕ) (e : HostHeartbeat x) where
    heartbeat-components :
        (id : String)
        → contains_key id (host_of_heartbeat x now e).components ≡ true
        → in_components x id e.components ≡ true
    unfolding host_of_heartbeat lookup
    heartbeat-components id h =
        let entries = map (component_entry_of x) e.components in
        sym (any-component_entries id e.components) ∙ contains-map_from_iter id [] entries h

    heartbeat-providers :
        (id : String)
        → listed id (host_of_heartbeat x now e).providers ≡ true
        → in_inventory x id e.providers ≡ true
    unfolding host_of_heartbeat
    heartbeat-providers id h =
        let infos = map (provider_info_of x) e.providers in
        sym (listed-provider_infos id e.providers) ∙ listed-set_from_iter id [] infos h

    module _ {l l1 l2 l3 : Lattice x} (v : IsConsistent l)
        (stored : l1 ≡ with_hosts (update e.host_id (some (host_of_heartbeat x now e)) l.hosts) l)
        (p : ProvidersSeen x e.host_id e.providers l1 l2)
        (c : ComponentsSeen x e.host_id e.components l2 l3) where
      seen-host :
          (key : String) (h : Host x)
          → l3.hosts key ≡ some h
          → (((e.host_id == key) ≡ false) × (l.hosts key ≡ some h))
            ⊎ ((e.host_id ≡ key) × (host_of_heartbeat x now e ≡ h))
      seen-host key h k =
          let before : l3.hosts key
              ≡ update e.host_id (some (host_of_heartbeat x now e)) l.hosts key =
            ap (λ h. h key) (c.hosts ∙ p.hosts) ∙ ap (λ l. l.hosts key) stored in
          elim (put-cases e.host_id _ l.hosts key h (sym before ∙ k)) [
            | inl there ↦ inl there
            | inr (here, same) ↦ inr (here, cc)
          ]

      seen-IsConsistent : IsConsistent l3
      unfolding host_of_heartbeat
      seen-IsConsistent = record {
        keyed = λ key h k. elim (seen-host key h k) [
          | inl (_, there) ↦ v.keyed key h there
          | inr (here, same) ↦ ap (λ h. h.id) (sym same) ∙ here
        ];
        running = λ key h id k listed. elim (seen-host key h k) [
          | inl (_, there) ↦
              let same : l2.components id ≡ l.components id =
                ap (λ c. c id) p.components ∙ ap (λ l. l.components id) stored in
              c.kept id key (rw same (v.running key h id there listed))
          | inr (here, same) ↦ rw (← here) (
              c.seen id (
                heartbeat-components id
                  (subst (λ h. contains_key id h.components ≡ true) (sym same) listed)))
        ];
        hosted = λ key h id k inventory.
            let after : l3.providers id ≡ l2.providers id = ap (λ p. p id) c.providers in
            rw after (elim (seen-host key h k) [
              | inl (_, there) ↦
                  let same : l1.providers id ≡ l.providers id = ap (λ l. l.providers id) stored in
                  p.kept id key (rw same (v.hosted key h id there inventory))
              | inr (here, same) ↦ rw (← here) (
                  p.seen id (
                    heartbeat-providers id
                      (subst (λ h. listed id h.providers ≡ true) (sym same) inventory)))
            ]);
      }

module _ (x : External) {σ : Type 0} (db : Store x σ) (view : σ → Lattice x)
    (is_store : IsStore db view) where
  pub handle_host_heartbeat-IsConsistent :
      (get_claims : σ → Result (Map Claims)) (now : ℕ) (e : HostHeartbeat x) (s : σ)
      → IsConsistent (view s)
      → Ensures (handle_host_heartbeat x db get_claims now e s) (λ _ t. IsConsistent (view t))
  unfolding handle_host_heartbeat overwrite
  handle_host_heartbeat-IsConsistent get_claims now e s v =
      Ensures-bind _ _ s _ (is_store.hosts.stored ((e.host_id, host_of_heartbeat x now e) ∷ []) s)
        (λ _ t stored.
          Ensures-bind _ _ t _ (heartbeat_provider_update-effect x db view is_store e t)
            (λ _ u seen.
              Ensures-imp _ _ (heartbeat_component_update-effect x db view is_store get_claims e u)
                (λ _ w ran. seen-IsConsistent x now e v stored seen ran)))
