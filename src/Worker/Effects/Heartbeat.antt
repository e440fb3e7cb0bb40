-- ===== src/Worker/Effects/Heartbeat.antt =====
-- The effect of a heartbeat on the components and the providers of its inventory.
use wadm.Prelude.{String, ap, Map, Result, filter_map, All-tabulate, All-filter_map, inl, inr}
use wadm.Prelude.Actions.{Ensures, Ensures-imp, Ensures-read}
use wadm.External.{External}
use wadm.Event.{HostHeartbeat}
use wadm.Storage.Store.{Store}
use wadm.Storage.Store.Contract.{IsStore, Lattice, overwrite-cases}
use wadm.Worker.Heartbeat.{
  Claims, provider_change, heartbeat_provider_update, heartbeat_component_update,
}
use wadm.Worker.Effects.Inventory.{
  changed-KeepsHosts, unchanged-hosted, written, unwritten-runs, written-KeepsInstances,
  ProvidersSeen, ComponentsSeen,
}

module _ (x : External) {σ : Type 0} (db : Store x σ) (view : σ → Lattice x)
    (is_store : IsStore db view) where
  pub heartbeat_provider_update-effect :
      (e : HostHeartbeat x) (s : σ)
      → Ensures
          (heartbeat_provider_update x db e s)
          (λ _ t. ProvidersSeen x e.host_id e.providers (view s) (view t))
  unfolding heartbeat_provider_update
  heartbeat_provider_update-effect e s = Ensures-read _ _ s _ (λ providers listed.
      let (_, found) = is_store.providers.list_found s providers listed in
      let change = provider_change x e.host_id providers in
      let entries = filter_map change e.providers in
      let all = All-filter_map _ change e.providers (
        All-tabulate
          (λ d c h. changed-KeepsHosts x e.host_id (view s).providers providers d c found h)
          e.providers) in
      Ensures-imp _ _ (is_store.providers.stored entries s) (λ _ t stored.
        let at = λ (id : String). ap (λ l. l.providers id) stored in
        record {
          hosts = ap (λ l. l.hosts) stored;
          components = ap (λ l. l.components) stored;
          kept = λ id key h.
              rw (at id) (elim (overwrite-cases _ entries (view s).providers id all) [
                | inl (p, o, k) ↦ rw o (k.0 key h)
                | inr (_, o) ↦ rw o h
              ]);
          seen = λ id h. rw (at id) (elim (overwrite-cases _ entries (view s).providers id all) [
            | inl (p, o, k) ↦ rw o k.1
            | inr (out, o) ↦
                rw (o, ← found id) (unchanged-hosted x e.host_id id providers e.providers h out)
          ]);
        }))

  pub heartbeat_component_update-effect :
      (get_claims : σ → Result (Map Claims)) (e : HostHeartbeat x) (s : σ)
      → Ensures
          (heartbeat_component_update x db get_claims e s)
          (λ _ t. ComponentsSeen x e.host_id e.components (view s) (view t))
  unfolding heartbeat_component_update
  heartbeat_component_update-effect get_claims e s = Ensures-read _ _ s _ (λ components listed.
      Ensures-read _ _ s _ (λ claims _.
        let (_, found) = is_store.components.list_found s components listed in
        let entries = written x e.host_id components claims e.components in
        let all =
          written-KeepsInstances x e.host_id (view s).components components claims e.components
            found in
        Ensures-imp _ _ (is_store.components.stored entries s) (λ _ t stored.
          let at = λ (id : String). ap (λ l. l.components id) stored in
          record {
            hosts = ap (λ l. l.hosts) stored;
            providers = ap (λ l. l.providers) stored;
            kept = λ id key h.
                rw (at id) (elim (overwrite-cases _ entries (view s).components id all) [
                  | inl (c, o, k) ↦ rw o (k.0 key h)
                  | inr (_, o) ↦ rw o h
                ]);
            seen = λ id h. rw (at id) (elim (overwrite-cases _ entries (view s).components id all) [
              | inl (c, o, k) ↦ rw o k.1
              | inr (out, o) ↦
                  rw (o, ← found id)
                    (unwritten-runs x e.host_id id components claims e.components h out)
            ]);
          })))
