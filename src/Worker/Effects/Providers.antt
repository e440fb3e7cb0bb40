-- ===== src/Worker/Effects/Providers.antt =====
-- The effects of the handlers of provider events.
use wadm.Prelude.{
  String, ◌≡◌, refl, ◌∙◌, ap, sym, subst, [], ◌∷◌, Bool, true, false, Option, none, some, lookup,
  remove, is_empty, if◌then◌else◌, Bool-cases, Option-cases, inl, inr,
}
use wadm.Prelude.Actions.{Ensures, Ensures-imp, Ensures-pure, Ensures-bind, Ensures-read}
use wadm.External.{External}
use wadm.Event.{ProviderStarted, ProviderStopped, ProviderHealthCheckInfo}
use wadm.Storage.{Host, Provider}
use wadm.Storage.Store.{Store}
use wadm.Storage.Store.Contract.{
  IsStore, Lattice, View, update, overwrite, erase, update_self, with_hosts, with_providers,
}
use wadm.Worker.Components.{update_host}
use wadm.Worker.Providers.{
  start_provider, add_provider, remove_provider, handle_provider_started, stop_provider,
  handle_provider_stopped, check_provider, unknown_provider, handle_provider_health_check,
}
use wadm.Worker.Effects.{mapped, Keyed, update_host-effect}

module _ {x : External} where
  abbrev pub after_started : ProviderStarted → Lattice x → Lattice x
  after_started e l = record {
    components = l.components;
    hosts =
        if (start_provider e (l.providers e.provider_id)).1
        then update e.host_id (mapped (add_provider e) (l.hosts e.host_id)) l.hosts
        else l.hosts;
    providers =
        update e.provider_id (some (start_provider e (l.providers e.provider_id)).0) l.providers;
  }

abbrev pub provider_after_stop : ProviderStopped → Option Provider → Option Provider
provider_after_stop e none = none
provider_after_stop e (some p) = elim (lookup e.host_id p.hosts) [
  | none ↦ some p
  | some _ ↦
      let hosts = remove e.host_id p.hosts in
      if is_empty hosts then none else some (record p { hosts = hosts })
]

abbrev pub provider_after_check : ProviderHealthCheckInfo → Option Bool → Option Provider → Provider
provider_after_check e failing found =
    check_provider e failing (elim found [ none ↦ unknown_provider e.provider_id | some p ↦ p ])

module _ {x : External} where
  abbrev pub after_stopped : ProviderStopped → Lattice x → Lattice x
  after_stopped e l = record {
    components = l.components;
    hosts = update e.host_id (mapped (remove_provider e) (l.hosts e.host_id)) l.hosts;
    providers =
        update e.provider_id (provider_after_stop e (l.providers e.provider_id)) l.providers;
  }

  abbrev pub after_check : ProviderHealthCheckInfo → Option Bool → Lattice x → Lattice x
  after_check e failing l = record l {
    providers =
        update e.provider_id (some (provider_after_check e failing (l.providers e.provider_id)))
          l.providers;
  }

untouched :
    {A : Type 0} (view : View A) {key : String} (found : Option A)
    → view key ≡ found
    → update key found view ≡ view
untouched view {key} found e = subst (λ o. update key o view ≡ view) e (update_self key view)

module _ {x : External} {σ : Type 0} (db : Store x σ) (view : σ → Lattice x)
    (is_store : IsStore db view) where
  start_host-effect :
      (e : ProviderStarted) (b : Bool) (found : Option (Host x)) (s : σ)
      → Keyed (view s).hosts
      → (view s).hosts e.host_id ≡ found
      → Ensures (update_host db (add_provider e) (if b then found else none) s) (λ _ t.
        view t
        ≡ with_hosts
            (if b
              then update e.host_id (mapped (add_provider e) found) (view s).hosts
              else (view s).hosts)
            (view s))
  unfolding update_host add_provider
  start_host-effect e true found s keyed there =
      update_host-effect db view is_store (add_provider e) e.host_id found s there
        (λ h k. keyed e.host_id h (there ∙ k))
  start_host-effect e false found s keyed there = Ensures-pure tt s _ refl

  pub handle_provider_started-effect :
      (e : ProviderStarted) (s : σ)
      → Keyed (view s).hosts
      → Ensures (handle_provider_started db e s) (λ _ t. view t ≡ after_started e (view s))
  unfolding handle_provider_started overwrite
  handle_provider_started-effect e s keyed = Ensures-read _ _ s _ (λ current got_current.
      Ensures-read _ _ s _ (λ host got_host.
        let there : (view s).providers e.provider_id ≡ current =
          is_store.providers.get_found e.provider_id s current got_current in
        let running : (view s).hosts e.host_id ≡ host =
          is_store.hosts.get_found e.host_id s host got_host in
        Ensures-bind _ _ s _ (start_host-effect e (start_provider e current).1 host s keyed running)
          (λ _ t updated.
            Ensures-imp _ _
              (is_store.providers.stored ((e.provider_id, (start_provider e current).0) ∷ []) t)
              (λ _ u stored.
                let joined : with_providers
                      (update e.provider_id (some (start_provider e current).0) (view t).providers)
                      (view t)
                    ≡ after_started e (view s) =
                  rw (updated, there, running) refl in
                stored ∙ joined))))

  stop_provider-effect :
      (e : ProviderStopped) (found : Option Provider) (s : σ)
      → (view s).providers e.provider_id ≡ found
      → Ensures (stop_provider db e found s) (λ _ t.
        view t
        ≡ with_providers
            (update e.provider_id (provider_after_stop e found) (view s).providers)
            (view s))
  unfolding stop_provider overwrite erase
  stop_provider-effect e none s there =
      Ensures-pure tt s _
        (ap (λ v. with_providers v (view s)) (sym (untouched (view s).providers _ there)))
  stop_provider-effect e (some p) s there = elim (Option-cases (lookup e.host_id p.hosts)) [
    | inl k ↦
        rw (k, stop_provider, provider_after_stop)
          (Ensures-pure tt s _
            (ap (λ v. with_providers v (view s)) (sym (untouched (view s).providers _ there))))
    | inr (status, k) ↦ elim (Bool-cases (is_empty (remove e.host_id p.hosts))) [
      | inl b ↦
          rw (k, b, stop_provider, provider_after_stop)
            (is_store.providers.deleted (e.provider_id ∷ []) s)
      | inr b ↦
          rw (k, b, stop_provider, provider_after_stop)
            (is_store.providers.stored
              ((e.provider_id, record p { hosts = remove e.host_id p.hosts }) ∷ []) s)
    ]
  ]

  pub handle_provider_stopped-effect :
      (e : ProviderStopped) (s : σ)
      → Keyed (view s).hosts
      → Ensures (handle_provider_stopped db e s) (λ _ t. view t ≡ after_stopped e (view s))
  unfolding handle_provider_stopped remove_provider
  handle_provider_stopped-effect e s keyed = Ensures-read _ _ s _ (λ host got_host.
      let running : (view s).hosts e.host_id ≡ host =
        is_store.hosts.get_found e.host_id s host got_host in
      Ensures-bind _ _ s _
        (update_host-effect db view is_store (remove_provider e) e.host_id host s running
          (λ h k. keyed e.host_id h (running ∙ k)))
        (λ _ t updated. Ensures-read _ _ t _ (λ current got_current.
          let there : (view t).providers e.provider_id ≡ current =
            is_store.providers.get_found e.provider_id t current got_current in
          Ensures-imp _ _ (stop_provider-effect e current t there) (λ _ u stored.
            let joined : with_providers
                  (update e.provider_id (provider_after_stop e current) (view t).providers) (view t)
                ≡ after_stopped e (view s) =
              rw (← there, updated, running) refl in
            stored ∙ joined))))

  pub handle_provider_health_check-effect :
      (e : ProviderHealthCheckInfo) (failing : Option Bool) (s : σ)
      → Ensures
          (handle_provider_health_check db e failing s)
          (λ _ t. view t ≡ after_check e failing (view s))
  unfolding handle_provider_health_check overwrite
  handle_provider_health_check-effect e failing s = Ensures-read _ _ s _ (λ current got_current.
      let there : (view s).providers e.provider_id ≡ current =
        is_store.providers.get_found e.provider_id s current got_current in
      rw there (
        is_store.providers.stored ((e.provider_id, provider_after_check e failing current) ∷ []) s))
