-- ===== src/Worker/Effects/Hosts.antt =====
-- The effects of the handlers of starting and stopping hosts.
use wadm.Prelude.{
  ℕ, String, ◌≡◌, refl, ◌∙◌, ap, sym, arith, not, Option, none, some, [], ◌∷◌, keys, filter,
  filter_map, ◌⊎◌, All-imp, inl, inr,
}
use wadm.Prelude.Actions.{Ensures, Ensures-imp, Ensures-pure, Ensures-bind, Ensures-read}
use wadm.External.{External}
use wadm.Event.{HostStarted, HostStopped}
use wadm.Storage.{Host}
use wadm.Storage.Conversions.{host_of_started}
use wadm.Storage.Store.{Store}
use wadm.Storage.Store.Contract.{
  IsStore, Lattice, update, overwrite, erase, with_hosts, with_components, with_providers,
}
use wadm.Storage.Store.Sweep.{sweep, sweep-cases, All-lookup}
use wadm.Worker.Hosts.{
  stop_component, stop_provider_on, still_runs, still_hosted, handle_host_started, stop_components,
  stop_providers, stop_host, stop_found, handle_host_stopped,
}
-- The entry of a stopped component: what was stored, without the host.
use wadm.Worker.Effects.Stopped.{
  IsStoppedComponent, IsStoppedProvider, stopped-All, stopped_providers-All, ComponentsStopped,
  ProvidersStopped, ran_elsewhere, untouched_component,
}

module _ {x : External} {σ : Type 0} (db : Store x σ) (view : σ → Lattice x)
    (is_store : IsStore db view) where
  pub stop_components-effect :
      (current : Host x) (s : σ)
      → Ensures (stop_components db current s) (λ _ t. ComponentsStopped current (view s) (view t))
  unfolding stop_components
  stop_components-effect current s = Ensures-read _ _ s _ (λ entries listed.
      let (distinct, found) = is_store.components.list_found s entries listed in
      let stopped = filter_map (stop_component current) entries in
      let all =
        stopped-All current (view s).components entries
          (All-imp (λ e h. sym (found e.0) ∙ h) entries (All-lookup entries distinct)) in
      Ensures-bind _ _ s _ (is_store.components.stored (filter still_runs stopped) s) (λ _ t stored.
        Ensures-imp _ _
          (is_store.components.deleted (keys (filter (λ c. not (still_runs c)) stopped)) t)
          (λ _ u deleted.
            let joined : view u
                ≡ with_components (sweep still_runs stopped (view s).components) (view s) =
              deleted
              ∙ ap
                  (λ l.
                    with_components
                      (erase (keys (filter (λ c. not (still_runs c)) stopped)) l.components) l)
                  stored in
            record {
              hosts = ap (λ l. l.hosts) joined;
              providers = ap (λ l. l.providers) joined;
              component = λ id.
                  let at = ap (λ l. l.components id) joined in
                  elim (sweep-cases still_runs stopped (view s).components
                    (IsStoppedComponent current (view s).components) id all) [
                      | inl (c, e, p) ↦ inl (c, at ∙ e, p)
                      | inr (inl (e, c, p, empty)) ↦ inr (inl (at ∙ e, c, p, ground (arith, empty)))
                      | inr (inr (out, e)) ↦ inr (
                          inr (
                            untouched_component current id entries (view s).components out
                                (found id),
                            at ∙ e,
                          ))
                    ];
            })))

  pub stop_providers-effect :
      (host_id : String) (current : Host x) (s : σ)
      → Ensures
          (stop_providers db host_id current s)
          (λ _ t. ProvidersStopped host_id current (view s) (view t))
  unfolding stop_providers
  stop_providers-effect host_id current s = Ensures-read _ _ s _ (λ entries listed.
      let (distinct, found) = is_store.providers.list_found s entries listed in
      let stopped = filter_map (stop_provider_on host_id entries) current.providers in
      let all = stopped_providers-All host_id (view s).providers entries current.providers found in
      Ensures-bind _ _ s _ (is_store.providers.stored (filter still_hosted stopped) s)
        (λ _ t stored.
          Ensures-imp _ _
            (is_store.providers.deleted (keys (filter (λ p. not (still_hosted p)) stopped)) t)
            (λ _ u deleted.
              let joined : view u
                  ≡ with_providers (sweep still_hosted stopped (view s).providers) (view s) =
                deleted
                ∙ ap
                    (λ l.
                      with_providers
                        (erase (keys (filter (λ p. not (still_hosted p)) stopped)) l.providers) l)
                    stored in
              record {
                hosts = ap (λ l. l.hosts) joined;
                components = ap (λ l. l.components) joined;
                provider = λ id.
                    let at = ap (λ l. l.providers id) joined in
                    elim (sweep-cases still_hosted stopped (view s).providers
                      (IsStoppedProvider host_id (view s).providers) id all) [
                        | inl (p, e, q) ↦ inl (p, at ∙ e, q)
                        | inr (inl (e, p, q, empty)) ↦
                            inr (inl (at ∙ e, p, q, ground (arith, empty)))
                        | inr (inr (out, e)) ↦ inr (
                            inr (
                              ran_elsewhere host_id id entries current.providers (view s).providers
                                  out (found id),
                              at ∙ e,
                            ))
                      ];
              })))

-- The lattice after a stored host was stopped.
pub record HostRemoved {x : External} (id : String) (current : Host x) (l l' : Lattice x)
    : Type 0 where
  pub first : Lattice x
  pub second : Lattice x
  pub components_stopped : ComponentsStopped current l first
  pub providers_stopped : ProvidersStopped id current first second
  pub removed : l' ≡ with_hosts (update id none second.hosts) second

-- A host that is not stored changes nothing.
abbrev pub AfterStop : {x : External} → String → Lattice x → Lattice x → Type 0
AfterStop {x} id l l' =
    ((l.hosts id ≡ none) × (l' ≡ l))
    ⊎ ((current : Host x) × (l.hosts id ≡ some current) × HostRemoved id current l l')

module _ {x : External} {σ : Type 0} (db : Store x σ) (view : σ → Lattice x)
    (is_store : IsStore db view) where
  stop_host-effect :
      (id : String) (current : Host x) (s : σ)
      → Ensures (stop_host db id current s) (λ _ t. HostRemoved id current (view s) (view t))
  unfolding stop_host erase
  stop_host-effect id current s =
      Ensures-bind _ _ s _ (stop_components-effect db view is_store current s) (λ _ t one.
        Ensures-bind _ _ t _ (stop_providers-effect db view is_store id current t) (λ _ u two.
          Ensures-imp _ _ (is_store.hosts.deleted (id ∷ []) u) (λ _ w gone. record {
            first = view t;
            second = view u;
            components_stopped = one;
            providers_stopped = two;
            removed = gone;
          })))

  stop_found-effect :
      (id : String) (found : Option (Host x)) (s : σ)
      → (view s).hosts id ≡ found
      → Ensures (stop_found db id found s) (λ _ t. AfterStop id (view s) (view t))
  unfolding stop_found
  stop_found-effect id none s there = Ensures-pure tt s _ (inl (there, refl))
  stop_found-effect id (some current) s there =
      Ensures-imp _ _ (stop_host-effect id current s) (λ _ t r. inr (current, there, r))

  pub handle_host_stopped-effect :
      (e : HostStopped) (s : σ)
      → Ensures (handle_host_stopped db e s) (λ _ t. AfterStop e.id (view s) (view t))
  unfolding handle_host_stopped
  handle_host_stopped-effect e s =
      Ensures-read _ _ s _
        (λ found got. stop_found-effect e.id found s (is_store.hosts.get_found e.id s found got))

  pub handle_host_started-effect :
      (now : ℕ) (e : HostStarted) (s : σ)
      → Ensures (handle_host_started db now e s) (λ _ t.
        view t ≡ with_hosts (update e.id (some (host_of_started x now e)) (view s).hosts) (view s))
  unfolding handle_host_started overwrite
  handle_host_started-effect now e s =
      is_store.hosts.stored ((e.id, host_of_started x now e) ∷ []) s
