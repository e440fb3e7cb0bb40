-- ===== src/Worker/Consistency/Runs.antt =====
-- Every run of the worker on events keeps the state consistent.
use wadm.Prelude.{ℕ, String, ◌≡◌, sym, subst, true, false, Option, none, some, Map, Result, ok}
use wadm.Prelude.Actions.{Ensures, Ensures-imp, Ensures-pure, Ensures-bind, Action, pure, ◌>>◌}
use wadm.External.{External}
use wadm.Event.{
  Event, component_scaled, component_scale_failed, provider_started, provider_stopped,
  provider_start_failed, provider_health_check_passed, provider_health_check_failed,
  provider_health_check_status, host_started, host_stopped, host_heartbeat, linkdef_set,
  linkdef_deleted, config_set, config_deleted, manifest_published, manifest_unpublished,
}
use wadm.Storage.Store.{Store}
use wadm.Storage.Store.Contract.{IsStore, Lattice}
use wadm.Worker.Heartbeat.{Claims}
use wadm.Worker.State.{update_state}
use wadm.Worker.Effects.{handle_component_scaled-effect}
use wadm.Worker.Effects.Providers.{
  handle_provider_started-effect, handle_provider_stopped-effect,
  handle_provider_health_check-effect,
}
use wadm.Worker.Effects.Hosts.{handle_host_started-effect, handle_host_stopped-effect}
use wadm.Worker.Consistency.{IsConsistent}
use wadm.Worker.Consistency.Scaled.{after_scaled-IsConsistent}
use wadm.Worker.Consistency.Providers.{
  after_started-IsConsistent, after_stopped-IsConsistent, after_check-IsConsistent,
}
use wadm.Worker.Consistency.Stopped.{after_start-IsConsistent, AfterStop-IsConsistent}
use wadm.Worker.Consistency.Heartbeat.{handle_host_heartbeat-IsConsistent}

module _ {x : External} {σ : Type 0} (db : Store x σ) (view : σ → Lattice x)
    (is_store : IsStore db view) (get_claims : σ → Result (Map Claims)) where
  then_pure :
      (m : Action σ (Unit {0})) (hint : Option String) (s : σ)
      → Ensures (m s) (λ _ t. IsConsistent (view t))
      → Ensures ((m >> pure hint) s) (λ _ t. IsConsistent (view t))
  then_pure m hint s h = Ensures-bind m _ s _ h (λ _ t v. Ensures-pure hint t _ v)

  by_effect :
      (r : Result (Unit {0}) × σ) (l : Lattice x)
      → IsConsistent l
      → Ensures r (λ _ t. view t ≡ l)
      → Ensures r (λ _ t. IsConsistent (view t))
  by_effect r l v h = Ensures-imp r _ h (λ _ t e. subst IsConsistent (sym e) v)

  pub update_state-Ensures :
      (now : ℕ) (e : Event x) (s : σ)
      → IsConsistent (view s)
      → Ensures (update_state db get_claims now e s) (λ _ t. IsConsistent (view t))
  unfolding update_state
  update_state-Ensures now (component_scaled e) s v = then_pure _ _ s (
      by_effect _ _ (after_scaled-IsConsistent e (view s) v)
        (handle_component_scaled-effect db view is_store e s v.keyed))
  update_state-Ensures now (host_heartbeat e) s v =
      then_pure _ _ s (handle_host_heartbeat-IsConsistent x db view is_store get_claims now e s v)
  update_state-Ensures now (host_started e) s v = then_pure _ _ s (
      by_effect _ _ (after_start-IsConsistent now e (view s) v)
        (handle_host_started-effect db view is_store now e s))
  update_state-Ensures now (host_stopped e) s v = then_pure _ _ s (
      Ensures-imp _ _ (handle_host_stopped-effect db view is_store e s)
        (λ _ t r. AfterStop-IsConsistent e.id (view s) (view t) v r))
  update_state-Ensures now (provider_started e) s v = then_pure _ _ s (
      by_effect _ _ (after_started-IsConsistent e (view s) v)
        (handle_provider_started-effect db view is_store e s v.keyed))
  update_state-Ensures now (provider_stopped e) s v = then_pure _ _ s (
      by_effect _ _ (after_stopped-IsConsistent e (view s) v)
        (handle_provider_stopped-effect db view is_store e s v.keyed))
  update_state-Ensures now (provider_health_check_status e) s v = then_pure _ _ s (
      by_effect _ _ (after_check-IsConsistent e none (view s) v)
        (handle_provider_health_check-effect db view is_store e none s))
  update_state-Ensures now (provider_health_check_passed e) s v = then_pure _ _ s (
      by_effect _ _ (after_check-IsConsistent e (some false) (view s) v)
        (handle_provider_health_check-effect db view is_store e (some false) s))
  update_state-Ensures now (provider_health_check_failed e) s v = then_pure _ _ s (
      by_effect _ _ (after_check-IsConsistent e (some true) (view s) v)
        (handle_provider_health_check-effect db view is_store e (some true) s))
  update_state-Ensures now (linkdef_set _) s v = Ensures-pure none s _ v
  update_state-Ensures now (linkdef_deleted _) s v = Ensures-pure none s _ v
  update_state-Ensures now (config_set _) s v = Ensures-pure none s _ v
  update_state-Ensures now (config_deleted _) s v = Ensures-pure none s _ v
  update_state-Ensures now (provider_start_failed _) s v = Ensures-pure none s _ v
  update_state-Ensures now (component_scale_failed _) s v = Ensures-pure none s _ v
  update_state-Ensures now (manifest_published _) s v = Ensures-pure none s _ v
  update_state-Ensures now (manifest_unpublished _) s v = Ensures-pure none s _ v

  -- The states that events lead to, where each update succeeds.
  pub data Reaches (s : σ) : σ → Type 0 where
    start : Reaches s s
    step :
        {t u : σ}
        → Reaches s t
        → (now : ℕ) (e : Event x) (hint : Option String)
        → update_state db get_claims now e t ≡ (ok hint, u)
        → Reaches s u

  -- From a consistent state, every state that is reached by successful updates is consistent: what
  -- the inventory of a stored host lists is stored as running there, and the host stands under its
  -- identifier.
  pub Reaches-IsConsistent : (s t : σ) → IsConsistent (view s) → Reaches s t → IsConsistent (view t)
  Reaches-IsConsistent s t v start = v
  Reaches-IsConsistent s t v (step r now e hint ok_) =
      (update_state-Ensures now e _ (Reaches-IsConsistent s _ v r)).at hint t ok_
