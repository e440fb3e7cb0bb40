-- ===== src/Scaler/Daemon/Satisfied.antt =====
-- When a daemon scaler has nothing to do.
use wadm.Prelude.{
  ℕ, String, ◌≡◌, ◌≢◌, ◌↔◌, refl, arith, Option, none, List, [], ◌∷◌, Map, keys, Distinct, All,
  AnyOf, filter-ne-nil_iff, filter-All_iff, All-imp, sym, ◌∙◌, ◌%◌, usize_mod, append-eq-nil,
  Message, filter_map,
}
use wadm.External.{External}
use wadm.Manifest.{Spread}
use wadm.Api.{deployed}
use wadm.Storage.{Host, Component}
use wadm.Command.{Command}
use wadm.Scaler.Spread.Hosts.{satisfies, eligible_hosts, compute_ineligible_hosts}
use wadm.Scaler.Spread.Reconcile.{remove_ineligible}
use wadm.Scaler.Spread.Reconcile.Satisfied.{final_status-eq-deployed_iff}
use wadm.Scaler.Daemon.Running.{
  Allows, running, IsClear, satisfies-Allows_iff, current_count-running,
  remove_ineligible-IsClear_iff,
}
use wadm.Scaler.Daemon.{
  ComponentDaemonScaler, command_source, current_count, host_command, spread_result, spread_results,
  conclude, reconcile_with,
}

module _ {x : External} (s : ComponentDaemonScaler) (component : Option Component)
    (hosts : Map (Host x)) where
  abbrev instances : ℕ
  instances = s.spread_config.spread_config.instances

  -- Some host is allowed, and on each such host as many instances are annotated with the scaler and
  -- the spread as the scaler asks for; the count is that of `usize`, which wraps around.
  abbrev pub IsMet : Spread → Type 0
  IsMet spread =
      AnyOf (λ e. Allows e.1 spread) hosts
      × All
          (λ e.
            Allows e.1 spread
            → running s.id spread component e.0 % usize_mod
              ≡ s.spread_config.spread_config.instances)
          hosts

  host_command-eq-none_iff :
      (spread : Spread) (id : String)
      → (host_command s spread component id ≡ none)
        ↔ (current_count s spread component id ≡ instances)
  unfolding host_command
  host_command-eq-none_iff spread id = ground arith

  commands-eq-nil_iff :
      (spread : Spread) (allowed : Map (Host x))
      → (filter_map (λ h. host_command s spread component h.0) allowed ≡ [])
        ↔ All (λ e. current_count s spread component e.0 ≡ instances) allowed
  commands-eq-nil_iff spread [] = (λ _. tt, λ _. refl)
  commands-eq-nil_iff spread (e ∷ es) =
      ground (arith, host_command-eq-none_iff spread e.0, commands-eq-nil_iff spread es)

  abbrev IsQuiet : List Command × List Message → Type 0
  IsQuiet r = (r.0 ≡ []) × (r.1 ≡ [])

  spread_result-IsQuiet_iff :
      (spread : Spread) (allowed : Map (Host x))
      → IsQuiet (spread_result s spread component allowed)
        ↔ ((allowed ≢ []) × All (λ e. current_count s spread component e.0 ≡ instances) allowed)
  unfolding spread_result
  spread_result-IsQuiet_iff spread [] = (λ q. cc, λ q. absurd (q.0 refl))
  spread_result-IsQuiet_iff spread (e ∷ es) =
      let (to, from) = commands-eq-nil_iff spread (e ∷ es) in
      (λ q. ((λ z. cc), to q.0), λ q. (from q.1, refl))

  IsMet-eligible_hosts :
      (spread : Spread)
      → ((eligible_hosts hosts spread ≢ [])
          × All
              (λ e. current_count s spread component e.0 ≡ instances)
              (eligible_hosts hosts spread))
        ↔ IsMet spread
  unfolding eligible_hosts
  IsMet-eligible_hosts spread =
      let (some_host, a_host) =
        filter-ne-nil_iff (λ e. satisfies e.1.labels spread.requirements)
          (λ e. satisfies-Allows_iff e.1 spread) hosts in
      let (all_hosts, each_host) =
        filter-All_iff (λ e. satisfies e.1.labels spread.requirements)
          (λ e. satisfies-Allows_iff e.1 spread)
          (λ e. current_count s spread component e.0 ≡ instances) hosts in
      (
        λ (h, hs). (
          some_host h,
          All-imp (λ e k a. sym (current_count-running s spread component e.0) ∙ k a) hosts
              (all_hosts hs),
        ),
        λ (h, hs). (
          a_host h,
          each_host
              (All-imp (λ e k a. current_count-running s spread component e.0 ∙ k a) hosts hs),
        ),
      )

  spread_results-IsQuiet_iff :
      (spreads : List Spread)
      → IsQuiet (spread_results s component hosts spreads) ↔ All IsMet spreads
  unfolding spread_results
  spread_results-IsQuiet_iff [] = (λ _. tt, λ _. (refl, refl))
  spread_results-IsQuiet_iff (spread ∷ spreads) =
      let (to, from) = spread_result-IsQuiet_iff spread (eligible_hosts hosts spread) in
      let (meets, met) = IsMet-eligible_hosts spread in
      let (later, back) = spread_results-IsQuiet_iff spreads in
      (
        λ q.
            let (c, cs) = append-eq-nil _ _ q.0 in
            let (m, ms) = append-eq-nil _ _ q.1 in (meets (to (c, m)), later (cs, ms)),
        λ (now, more).
            let (c, m) = from (met now) in
            let (cs, ms) = back more in (rw (c, cs) refl, rw (m, ms) refl),
      )

  conclude-deployed_iff :
      (rs : List Command) (results : List Command × List Message)
      → let (commands, status) = conclude rs results in
        ((status.status_type ≡ deployed) ↔ ((rs ≡ []) × IsQuiet results))
        × (status.status_type ≡ deployed → commands ≡ [])
  unfolding conclude
  conclude-deployed_iff (r ∷ rs) results = ((λ e. cc, λ e. cc), λ e. cc)
  conclude-deployed_iff [] (commands, failures) =
      let (to, from) = final_status-eq-deployed_iff failures commands in
      ((λ e. (refl, to e), λ q. from q.1), λ e. (to e).0)

  -- Where no host is listed twice: a reconciliation reports the component as deployed exactly when
  -- every host that the component runs on is allowed by some spread, each spread allows some host,
  -- and on every host that it allows as many instances, counted in `usize`, are annotated with the
  -- scaler and the spread as the scaler asks for. It then issues no command.
  pub reconcile_with-eq-deployed_iff :
      Distinct (keys hosts)
      → let (commands, status) = reconcile_with s component hosts in
        let config = s.spread_config in
        ((status.status_type ≡ deployed) ↔ (
          IsClear config.component_id config.spread_config.spread hosts
          × All IsMet config.spread_config.spread))
        × (status.status_type ≡ deployed → commands ≡ [])
  unfolding reconcile_with
  reconcile_with-eq-deployed_iff d =
      let spreads = s.spread_config.spread_config.spread in
      let (clear, none_left) = remove_ineligible-IsClear_iff (command_source s) spreads hosts d in
      let ((to, from), quiet) =
        conclude-deployed_iff
          (remove_ineligible (command_source s) (compute_ineligible_hosts hosts spreads))
          (spread_results s component hosts spreads) in
      let (met, back) = spread_results-IsQuiet_iff spreads in
      ((λ e. let (r, q) = to e in (clear r, met q), λ h. from (none_left h.0, back h.1)), quiet)
