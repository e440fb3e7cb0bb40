-- ===== src/Scaler/Spread/Reconcile/Satisfied.antt =====
-- When a reconciliation finds nothing to do.
use wadm.Prelude.{
  ℕ, ◌-◌, ◌<◌, String, ◌≡◌, ◌≢◌, ◌↔◌, refl, Option, none, some, inl, inr, List, [], ◌∷◌, ◌++◌, Map,
  arith, ltb, map, All, append-eq-nil, Message, Bool-cases,
}
use wadm.External.{External}
use wadm.Manifest.{Spread}
use wadm.Api.{deployed}
use wadm.Storage.{Host, Component, WadmComponentInfo}
use wadm.Command.{Command}
use wadm.Scaler.Spread.Weights.{sum_usize}
use wadm.Scaler.Spread.Hosts.{eligible_hosts, compute_ineligible_hosts}
use wadm.Scaler.Spread.Conflicts.{detect_spread_requirement_conflicts}
use wadm.Scaler.Spread.Reconcile.{
  ComponentSpreadScaler, values, remove_ineligible, stop_instances, spread_commands, Pass,
  running_components_per_host, running_per_host, managed_count, spread_pass, spread_step,
  add_spread, conclude, final_status, reconcile_with,
}

-- A reconciliation without removals is deployed when it has neither failures nor commands.
pub final_status-eq-deployed_iff :
    (ms : List Message) (cs : List Command)
    → ((final_status ms cs).status_type ≡ deployed) ↔ ((cs ≡ []) × (ms ≡ []))
unfolding final_status
final_status-eq-deployed_iff [] [] = ground arith
final_status-eq-deployed_iff [] (c ∷ cs) = (λ e. cc, λ e. cc)
final_status-eq-deployed_iff (m ∷ ms) cs = (λ e. cc, λ e. cc)

module _ {x : External} (s : ComponentSpreadScaler) (hosts : Map (Host x))
    (component : Option Component) where
  -- A spread has a host to run on, and its instances are as many as it is to have.
  abbrev pub IsMet : Spread × ℕ → Type 0
  IsMet (spread, count) =
      (eligible_hosts hosts spread ≢ [])
      × (sum_usize 0 (values (running_components_per_host s spread component)) ≡ count)

  stop_instances-ne-nil :
      (spread : Spread) (n k : ℕ) (running : Map ℕ)
      → All (λ e. 0 < e.1) running
      → running ≢ []
      → stop_instances s spread n k running ≢ []
  unfolding stop_instances
  stop_instances-ne-nil spread n k [] r ne = absurd (ne refl)
  stop_instances-ne-nil spread n k ((h, c) ∷ rest) (pos, _) ne = ground arith

  spread_commands-eq-nil_iff :
      (spread : Spread) (count : ℕ) (eligible : Map (Host x)) (running : Map ℕ)
      → All (λ e. 0 < e.1) running
      → eligible ≢ []
      → (spread_commands s (spread, count) eligible running ≡ [])
        ↔ (sum_usize 0 (values running) ≡ count)
  unfolding spread_commands sum_usize
  spread_commands-eq-nil_iff spread count eligible [] r ne = ground arith
  spread_commands-eq-nil_iff spread count eligible (e ∷ rest) r ne = ground (
    arith,
    stop_instances-ne-nil spread (sum_usize 0 (values (e ∷ rest)) - count) 0 (e ∷ rest) r (λ z. cc),
  )

  running_per_host-All :
      (wanted : Map String) (instances : Map (List WadmComponentInfo))
      → All (λ e. 0 < e.1) (running_per_host wanted instances)
  unfolding running_per_host
  running_per_host-All wanted [] = tt
  running_per_host-All wanted ((h, infos) ∷ rest) =
      let c = sum_usize 0 (managed_count wanted infos) in
      elim (Bool-cases (ltb 0 c)) [
        | inl e ↦ rw e (ground arith, running_per_host-All wanted rest)
        | inr e ↦ rw e (running_per_host-All wanted rest)
      ]

  running_components-All :
      (spread : Spread) (c : Option Component)
      → All (λ e. 0 < e.1) (running_components_per_host s spread c)
  running_components-All spread none = tt
  running_components-All spread (some c) = running_per_host-All _ c.instances

  append-ne-nil : {A : Type 0} (xs : List A) (a : A) → xs ++ a ∷ [] ≢ []
  append-ne-nil [] a = cc
  append-ne-nil (x' ∷ xs) a = cc

  abbrev IsQuiet : Pass → Type 0
  IsQuiet p = (p.commands ≡ []) × (p.spread_status ≡ [])

  add_spread-IsQuiet_iff :
      (r : Spread × ℕ) (eligible : Map (Host x)) (running : Map ℕ) (p : Pass)
      → All (λ e. 0 < e.1) running
      → IsQuiet (add_spread s r eligible running p)
        ↔ (IsQuiet p × (eligible ≢ []) × (sum_usize 0 (values running) ≡ r.1))
  unfolding add_spread
  add_spread-IsQuiet_iff (spread, count) [] running p h =
      (λ q. absurd (append-ne-nil p.spread_status _ q.1), λ q. absurd (q.1 refl))
  add_spread-IsQuiet_iff (spread, count) (e ∷ es) running p h =
      let (to, from) = spread_commands-eq-nil_iff spread count (e ∷ es) running h (λ z. cc) in
      (
        λ q. let (old, new) = append-eq-nil p.commands _ q.0 in ((old, q.1), (λ z. cc), to new),
        λ q. (rw (from q.2, q.0.0), q.0.1),
      )

  spread_step-IsQuiet_iff :
      (r : Spread × ℕ) (p : Pass)
      → IsQuiet (spread_step s hosts component r p) ↔ (IsQuiet p × IsMet r)
  unfolding spread_step
  spread_step-IsQuiet_iff (spread, count) p =
      let (to, from) =
        add_spread-IsQuiet_iff (spread, count) (eligible_hosts hosts spread)
          (running_components_per_host s spread component) p
          (running_components-All spread component) in
      (λ q. let (a, b, c) = to q in (a, (b, c)), λ q. from (q.0, q.1.0, q.1.1))

  spread_pass-IsQuiet_iff :
      (reqs : List (Spread × ℕ)) (p : Pass)
      → IsQuiet (spread_pass s hosts component reqs p) ↔ (IsQuiet p × All IsMet reqs)
  unfolding spread_pass
  spread_pass-IsQuiet_iff [] p = (λ q. (q, tt), λ q. q.0)
  spread_pass-IsQuiet_iff (r ∷ rest) p =
      let (to, from) = spread_pass-IsQuiet_iff rest (spread_step s hosts component r p) in
      let (out, back) = spread_step-IsQuiet_iff r p in
      (
        λ q. let (now, later) = to q in let (before, met) = out now in (before, (met, later)),
        λ q. from (back (q.0, q.1.0), q.1.1),
      )

  abbrev start : Pass
  start = record { commands = []; spread_status = []; instances = [] }

  abbrev pub conflict : Option Message
  conflict =
      let p = spread_pass s hosts component s.spread_requirements start in
      detect_spread_requirement_conflicts s.spread_requirements hosts p.instances p.commands

  abbrev pub removals : List Command
  removals =
      remove_ineligible s (compute_ineligible_hosts hosts (map (λ r. r.0) s.spread_requirements))

  conclude-deployed_iff :
      (rs : List Command) (c : Option Message) (p : Pass)
      → IsQuiet p ↔ (IsQuiet start × All IsMet s.spread_requirements)
      → let (commands, status) = conclude rs c p in
        ((status.status_type ≡ deployed)
          ↔ ((rs ≡ []) × All IsMet s.spread_requirements × (c ≡ none)))
        × (status.status_type ≡ deployed → commands ≡ [])
  unfolding conclude
  conclude-deployed_iff (r ∷ rs) c p iff = ((λ e. cc, λ e. cc), λ e. cc)
  conclude-deployed_iff [] (some m) p iff = ((λ e. cc, λ e. cc), λ e. refl)
  conclude-deployed_iff [] none p iff =
      let (out, back) = final_status-eq-deployed_iff p.spread_status p.commands in
      (
        (λ e. (refl, (iff.0 (out e)).1, refl), λ q. back (iff.1 ((refl, refl), q.1))),
        λ e. (out e).0,
      )

  -- A reconciliation reports the component as deployed exactly when no host that may not run it
  -- does, each spread has an eligible host and as many instances as it is to have, and the spreads
  -- do not conflict; it then issues no command.
  pub reconcile_with-deployed_iff :
      let (commands, status) = reconcile_with s component hosts in
      ((status.status_type ≡ deployed)
        ↔ ((removals ≡ []) × All IsMet s.spread_requirements × (conflict ≡ none)))
      × (status.status_type ≡ deployed → commands ≡ [])
  unfolding reconcile_with
  reconcile_with-deployed_iff =
      conclude-deployed_iff removals conflict
        (spread_pass s hosts component s.spread_requirements start)
        (spread_pass-IsQuiet_iff s.spread_requirements start)
