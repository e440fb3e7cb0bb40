-- ===== src/Scaler/Spread/Operations/Cleanup.antt =====
-- `cleanup` only takes instances away.
use wadm.Prelude.{
  ℕ, ◌<◌, ◌≡◌, ap, subst, ◌∙◌, inl, inr, Option, some, List, [], ◌∷◌, Map, arith, sum, All, All-imp,
  ok, usize_mod, Option-cases, Result-cases,
}
use wadm.External.{External}
use wadm.Manifest.{Spread}
use wadm.Storage.{Host, Component, ReadStore}
use wadm.Command.{Command, scale_component}
use wadm.Scaler.Spread.Weights.{counts, compute_spread}
use wadm.Scaler.Spread.Weights.Total.{total_weight, Fits, compute_spread_total}
use wadm.Scaler.Spread.Reconcile.{ComponentSpreadScaler, reconcile_with}
use wadm.Api.{StatusInfo, reconciling}
use wadm.Scaler.Spread.Operations.{reconcile, cleaner, cleanup}
use wadm.Scaler.Spread.Operations.Stops.{IsStop, instance_total, reconcile_with-IsStop}

AsksNone_of_sum : (reqs : List (Spread × ℕ)) → sum (counts reqs) ≡ 0 → All (λ r. r.1 ≡ 0) reqs
AsksNone_of_sum [] e = tt
AsksNone_of_sum ((s, c) ∷ rest) e = (omega arith, AsksNone_of_sum rest (omega arith))

-- A reconciliation that succeeds has read the store.
pub reconcile-eq-ok :
    {x : External} (store : ReadStore x) (s : ComponentSpreadScaler) (status : StatusInfo)
    {commands : List Command}
    → (reconcile store s status).0 ≡ ok commands
    → (component : Option Component) × (hosts : Map (Host x)) × (store.get_component
          s.spread_config.lattice_id s.spread_config.component_id
        ≡ ok component)
      × (store.list_hosts s.spread_config.lattice_id ≡ ok hosts)
      × ((reconcile_with s component hosts).0 ≡ commands)
unfolding reconcile
reconcile-eq-ok store s status e =
    elim (Result-cases
      (store.get_component s.spread_config.lattice_id s.spread_config.component_id)) [
        | inr (m, got) ↦ absurd (ground (arith, got))
        | inl (component, got) ↦ elim (Result-cases (store.list_hosts s.spread_config.lattice_id)) [
          | inr (m, listed) ↦ absurd (ground (arith, got, listed))
          | inl (hosts, listed) ↦ (component, hosts, got, listed, ground (arith, got, listed))
        ]
      ]

-- The copy that `cleanup` reconciles: the same component, and no spread asks for an instance.
cleaner_lem :
    (s c : ComponentSpreadScaler)
    → total_weight s.spread_config.spread_config.spread < usize_mod
    → cleaner s ≡ some c
    → (c.spread_config.component_id ≡ s.spread_config.component_id)
      × (c.spread_config.lattice_id ≡ s.spread_config.lattice_id)
      × All (λ r. r.1 ≡ 0) c.spread_requirements
unfolding cleaner
cleaner_lem s c fits e =
    let config = record (s.spread_config.spread_config) { instances = 0 } in
    elim (Option-cases (compute_spread config)) [
      | inl stuck ↦ absurd (ground (arith, stuck))
      | inr (reqs, made) ↦
          let f : Fits config = record {
            instances = omega arith;
            weight = fits;
            product = omega arith;
          } in
          let z = AsksNone_of_sum reqs (compute_spread_total config reqs f made) in
          let same : reqs ≡ c.spread_requirements = ground (arith, made) in
          (ground (arith, made), ground (arith, made), subst (All (λ r. r.1 ≡ 0)) same z)
    ]

IsStop-agrees :
    (s c : ComponentSpreadScaler) (command : Command)
    → c.spread_config.component_id ≡ s.spread_config.component_id
    → IsStop c command
    → IsStop s command
IsStop-agrees s c (scale_component k) e (h, z) = (h ∙ e, z)
IsStop-agrees s c _ e h = h

-- Whatever the store holds, the commands of a cleanup only scale the component down to nothing.
pub cleanup-IsStop :
    {x : External} (store : ReadStore x) (s : ComponentSpreadScaler) (commands : List Command)
    → total_weight s.spread_config.spread_config.spread < usize_mod
    → ((c : Component)
        → store.get_component s.spread_config.lattice_id s.spread_config.component_id ≡ ok (some c)
        → instance_total c.instances < usize_mod)
    → cleanup store s ≡ some (ok commands)
    → All (IsStop s) commands
unfolding cleanup
cleanup-IsStop store s commands fits small e = elim (Option-cases (cleaner s)) [
  | inl stuck ↦ absurd (ground (arith, stuck))
  | inr (c, made) ↦
      let (id, lattice, none_asked) = cleaner_lem s c fits made in
      let (component, hosts, got, _, same) =
        reconcile-eq-ok store c (record { status_type = reconciling; message = [] })
          {commands = commands} (ground (arith, made)) in
      let read : store.get_component s.spread_config.lattice_id s.spread_config.component_id
          ≡ ok component =
        rw (← id, ← lattice) got in
      rw (← same) (
        All-imp (λ k. IsStop-agrees s c k id) _
          (reconcile_with-IsStop c component hosts (λ k e'. small k (read ∙ ap ok e')) none_asked))
]
