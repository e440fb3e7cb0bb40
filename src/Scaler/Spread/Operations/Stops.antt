-- ===== src/Scaler/Spread/Operations/Stops.antt =====
-- Where no spread asks for an instance, the commands only take instances away.
use wadm.Prelude.{
  ℕ, ◌+◌, ◌-◌, ◌%◌, ◌≤◌, ◌<◌, min, String, ◌≡◌, refl, Bool-cases, inl, inr, Option, none, some,
  List, [], ◌∷◌, Map, arith, ltb, sum, All, All-append, Message, usize_mod, contains_key,
}
use wadm.External.{External}
use wadm.Manifest.{Spread}
use wadm.Storage.{Host, Component, WadmComponentInfo}
use wadm.Command.{Command, scale_component}
use wadm.Scaler.Spread.Weights.{sum_usize}
use wadm.Scaler.Spread.Weights.Total.{sum_usize_total}
use wadm.Scaler.Spread.Hosts.{eligible_hosts}
use wadm.Scaler.Spread.Reconcile.{
  ComponentSpreadScaler, values, remove_ineligible, stop_instances, spread_commands, Pass,
  add_spread, spread_step, running_components_per_host, running_per_host, managed_count, sub_usize,
  spread_pass, conclude, reconcile_with,
}
use wadm.Scaler.Spread.Reconcile.Stopping.{spread_commands_above}

-- The command scales the scaler's component down to nothing on one host.
abbrev pub IsStop : ComponentSpreadScaler → Command → Type 0
IsStop s (scale_component c) = (c.component_id ≡ s.spread_config.component_id) × (c.count ≡ 0)
IsStop s _ = ⊥

abbrev pub info_total : List WadmComponentInfo → ℕ
info_total [] = 0
info_total (i ∷ is) = i.count + info_total is

abbrev pub instance_total : Map (List WadmComponentInfo) → ℕ
instance_total [] = 0
instance_total ((_, is) ∷ rest) = info_total is + instance_total rest

sum_usize-le : (acc : ℕ) (xs : List ℕ) → sum_usize acc xs ≤ acc + sum xs
unfolding sum_usize
sum_usize-le acc [] = omega arith
sum_usize-le acc (x ∷ xs) = omega (arith, sum_usize-le ((acc + x) % usize_mod) xs)

managed_count-le :
    (wanted : Map String) (is : List WadmComponentInfo)
    → sum (managed_count wanted is) ≤ info_total is
unfolding managed_count
managed_count-le wanted [] = omega arith
managed_count-le wanted (i ∷ is) = ground (arith, managed_count-le wanted is)

running_per_host-le :
    (wanted : Map String) (m : Map (List WadmComponentInfo))
    → sum (values (running_per_host wanted m)) ≤ instance_total m
unfolding running_per_host
running_per_host-le wanted [] = omega arith
running_per_host-le wanted ((h, is) ∷ rest) = ground (
  arith,
  sum_usize-le 0 (managed_count wanted is),
  managed_count-le wanted is,
  running_per_host-le wanted rest,
)

module _ (s : ComponentSpreadScaler) where
  stop_instances-IsStop :
      (spread : Spread) (to_stop stopped : ℕ) (running : Map ℕ)
      → to_stop < usize_mod
      → stopped + sum (values running) ≡ to_stop
      → All (IsStop s) (stop_instances s spread to_stop stopped running)
  unfolding stop_instances
  stop_instances-IsStop spread to_stop stopped [] b e = tt
  stop_instances-IsStop spread to_stop stopped ((h, n) ∷ rest) b e = elim (Bool-cases (ltb 0 n)) [
    | inl t ↦
        let r : sub_usize to_stop stopped ≡ to_stop - stopped = omega arith in
        let w : (stopped + min n (to_stop - stopped)) % usize_mod ≡ stopped + n = omega arith in
        rw (t, r, w)
          (
            (refl, omega arith),
            stop_instances-IsStop spread to_stop (stopped + n) rest b (omega arith),
          )
    | inr f ↦
        let z : n ≡ 0 = ground arith in
        rw f (stop_instances-IsStop spread to_stop stopped rest b (omega arith))
  ]

  spread_commands_equal :
      {x : External} (spread : Spread) (count : ℕ) (eligible : Map (Host x)) (running : Map ℕ)
      → sum_usize 0 (values running) ≡ count
      → spread_commands s (spread, count) eligible running ≡ []
  unfolding spread_commands
  spread_commands_equal spread count eligible running e = ground arith

  spread_commands-IsStop :
      {x : External} (spread : Spread) (eligible : Map (Host x)) (running : Map ℕ)
      → sum (values running) < usize_mod
      → All (IsStop s) (spread_commands s (spread, 0) eligible running)
  spread_commands-IsStop spread eligible running b =
      let e = sum_usize_total (values running) b in
      elim (Bool-cases (ltb 0 (sum (values running)))) [
        | inl more ↦
            let above : 0 < sum_usize 0 (values running) = ground (arith, e) in
            rw (spread_commands_above s spread eligible 0 running above, e)
              (stop_instances-IsStop spread (sum (values running) - 0) 0 running (omega arith)
                (omega arith))
        | inr same ↦ rw (spread_commands_equal spread 0 eligible running (ground (arith, e))) tt
      ]

  -- No spread is to have an instance.
  abbrev AsksNone : List (Spread × ℕ) → Type 0
  AsksNone = All (λ r. r.1 ≡ 0)

  module _ {x : External} (hosts : Map (Host x)) where
    add_spread-IsStop :
        (r : Spread × ℕ) (eligible : Map (Host x)) (running : Map ℕ) (p : Pass)
        → r.1 ≡ 0
        → sum (values running) < usize_mod
        → All (IsStop s) p.commands
        → All (IsStop s) (add_spread s r eligible running p).commands
    unfolding add_spread
    add_spread-IsStop (spread, count) [] running p z b h = h
    add_spread-IsStop (spread, count) (e ∷ es) running p z b h =
        rw z
          (All-append (IsStop s) p.commands _ h (spread_commands-IsStop spread (e ∷ es) running b))

    running-le :
        (spread : Spread) (component : Option Component)
        → ((c : Component) → component ≡ some c → instance_total c.instances < usize_mod)
        → sum (values (running_components_per_host s spread component)) < usize_mod
    running-le spread none h = omega arith
    running-le spread (some c) h = omega (arith, running_per_host-le _ c.instances, h c refl)

    spread_pass-IsStop :
        (component : Option Component) (reqs : List (Spread × ℕ)) (p : Pass)
        → ((c : Component) → component ≡ some c → instance_total c.instances < usize_mod)
        → AsksNone reqs
        → All (IsStop s) p.commands
        → All (IsStop s) (spread_pass s hosts component reqs p).commands
    unfolding spread_pass spread_step
    spread_pass-IsStop component [] p small z h = h
    spread_pass-IsStop component ((spread, count) ∷ rest) p small (z, zs) h =
        spread_pass-IsStop component rest (spread_step s hosts component (spread, count) p) small zs
          (add_spread-IsStop (spread, count) (eligible_hosts hosts spread) _ p z
            (running-le spread component small) h)

    remove_ineligible-IsStop : (m : Map (Host x)) → All (IsStop s) (remove_ineligible s m)
    unfolding remove_ineligible
    remove_ineligible-IsStop [] = tt
    remove_ineligible-IsStop ((h, host) ∷ rest) =
        elim (Bool-cases (contains_key s.spread_config.component_id host.components)) [
          | inl e ↦ rw e ((refl, refl), remove_ineligible-IsStop rest)
          | inr e ↦ rw e (remove_ineligible-IsStop rest)
        ]

  conclude-IsStop :
      (rs : List Command) (c : Option Message) (p : Pass)
      → All (IsStop s) rs
      → All (IsStop s) p.commands
      → All (IsStop s) (conclude rs c p).0
  unfolding conclude
  conclude-IsStop (r ∷ rs) c p h k = h
  conclude-IsStop [] (some m) p h k = tt
  conclude-IsStop [] none p h k = k

  pub reconcile_with-IsStop :
      {x : External} (component : Option Component) (hosts : Map (Host x))
      → ((c : Component) → component ≡ some c → instance_total c.instances < usize_mod)
      → AsksNone s.spread_requirements
      → All (IsStop s) (reconcile_with s component hosts).0
  unfolding reconcile_with
  reconcile_with-IsStop component hosts small z =
      conclude-IsStop _ _ _ (remove_ineligible-IsStop hosts _)
        (spread_pass-IsStop hosts component s.spread_requirements _ small z tt)
