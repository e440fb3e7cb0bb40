-- ===== src/Scaler/Daemon/Running.antt =====
-- What a daemon scaler reads off the state of the lattice: the hosts that a spread allows, the hosts
-- that run the component without being allowed, and the instances on a host.
use wadm.Prelude.{
  ℕ, ◌+◌, ◌%◌, ◌<◌, usize_mod, String, Bool, true, not, ◌&&◌, ◌≡◌, ◌↔◌, refl, ◌∙◌, arith, Option,
  none, some, List, [], ◌∷◌, Map, lookup, keys, Distinct, All, any, filter, map, sum, eq_iff,
  eq_refl, all_iff, any-eq-false_iff, Option-cases, Bool-cases, inl, inr,
}
use wadm.External.{External}
use wadm.Manifest.{Spread}
use wadm.Storage.{Host, Component, WadmComponentInfo}
use wadm.Command.{scaler_key}
use wadm.Event.Matching.{is_value}
use wadm.Scaler.Spread.Weights.{sum_usize}
use wadm.Scaler.Spread.Hosts.{
  spread_key, has_value, satisfies, spreadscaler_annotations, compute_ineligible_hosts,
}
use wadm.Scaler.Spread.Hosts.Eligible.{compute_ineligible_hosts_lem}
use wadm.Scaler.Spread.Reconcile.{ComponentSpreadScaler, remove_ineligible, managed_count}
use wadm.Scaler.Daemon.{ComponentDaemonScaler, current_count}

-- The labels of the host have each required value.
abbrev pub Allows : {x : External} → Host x → Spread → Type 0
Allows host spread = All (λ r. lookup r.0 host.labels ≡ some r.1) spread.requirements

has_value_iff :
    (m : Map String) (r : String × String) → (has_value m r ≡ true) ↔ (lookup r.0 m ≡ some r.1)
has_value_iff m r = elim (Option-cases (lookup r.0 m)) [
  | inl e ↦ rw e (λ h. cc, λ h. cc)
  | inr (v, e) ↦ rw e (ground (arith, eq_iff v r.1, eq_refl r.1))
]

pub satisfies-Allows_iff :
    {x : External} (host : Host x) (spread : Spread)
    → (satisfies host.labels spread.requirements ≡ true) ↔ Allows host spread
unfolding satisfies
satisfies-Allows_iff host spread =
    all_iff (has_value host.labels) (has_value_iff host.labels) spread.requirements

-- The instances are annotated with the scaler and the spread.
abbrev belongs : String → Spread → WadmComponentInfo → Bool
belongs id spread info =
    is_value (lookup scaler_key info.annotations) id
    && is_value (lookup spread_key info.annotations) spread.name

-- How many instances of the component on the host are annotated with the scaler and the spread.
abbrev pub running : String → Spread → Option Component → String → ℕ
running id spread none host_id = 0
running id spread (some c) host_id = elim (lookup host_id c.instances) [
  | none ↦ 0
  | some infos ↦ sum (map (λ info. info.count) (filter (belongs id spread) infos))
]

managed_count-filter :
    (id : String) (spread : Spread) (infos : List WadmComponentInfo)
    → managed_count (spreadscaler_annotations spread.name id) infos
      ≡ map (λ info. info.count) (filter (belongs id spread) infos)
unfolding managed_count
managed_count-filter id spread [] = refl
managed_count-filter id spread (info ∷ rest) = ground (arith, managed_count-filter id spread rest)

sum_usize_wraps :
    (acc : ℕ) (counts : List ℕ)
    → acc < usize_mod
    → sum_usize acc counts ≡ (acc + sum counts) % usize_mod
unfolding sum_usize
sum_usize_wraps acc [] h = omega arith
sum_usize_wraps acc (n ∷ rest) h =
    let later = sum_usize_wraps ((acc + n) % usize_mod) rest (omega arith) in later ∙ omega arith

sum_usize-total : (counts : List ℕ) → sum_usize 0 counts ≡ sum counts % usize_mod
sum_usize-total counts = omega (arith, sum_usize_wraps 0 counts (omega arith))

-- The count that the scaler computes is that of the instances that run, up to the wrap-around.
pub current_count-running :
    (s : ComponentDaemonScaler) (spread : Spread) (component : Option Component) (host_id : String)
    → current_count s spread component host_id ≡ running s.id spread component host_id % usize_mod
unfolding current_count
current_count-running s spread none host_id = omega arith
current_count-running s spread (some c) host_id = elim (Option-cases (lookup host_id c.instances)) [
  | inl e ↦ rw (e, current_count, running) (omega arith)
  | inr (infos, e) ↦
      rw (e, current_count, running, managed_count-filter s.id spread infos) (sum_usize-total _)
]

-- A host that no spread allows does not run the component.
abbrev pub IsClear : {x : External} → String → List Spread → Map (Host x) → Type 0
IsClear component_id spreads hosts =
    All (λ e. All (λ p. Allows e.1 p → ⊥) spreads → lookup component_id e.1.components ≡ none) hosts

module _ {x : External} (s : ComponentSpreadScaler) (spreads : List Spread) where
  remove_ineligible-filter :
      (hosts : Map (Host x))
      → (remove_ineligible s
            (filter (λ e. not (any (λ p. satisfies e.1.labels p.requirements) spreads)) hosts)
          ≡ [])
        ↔ IsClear s.spread_config.component_id spreads hosts
  unfolding remove_ineligible
  remove_ineligible-filter [] = (λ _. tt, λ _. refl)
  remove_ineligible-filter (e ∷ es) =
      let component_id = s.spread_config.component_id in
      let (to, from) = remove_ineligible-filter es in
      let (out, back) =
        any-eq-false_iff (λ p. satisfies e.1.labels p.requirements) (satisfies-Allows_iff e.1)
          spreads in
      elim (Bool-cases (any (λ p. satisfies e.1.labels p.requirements) spreads)) [
        | inl f ↦
            rw f (λ h. ((λ no. absurd (ground (arith, f, back no))), to h), λ (h, hs). from hs)
        | inr f ↦ elim (Option-cases (lookup component_id e.1.components)) [
          | inl g ↦ rw (f, remove_ineligible, g) (λ h. ((λ _. refl), to h), λ (h, hs). from hs)
          | inr (n, g) ↦
              rw (f, remove_ineligible, g) (λ h. cc, λ (h, hs). absurd (ground (arith, h (out f))))
        ]
      ]

  pub remove_ineligible-IsClear_iff :
      (hosts : Map (Host x))
      → Distinct (keys hosts)
      → (remove_ineligible s (compute_ineligible_hosts hosts spreads) ≡ [])
        ↔ IsClear s.spread_config.component_id spreads hosts
  remove_ineligible-IsClear_iff hosts d =
      rw (compute_ineligible_hosts_lem hosts d spreads) (remove_ineligible-filter hosts)
