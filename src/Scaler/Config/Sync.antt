-- ===== src/Scaler/Config/Sync.antt =====
-- What the configuration scaler brings about.
use wadm.Prelude.{
  String, ◌≡◌, ◌↔◌, refl, sym, ap, arith, true, Option, none, some, List, [], ◌∷◌, Map, keys,
  Distinct, Result, ok, err, Bool-cases, inl, inr,
}
use wadm.Api.{deployed}
use wadm.Command.{Command, PutConfig, put_config}
use wadm.Event.Matching.{map_eq}
use wadm.Event.Matching.Equality.{map_eq_refl}
use wadm.Scaler.Config.{ConfigScaler, sync, reconcile}

-- The bucket answers with a configuration: the supplied one, where one is supplied.
abbrev pub IsInSync : Result (Option (Map String)) → Option (Map String) → Type 0
IsInSync (ok (some found)) none = Unit
IsInSync (ok (some found)) (some wanted) = map_eq found wanted ≡ true
IsInSync (ok none) _ = ⊥
IsInSync (err e) _ = ⊥

sync-deployed_iff :
    (answer : Result (Option (Map String))) (config : Option (Map String)) (s : ConfigScaler)
    → let (r, t) = sync answer config s in
      ((t.status.status_type ≡ deployed) ↔ IsInSync answer config)
      × (t.status.status_type ≡ deployed → r ≡ ok [])
unfolding sync
sync-deployed_iff (ok (some found)) none s = ((λ _. tt, λ _. refl), λ _. refl)
sync-deployed_iff (ok none) none s = ((λ e. cc, λ h. absurd h), λ _. refl)
sync-deployed_iff (ok (some found)) (some wanted) s = elim (Bool-cases (map_eq found wanted)) [
  | inl e ↦ rw (e, sync) ((λ _. refl, λ _. refl), λ _. refl)
  | inr e ↦ rw (e, sync) ((λ k. cc, λ k. cc), λ k. cc)
]
sync-deployed_iff (ok none) (some wanted) s = ((λ e. cc, λ h. absurd h), λ e. cc)
sync-deployed_iff (err e) none s = ((λ k. cc, λ h. absurd h), λ k. cc)
sync-deployed_iff (err e) (some wanted) s = ((λ k. cc, λ h. absurd h), λ k. cc)

-- After a reconciliation the scaler is deployed exactly when the bucket holds a configuration of
-- its name, and the supplied one where one is supplied; it then issues no command.
pub reconcile-deployed_iff :
    (get_config : String → Result (Option (Map String))) (s : ConfigScaler)
    → let (r, t) = reconcile get_config s in
      ((t.status.status_type ≡ deployed) ↔ IsInSync (get_config s.config_name) s.config)
      × (t.status.status_type ≡ deployed → r ≡ ok [])
unfolding reconcile
reconcile-deployed_iff get_config s = sync-deployed_iff (get_config s.config_name) s.config s

one_put :
    (a c : PutConfig) (cs : List Command)
    → ◌≡◌ {A = Result (List Command)} (ok (put_config a ∷ [])) (ok (put_config c ∷ cs))
    → (a ≡ c) × (cs ≡ [])
one_put a c cs e = (cc, cc)

sync_put :
    (answer : Result (Option (Map String))) (config : Option (Map String)) (s : ConfigScaler)
    (c : PutConfig) (cs : List Command)
    → (sync answer config s).0 ≡ ok (put_config c ∷ cs)
    → (config ≡ some c.config) × (c.config_name ≡ s.config_name)
unfolding sync
sync_put (ok (some found)) none s c cs e = cc
sync_put (ok none) none s c cs e = cc
sync_put (ok (some found)) (some wanted) s c cs e = elim (Bool-cases (map_eq found wanted)) [
  | inl m ↦ absurd (ground (arith, e, m))
  | inr m ↦
      let (same, _) =
        one_put (record { config_name = s.config_name; config = wanted }) c cs (rw m at e) in
      (ap (λ k. some k.config) same, sym (ap (λ k. k.config_name) same))
]
sync_put (ok none) (some wanted) s c cs e =
    let (same, _) = one_put (record { config_name = s.config_name; config = wanted }) c cs e in
    (ap (λ k. some k.config) same, sym (ap (λ k. k.config_name) same))
sync_put (err m) none s c cs e = cc
sync_put (err m) (some wanted) s c cs e = cc

sync_keeps :
    (answer : Result (Option (Map String))) (config : Option (Map String)) (s : ConfigScaler)
    → let (r, t) = sync answer config s in (t.config ≡ s.config) × (t.config_name ≡ s.config_name)
unfolding sync
sync_keeps (ok (some found)) none s = (refl, refl)
sync_keeps (ok none) none s = (refl, refl)
sync_keeps (ok (some found)) (some wanted) s = elim (Bool-cases (map_eq found wanted)) [
  | inl m ↦ rw (m, sync) (refl, refl)
  | inr m ↦ rw (m, sync) (refl, refl)
]
sync_keeps (ok none) (some wanted) s = (refl, refl)
sync_keeps (err m) none s = (refl, refl)
sync_keeps (err m) (some wanted) s = (refl, refl)

-- Once the bucket holds what a reconciliation has asked to put, a configuration with distinct
-- keys, the next reconciliation finds the scaler deployed and issues no command.
pub reconcile_converges :
    (get_before get_after : String → Result (Option (Map String))) (s : ConfigScaler)
    (c : PutConfig) (cs : List Command)
    → Distinct (keys c.config)
    → (reconcile get_before s).0 ≡ ok (put_config c ∷ cs)
    → get_after c.config_name ≡ ok (some c.config)
    → let (r, t) = reconcile get_after (reconcile get_before s).1 in
      (t.status.status_type ≡ deployed) × (r ≡ ok [])
unfolding reconcile
reconcile_converges get_before get_after s c cs d e h =
    let (wanted, name) = sync_put (get_before s.config_name) s.config s c cs e in
    let (same, same_name) = sync_keeps (get_before s.config_name) s.config s in
    let u = (sync (get_before s.config_name) s.config s).1 in
    let (iff, quiet) = reconcile-deployed_iff get_after u in
    let now = iff.1 (rw (same, same_name, wanted, ← name, h) (map_eq_refl c.config d)) in
    (now, quiet now)
