-- ===== src/Api/Status.antt =====
-- The aggregate of statuses: the worst of them.
use Prim.Native.Nat.{max}
use wadm.Prelude.{ℕ, ◌≤◌, ◌≡◌, ◌≢◌, ◌↔◌, refl, List, [], ◌∷◌, arith, All}
use wadm.Api.{
  StatusType, waiting, undeployed, reconciling, deployed, failed, unhealthy, add, fold_status,
  sum_status,
}

-- How bad a status is.
abbrev pub severity : StatusType → ℕ
severity deployed = 0
severity unhealthy = 1
severity reconciling = 2
severity waiting = 3
severity undeployed = 4
severity failed = 5

abbrev pub worst : List StatusType → ℕ
worst [] = 0
worst (s ∷ ss) = max (severity s) (worst ss)

severity-add : (a b : StatusType) → severity (add a b) ≡ max (severity a) (severity b)
unfolding add
severity-add a b = ground arith

severity-fold_status :
    (a : StatusType) (ss : List StatusType)
    → severity (fold_status a ss) ≡ max (severity a) (worst ss)
unfolding fold_status
severity-fold_status a [] = omega arith
severity-fold_status a (s ∷ ss) = omega (arith, severity-fold_status (add a s) ss, severity-add a s)

-- The aggregate of one status or more is as bad as the worst of them.
pub severity-sum_status :
    (s : StatusType) (ss : List StatusType) → severity (sum_status (s ∷ ss)) ≡ worst (s ∷ ss)
unfolding sum_status
severity-sum_status s ss = severity-fold_status s ss

deployed_of_severity : (s : StatusType) → severity s ≤ 0 → s ≡ deployed
deployed_of_severity s h = ground arith

worst-eq-zero_iff : (ss : List StatusType) → (worst ss ≡ 0) ↔ All (λ s. s ≡ deployed) ss
worst-eq-zero_iff [] = (λ _. tt, λ _. refl)
worst-eq-zero_iff (s ∷ ss) =
    let (to, from) = worst-eq-zero_iff ss in
    (
      λ e. (deployed_of_severity s (omega arith), to (omega arith)),
      λ h. let z : severity s ≡ 0 = ground arith in omega (arith, from h.1),
    )

-- An application counts as deployed exactly when it has scalers and every one is deployed.
pub sum_status-eq-deployed_iff :
    (ss : List StatusType) → (sum_status ss ≡ deployed) ↔ ((ss ≢ []) × All (λ s. s ≡ deployed) ss)
unfolding sum_status
sum_status-eq-deployed_iff [] = (λ e. cc, λ h. absurd (h.0 refl))
sum_status-eq-deployed_iff (s ∷ ss) = (
  λ e. (λ n. cc, (worst-eq-zero_iff (s ∷ ss)).0 (ground (arith, severity-sum_status s ss))),
  λ h.
      deployed_of_severity _
        (omega (arith, severity-sum_status s ss, (worst-eq-zero_iff (s ∷ ss)).1 h.1)),
)
