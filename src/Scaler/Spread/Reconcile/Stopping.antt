-- ===== src/Scaler/Spread/Reconcile/Stopping.antt =====
-- Scaling down: the commands leave exactly the instances that were asked for.
use wadm.Prelude.{
  ℕ, ◌+◌, ◌-◌, ◌%◌, ◌^◌, ◌≤◌, ◌<◌, min, String, ◌≡◌, refl, ap, [], ◌∷◌, Map, arith, true, ltb, sum,
  map, All, keys, usize_mod,
}
use wadm.External.{External}
use wadm.Manifest.{Spread}
use wadm.Storage.{Host}
use wadm.Command.{Command, scale_component}
use wadm.Scaler.Spread.Weights.{sum_usize}
use wadm.Scaler.Spread.Weights.Total.{sum_usize_total}
use wadm.Scaler.Spread.Reconcile.{
  ComponentSpreadScaler, sub_usize, values, stop_instances, spread_commands,
}

-- What each command scales to, and where.
abbrev pub target_count : Command → ℕ
target_count (scale_component c) = c.count
target_count _ = 0

abbrev pub target_host : Command → String
target_host (scale_component c) = c.host_id
target_host _ = ""

-- Each host has some instances, and few enough for a `u32`.
abbrev pub IsRunning : Map ℕ → Type 0
IsRunning = All (λ e. (0 < e.1) × (e.1 < 2 ^ 32))

module _ (s : ComponentSpreadScaler) (spread : Spread) where
  sum-stop_instances :
      (to_stop stopped : ℕ) (running : Map ℕ)
      → to_stop < usize_mod
      → stopped ≤ to_stop
      → to_stop ≤ stopped + sum (values running)
      → IsRunning running
      → sum (map target_count (stop_instances s spread to_stop stopped running)) + to_stop
        ≡ sum (values running) + stopped
  unfolding stop_instances
  sum-stop_instances to_stop stopped [] b le enough r = omega arith
  sum-stop_instances to_stop stopped ((h, n) ∷ rest) b le enough ((pos, small), rs) =
      let t : ltb 0 n ≡ true = ground arith in
      let e : sub_usize to_stop stopped ≡ to_stop - stopped = omega arith in
      let w : (stopped + min n (to_stop - stopped)) % usize_mod
          ≡ stopped + min n (to_stop - stopped) =
        omega arith in
      let c : (n - (to_stop - stopped)) % 2 ^ 32 ≡ n - (to_stop - stopped) = omega arith in
      rw (t, e, w, c)
        (omega (
          arith,
          sum-stop_instances to_stop (stopped + min n (to_stop - stopped)) rest b (omega arith)
              (omega arith) rs,
        ))

  stop_instances_hosts :
      (to_stop : ℕ) (running : Map ℕ) (stopped : ℕ)
      → IsRunning running
      → map target_host (stop_instances s spread to_stop stopped running) ≡ keys running
  unfolding stop_instances
  stop_instances_hosts to_stop [] stopped r = refl
  stop_instances_hosts to_stop ((h, n) ∷ rest) stopped ((pos, small), rs) =
      let t : ltb 0 n ≡ true = ground arith in
      rw t (ap (◌∷◌ h) (stop_instances_hosts to_stop rest _ rs))

  pub spread_commands_above :
      {x : External} (eligible : Map (Host x)) (count : ℕ) (running : Map ℕ)
      → count < sum_usize 0 (values running)
      → spread_commands s (spread, count) eligible running
        ≡ stop_instances s spread (sum_usize 0 (values running) - count) 0 running
  unfolding spread_commands
  spread_commands_above eligible count running more = ground arith

  -- Where more instances run than are wanted, each host that runs some gets one command, and the
  -- commands leave as many instances as are wanted.
  pub scale_down_exact :
      {x : External} (eligible : Map (Host x)) (count : ℕ) (running : Map ℕ)
      → IsRunning running
      → sum (values running) < usize_mod
      → count < sum (values running)
      → let commands = spread_commands s (spread, count) eligible running in
        (map target_host commands ≡ keys running) × (sum (map target_count commands) ≡ count)
  scale_down_exact eligible count running r b more =
      let e = sum_usize_total (values running) b in
      rw (spread_commands_above eligible count running (rw e more), e)
        (
          stop_instances_hosts _ running 0 r,
          omega (
            arith,
            sum-stop_instances (sum (values running) - count) 0 running (omega arith) (omega arith)
                (omega arith) r,
          ),
        )
