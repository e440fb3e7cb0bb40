-- ===== src/Worker/Scalers.antt =====
-- How the worker runs the scalers: `run_scalers_with_hint`, `run_all_scalers`,
-- `handle_manifest_published` and `do_work` of crates/wadm/src/workers/event.rs. The applications are
-- handled one after the other, in one order of the map.
pub mod Published
pub mod Unchanged
pub mod Acknowledged
use wadm.Prelude.{
  ℕ, String, Bool, true, false, not, Option, none, some, List, [], ◌∷◌, ◌++◌, map, filter,
  filter_map, any, Map, lookup, insert, Result, ok, err, join, is_empty, Message, ◌==◌,
  if◌then◌else◌,
}
use wadm.Prelude.Texts.{trim_message}
use wadm.Prelude.Actions.{Action, pure, ◌>>=◌, ◌>>◌}
use wadm.External.{External}
use wadm.Api.{StatusInfo, sum_status}
use wadm.Command.{Command}
use wadm.Event.{Event, manifest_published, manifest_unpublished}
use wadm.Manifest.{Manifest}
use wadm.Scaler.{Scaler}
use wadm.Scaler.Backoff.{get_commands_and_result}
use wadm.Scaler.Manager.{
  ScalerStatus, Status, Surroundings, Manager, with_outside, remove_raw_scalers, get_scalers,
  add_scalers, remove_scalers,
}
use wadm.Storage.Store.{Store}
use wadm.Worker.Heartbeat.{Claims}
use wadm.Worker.State.{update_state}

-- The last error is the outermost context.
unfoldable pub outermost : String → List String → String
outermost message [] = message
outermost message (e ∷ es) = outermost e es

unfoldable pub map_to_result : List String → String → Result (Unit {0})
map_to_result errors message = if is_empty errors then ok tt else err (outermost message errors)

-- How the errors of two applications are combined: the later one is the outer context.
unfoldable pub combine_results : Result (Unit {0}) → Result (Unit {0}) → Result (Unit {0})
combine_results (ok _) r = r
combine_results (err e) (ok _) = err e
combine_results (err e) (err f) = err f

-- The messages that are not blank, trimmed.
unfoldable pub status_messages : List ScalerStatus → List Message
status_messages statuses =
    filter (λ m. not (is_empty m)) (map (λ s. trim_message s.info.message) statuses)

module _ {x : External} {S : Type 0} where
  unfoldable pub scaler_statuses : Scaler x S → List S → List ScalerStatus × List S
  scaler_statuses methods [] = ([], [])
  scaler_statuses methods (s ∷ ss) =
      let (rest, states) = scaler_statuses methods ss in
      let (info, t) = methods.status s in
      (
        record { id = methods.id s; kind = methods.kind s; name = methods.name s; info = info }
            ∷ rest,
        t ∷ states,
      )

  unfoldable pub detailed_scaler_status : Scaler x S → List S → Status × List S
  detailed_scaler_status methods ss =
      let (statuses, states) = scaler_statuses methods ss in
      (
        record {
          info = record {
            status_type = sum_status (map (λ s. s.info.status_type) statuses);
            message = join ", " (status_messages statuses);
          };
          scalers = statuses;
        },
        states,
      )

  -- The old scalers whose identifier no new one has.
  unfoldable pub outdated : Scaler x S → List S → List S → List S
  outdated methods new old = filter (λ o. not (any (λ n. methods.id n == methods.id o) new)) old

  -- An error of a cleanup is only logged.
  unfoldable pub cleanup_commands : Scaler x S → List S → Option (List S) → List Command
  cleanup_commands methods new none = []
  cleanup_commands methods new (some old) =
      (get_commands_and_result methods.cleanup (outdated methods new old)).0

-- What is sent back for the message of an event, with the error. Whether it gets there is not
-- modelled.
pub data Settled : Type 0 where
  acked : Settled
  nacked : String → Settled

abbrev pub settle : Result (Unit {0}) → Settled
settle (ok _) = acked
settle (err e) = nacked e

unfoldable pub published : {x : External} → Event x → Option (Manifest x.Value)
published (manifest_published manifest) = some manifest
published e = none

unfoldable pub unpublished : {x : External} → Event x → Option String
unpublished (manifest_unpublished name) = some name
unpublished e = none

module _ {x : External} {S w : Type 0} (env : Surroundings x S w) where
  -- The scalers of one application take a step; their status is published, and an error of that is
  -- only logged.
  unfoldable pub step_scalers :
      (S → Result (List Command) × S)
      → String
      → List S
      → Manager S w
      → List Command × List String × Manager S w
  step_scalers f name ss m =
      let (commands, errors, stepped) = get_commands_and_result f ss in
      let (status, states) = detailed_scaler_status (env.scaler m.outside) stepped in
      let o = (env.publish_status name status m.outside).1 in
      (commands, errors, record { scalers = insert name states m.scalers; outside = o })

  abbrev pub publish : List Command → Action (Manager S w) (Unit {0})
  publish commands m = let (r, o) = env.publish_commands commands m.outside in (r, with_outside o m)

  abbrev pub refresh_data : Action (Manager S w) (Unit {0})
  refresh_data m = let (r, o) = env.refresh m.outside in (r, with_outside o m)

  abbrev pub react_to : Event x → Manager S w → S → Result (List Command) × S
  react_to event m s = (env.scaler m.outside).handle_event event s

  unfoldable pub run_hinted : Event x → String → List S → Action (Manager S w) (Unit {0})
  run_hinted event name ss m =
      let (commands, errors, n) = step_scalers (react_to event m) name ss m in
      (publish commands >> λ t. (map_to_result errors "Errors occurred while handling event", t)) n

  unfoldable pub run_scalers_with_hint : Event x → String → Action (Manager S w) (Unit {0})
  run_scalers_with_hint event name m = elim (get_scalers name m) [
    | none ↦ (ok tt, m)
    | some ss ↦ (refresh_data >> run_hinted event name ss) m
  ]

  -- The applications that are left to run, with the commands and the result so far.
  unfoldable pub step_all :
      Event x → Map (List S) → Manager S w → List Command × Result (Unit {0}) × Manager S w
  step_all event [] m = ([], ok tt, m)
  step_all event ((name, ss) ∷ rest) m =
      let (commands, errors, n) = step_scalers (react_to event m) name ss m in
      let (more, result, last) = step_all event rest n in
      (
        commands ++ more,
        combine_results
            (map_to_result errors "Errors occurred while handling event with all scalers") result,
        last,
      )

  unfoldable pub run_all : Event x → Action (Manager S w) (Unit {0})
  run_all event m =
      let (commands, result, n) = step_all event m.scalers m in
      (publish commands >> λ t. (result, t)) n

  unfoldable pub run_all_scalers : Event x → Action (Manager S w) (Unit {0})
  run_all_scalers event = refresh_data >> run_all event

  -- The first pass of the new scalers, before the cleanup of the old ones is published.
  unfoldable pub reconcile_added : String → List Command → List S → Action (Manager S w) (Unit {0})
  reconcile_added name cleanup ss m =
      let (commands, errors, n) = step_scalers (env.scaler m.outside).reconcile name ss m in
      (publish commands >> λ t.
      (map_to_result errors "Errors occurred during initial reconciliation", (publish cleanup t).1))
        n

  unfoldable pub replace_scalers :
      Manifest x.Value → Option (List S) → Action (Manager S w) (Unit {0})
  replace_scalers manifest old m =
      let new = env.scalers_for_manifest manifest in
      let cleanup = cleanup_commands (env.scaler m.outside) new old in
      (add_scalers env manifest new >>= reconcile_added manifest.metadata.name cleanup) m

  unfoldable pub handle_manifest_published : Manifest x.Value → Action (Manager S w) (Unit {0})
  handle_manifest_published manifest m =
      let (old, n) = remove_raw_scalers manifest.metadata.name m in
      (refresh_data >> replace_scalers manifest old) n

  unfoldable pub run_scalers : Event x → Option String → Action (Manager S w) (Unit {0})
  run_scalers e none = run_all_scalers e
  run_scalers e (some name) = run_scalers_with_hint e name

  module _ (db : Store x w) (get_claims : w → Result (Map Claims)) where
    -- The state is brought up to date; the result is a hint which scalers are to run.
    unfoldable pub handle_event : ℕ → Event x → Action (Manager S w) (Option String)
    handle_event now e m = elim (published e) [
      | some manifest ↦ (handle_manifest_published manifest >> pure none) m
      | none ↦ let (r, o) = update_state db get_claims now e m.outside in (r, with_outside o m)
    ]

    -- A manifest that is withdrawn is settled without a run of the scalers.
    unfoldable pub do_work : ℕ → Event x → Manager S w → Settled × Manager S w
    do_work now e m = elim (unpublished e) [
      | some name ↦
          let (r, n) = remove_scalers env name m in
          let (all, last) = run_all_scalers e n in
          elim r [
            | some (ok _) ↦ (acked, n)
            | some (err f) ↦ (nacked f, n)
            | none ↦ (settle all, last)
          ]
      | none ↦ let (r, n) = (handle_event now e >>= run_scalers e) m in (settle r, n)
    ]
