-- ===== src/Examples/Managing.antt =====
-- A manager with one application, in the memory of the other examples.
use wadm.Prelude.{
  ℕ, zero, suc, String, ◌≡◌, refl, ◌==◌, Bool, true, false, Option, none, some, List, [], ◌∷◌, Map,
  Result, ok, err, literal, arith,
}
use wadm.Prelude.Actions.{◌>>=◌}
use wadm.Api.{reconciling}
use wadm.Command.{Command, delete_config}
use wadm.Event.{HostStarted, host_started}
use wadm.Scaler.{Scaler}
use wadm.Scaler.Backoff.{get_commands_and_result}
use wadm.Scaler.Manager.{
  Surroundings, Manager, cleanup_all, cleanup_removed, cleanup_refreshed, publish_cleaned,
  publish_cleanup, remove_scalers, remove_scalers_internal, notify_removed, removed_internal,
  add_scalers,
}
use wadm.Scaler.Manager.Ways.{SameOthers}
use wadm.Scaler.Manager.Removal.{
  IsFailed, IsDone, remove_scalers-IsFailed, remove_scalers-IsDone, remove_scalers-forgotten,
}
use wadm.Storage.Sets.{map_from_iter}
use wadm.Storage.Kv.{
  update_with_retries, internal_list, attempt, write_once, store_items, store_many, entry_data,
  operation_data,
}
use wadm.Worker.Hosts.{handle_host_started}
use wadm.Worker.Heartbeat.{Claims}
use wadm.Worker.State.{update_state}
use wadm.Worker.Consistency.{IsConsistent}
use wadm.Worker.Scalers.{
  outermost, map_to_result, combine_results, scaler_statuses, detailed_scaler_status, acked,
  published, unpublished, step_scalers, step_all, run_all, run_all_scalers, outdated,
  cleanup_commands, reconcile_added, replace_scalers, handle_manifest_published, handle_event,
  run_scalers, do_work,
}
use wadm.Worker.Scalers.Published.{IsPublished, handle_manifest_published-IsPublished}
use wadm.Worker.Scalers.Unchanged.{LeavesState}
use wadm.Worker.Scalers.Acknowledged.{do_work-IsConsistent}
use wadm.Examples.{texts}
use wadm.Examples.Validating.{linked}
use wadm.Examples.Memory.{Memory, db, view, db-IsStore}

-- A scaler whose state is what it asks for; it cleans up a configuration.
abbrev asking : Scaler texts (List Command)
asking = record {
  id = λ _. "asking";
  name = λ _. "asking";
  kind = λ _. "Scaler";
  status = λ s. (record { status_type = reconciling; message = literal " waiting " }, s);
  update_config = λ _ s. (ok [], s);
  handle_event = λ _ s. (ok s, s);
  reconcile = λ s. (ok s, s);
  cleanup = λ s. (ok (delete_config "app" ∷ []), s);
}

-- With the answers of the refresh and of the publisher.
abbrev around : Result (Unit {0}) → Result (Unit {0}) → Surroundings texts (List Command) Memory
around refresh publish = record {
  scaler = λ _. asking;
  scalers_for_manifest = λ _. [] ∷ [];
  refresh = λ o. (refresh, o);
  publish_commands = λ _ o. (publish, o);
  publish_status = λ _ _ o. (ok tt, o);
  notify = λ _ o. (ok tt, o);
}

around-LeavesState : (r p : Result (Unit {0})) → LeavesState (around r p) view
around-LeavesState r p = record {
  refresh = λ o. refl;
  publish_commands = λ cs o. refl;
  publish_status = λ name s o. refl;
  notify = λ n o. refl;
}

abbrev one_app : Manager (List Command) Memory
one_app = record { scalers = ("app", [] ∷ []) ∷ []; outside = [] }

empty-IsConsistent : IsConsistent (view [])
unfolding wadm.Prelude.lookup
empty-IsConsistent = record {
  keyed = λ key h e. cc;
  running = λ key h id e c. cc;
  hosted = λ key h id e c. cc;
}

abbrev no_claims : Memory → Result (Map Claims)
no_claims s = ok []

abbrev host_event : HostStarted
host_event = record { labels = []; friendly_name = "one"; id = "h1" }

abbrev works : Surroundings texts (List Command) Memory
works = around (ok tt) (ok tt)

abbrev after_start : Manager (List Command) Memory
after_start = (do_work works db no_claims 5 (host_started host_event) one_app).1

start_acked : do_work works db no_claims 5 (host_started host_event) one_app ≡ (acked, after_start)
unfolding do_work published unpublished handle_event run_scalers run_all_scalers run_all step_all
    step_scalers get_commands_and_result detailed_scaler_status scaler_statuses map_to_result
    combine_results outermost update_state handle_host_started update_with_retries internal_list
    attempt write_once store_items store_many entry_data operation_data map_from_iter ◌>>=◌
    wadm.Prelude.lookup wadm.Prelude.insert
start_acked = refl

do_work-IsConsistent_example : IsConsistent (view after_start.outside)
do_work-IsConsistent_example =
    do_work-IsConsistent works view (around-LeavesState (ok tt) (ok tt)) db db-IsStore no_claims 5
      (host_started host_event) one_app after_start empty-IsConsistent start_acked

abbrev after_failure : Manager (List Command) Memory
after_failure = (remove_scalers (around (ok tt) (err "down")) "app" one_app).1

removal_failed :
    remove_scalers (around (ok tt) (err "down")) "app" one_app ≡ (some (err "down"), after_failure)
unfolding remove_scalers remove_scalers_internal cleanup_removed cleanup_refreshed publish_cleaned
    publish_cleanup cleanup_all removed_internal notify_removed wadm.Prelude.lookup
    wadm.Prelude.insert wadm.Prelude.remove
removal_failed = refl

remove_scalers-IsFailed_example :
    SameOthers "app" one_app after_failure
    × IsFailed (around (ok tt) (err "down")) "app" one_app "down" after_failure
remove_scalers-IsFailed_example =
    remove_scalers-IsFailed (around (ok tt) (err "down")) "app" one_app after_failure "down"
      removal_failed

abbrev after_removal : Manager (List Command) Memory
after_removal = (remove_scalers works "app" one_app).1

removal_done : remove_scalers works "app" one_app ≡ (some (ok tt), after_removal)
unfolding remove_scalers remove_scalers_internal cleanup_removed cleanup_refreshed publish_cleaned
    publish_cleanup cleanup_all removed_internal notify_removed wadm.Prelude.lookup
    wadm.Prelude.insert wadm.Prelude.remove
removal_done = refl

remove_scalers-IsDone_example : IsDone works "app" one_app after_removal
remove_scalers-IsDone_example = remove_scalers-IsDone works "app" one_app after_removal removal_done

abbrev stale : Surroundings texts (List Command) Memory
stale = around (err "no links") (ok tt)

app_found : wadm.Prelude.lookup "app" one_app.scalers ≡ some ([] ∷ [])
unfolding wadm.Prelude.lookup
app_found = refl

remove_scalers-forgotten_example :
    ((remove_scalers stale "app" one_app).0 ≡ some (err "no links"))
    × ((remove_scalers stale "app" (remove_scalers stale "app" one_app).1).0 ≡ some (ok tt))
    × ((remove_scalers stale "app" (remove_scalers stale "app" one_app).1).1.outside ≡ [])
remove_scalers-forgotten_example =
    remove_scalers-forgotten stale "app" one_app ([] ∷ []) "no links" app_found refl refl

abbrev after_publication : Manager (List Command) Memory
after_publication = (handle_manifest_published works linked one_app).1

linked_published : handle_manifest_published works linked one_app ≡ (ok tt, after_publication)
unfolding handle_manifest_published replace_scalers reconcile_added add_scalers cleanup_commands
    outdated step_scalers get_commands_and_result detailed_scaler_status scaler_statuses
    map_to_result ◌>>=◌ wadm.Prelude.lookup wadm.Prelude.insert wadm.Prelude.remove
linked_published = refl

handle_manifest_published-IsPublished_example : IsPublished works linked one_app after_publication
handle_manifest_published-IsPublished_example =
    handle_manifest_published-IsPublished works linked one_app after_publication linked_published
