-- ===== src/Examples/Working.antt =====
-- The worker on a host with one component, and the store over a bucket.
use wadm.Prelude.{
  ℕ, zero, suc, String, ◌≡◌, refl, ◌==◌, Bool, true, false, Option, none, some, List, [], ◌∷◌, Map,
  Result, ok, keys, Distinct,
}
use wadm.Prelude.Actions.{◌>>=◌}
use wadm.Event.{ComponentScaled, HostStarted, HostStopped, Event, component_scaled, host_started}
use wadm.Storage.{Component, Host}
use wadm.Storage.Sets.{map_from_iter, set_remove, set_replace}
use wadm.Storage.Conversions.{component_of, host_of_started}
use wadm.Storage.Store.Contract.{IsStore, overwrite}
use wadm.Storage.Kv.{
  update_with_retries, internal_list, attempt, write_once, store_items, remove_ids, remove_items,
  entry_data, operation_data, store_many, delete_many, get_item, list_items,
}
use wadm.Storage.Kv.Maps.{Applied, store_many-Applied}
use wadm.Storage.Kv.Refines.{kv_store, kv_store-IsStore}
use wadm.Worker.Components.{
  handle_component_scaled, scale_component_data, scale_host, update_host, store_component,
  scale_instances, drop_stopped,
}
use wadm.Worker.Hosts.{
  handle_host_started, handle_host_stopped, stop_found, stop_host, stop_components, stop_component,
  stop_providers, stop_provider_on,
}
use wadm.Worker.Heartbeat.{Claims}
use wadm.Worker.State.{update_state}
use wadm.Worker.Consistency.{IsConsistent}
use wadm.Worker.Consistency.Places.{runs_on, hosted_on}
use wadm.Worker.Consistency.Stopped.{IsCleared, handle_host_stopped-IsCleared}
use wadm.Worker.Consistency.Runs.{Reaches, start, step, Reaches-IsConsistent}
use wadm.Worker.Promises.{IsScaled, handle_component_scaled-IsScaled}
use wadm.Examples.{texts}
use wadm.Examples.Memory.{
  Memory, bucket, codecs, bucket-IsBucket, bucket-IsQuiet, components-IsCodec, hosts-IsCodec,
  providers-IsCodec, db, view, db-IsStore,
}

abbrev no_claims : Memory → Result (Map Claims)
no_claims s = ok []

abbrev host_event : HostStarted
host_event = record { labels = []; friendly_name = "one"; id = "h1" }

abbrev scaled : ℕ → ComponentScaled
scaled n = record {
  annotations = ("zone", "us-east") ∷ [];
  claims = none;
  image_ref = "ghcr.io/hello:1";
  max_instances = n;
  component_id = "hello";
  host_id = "h1";
}

abbrev events : List (Event texts)
events = host_started host_event ∷ component_scaled (scaled 3) ∷ []

abbrev empty : Memory
empty = []

abbrev after_host : Memory
after_host = (update_state db no_claims 5 (host_started host_event) empty).1

abbrev after_scale : Memory
after_scale = (update_state db no_claims 6 (component_scaled (scaled 3)) after_host).1

empty-IsConsistent : IsConsistent (view empty)
unfolding wadm.Prelude.lookup
empty-IsConsistent = record {
  keyed = λ key h e. cc;
  running = λ key h id e c. cc;
  hosted = λ key h id e c. cc;
}

abbrev hello : Component
hello = scale_component_data (scaled 3) none

abbrev after_zero : Memory
after_zero = (handle_component_scaled db (scaled 0) after_scale).1

abbrev current : Host texts
current = scale_host (scaled 3) (host_of_started texts 5 host_event)

abbrev Reached : Memory → Type 0
Reached = Reaches db view db-IsStore no_claims empty

-- The runs of the worker, and what the store holds after them.
runs :
    Reached after_host
    × Reached after_scale
    × ((view after_scale).components "hello" ≡ some hello)
    × ((view after_scale).hosts "h1" ≡ some current)
    × (handle_component_scaled db (scaled 0) after_scale ≡ (ok tt, after_zero))
unfolding update_state handle_host_started handle_component_scaled update_host store_component ◌>>=◌
    wadm.Prelude.lookup wadm.Prelude.insert update_with_retries internal_list attempt write_once
    store_items store_many entry_data operation_data map_from_iter list_items get_item delete_many
    remove_items remove_ids wadm.Prelude.remove scale_component_data scale_host scale_instances
    drop_stopped component_of host_of_started set_remove set_replace wadm.Event.Matching.map_eq
runs =
    let first : Reached after_host = step start 5 (host_started host_event) none refl in
    (first, step first 6 (component_scaled (scaled 3)) none refl, refl, refl, refl)

scaled-IsConsistent : IsConsistent (view after_scale)
scaled-IsConsistent =
    Reaches-IsConsistent db view db-IsStore no_claims empty after_scale empty-IsConsistent runs.1

Reaches-IsConsistent_example : IsConsistent (view after_scale)
Reaches-IsConsistent_example =
    Reaches-IsConsistent db view db-IsStore no_claims empty after_scale empty-IsConsistent runs.1

handle_component_scaled-IsScaled_example : IsScaled (scaled 0) (view after_scale) (view after_zero)
handle_component_scaled-IsScaled_example =
    handle_component_scaled-IsScaled db view db-IsStore (scaled 0) after_scale after_zero hello
      (refl, tt) scaled-IsConsistent.keyed runs.2 runs.4

abbrev stop_event : HostStopped
stop_event = record { labels = []; id = "h1" }

abbrev after_stop : Memory
after_stop = (handle_host_stopped db stop_event after_scale).1

named : current.id ≡ "h1"
unfolding scale_host host_of_started
named = refl

host_gone : handle_host_stopped db stop_event after_scale ≡ (ok tt, after_stop)
unfolding update_state handle_host_stopped stop_found stop_host stop_components stop_component
    stop_providers stop_provider_on handle_host_started handle_component_scaled update_host
    store_component ◌>>=◌ wadm.Prelude.lookup wadm.Prelude.insert update_with_retries internal_list
    attempt write_once store_items store_many entry_data operation_data map_from_iter list_items
    get_item delete_many remove_items remove_ids wadm.Prelude.remove scale_component_data scale_host
    scale_instances drop_stopped component_of host_of_started set_remove set_replace
    wadm.Event.Matching.map_eq
host_gone = refl

handle_host_stopped-IsCleared_example :
    IsCleared "h1" current (view after_stop)
    × ((key id : String)
        → ("h1" == key) ≡ false
        → (runs_on key ((view after_scale).components id) ≡ true
            → runs_on key ((view after_stop).components id) ≡ true)
          × (hosted_on key ((view after_scale).providers id) ≡ true
              → hosted_on key ((view after_stop).providers id) ≡ true))
handle_host_stopped-IsCleared_example =
    handle_host_stopped-IsCleared db view db-IsStore stop_event current after_scale after_stop
      runs.3 named host_gone

abbrev items : Map Component
items = ("hello", hello) ∷ []

abbrev after_store : Memory
after_store = (store_many bucket codecs.components 1 "component_default" items empty).1

items_stored :
    store_many bucket codecs.components 1 "component_default" items empty ≡ (ok tt, after_store)
unfolding update_with_retries internal_list attempt write_once store_items store_many entry_data
    operation_data map_from_iter list_items get_item delete_many remove_items remove_ids
    wadm.Prelude.remove wadm.Prelude.lookup wadm.Prelude.insert
items_stored = refl

store_many-Applied_example :
    Applied bucket codecs.components bucket-IsBucket components-IsCodec "component_default"
      (overwrite items)
      empty
      after_store
store_many-Applied_example =
    store_many-Applied bucket codecs.components bucket-IsBucket components-IsCodec 1
      "component_default" items empty after_store items_stored

kv_store-IsStore_example : IsStore (kv_store bucket codecs 3 "default") view
kv_store-IsStore_example =
    kv_store-IsStore bucket codecs bucket-IsBucket bucket-IsQuiet "default" 3 components-IsCodec
      hosts-IsCodec providers-IsCodec
