-- ===== src/Scaler/Manager.antt =====
-- `ScalerManager` of crates/wadm/src/scaler/manager.rs: the scalers of each application. An operation
-- runs to its end before the next one; the locks and the stream of notifications are not modelled.
pub mod Ways
pub mod Removal
use wadm.Prelude.{
  String, Bool, true, false, Option, none, some, List, [], ◌∷◌, ◌++◌, Map, lookup, insert, remove,
  Result, ok, err, Message, literal, ◌==◌, if◌then◌else◌,
}
use wadm.Prelude.Actions.{Action}
use wadm.External.{External}
use wadm.Manifest.{Manifest}
use wadm.Event.{Event}
use wadm.Command.{Command}
use wadm.Api.{StatusInfo, undeployed}
use wadm.Scaler.{Scaler}
use wadm.Scaler.Backoff.{
  Notification, create_scalers, delete_scalers, register_expected_events, remove_expected_event,
}

-- `Status` and `ScalerStatus` of crates/wadm-types/src/api.rs, without the deprecated fields.
pub record ScalerStatus : Type 0 where
  pub id : String
  pub kind : String
  pub name : String
  pub info : StatusInfo

pub record Status : Type 0 where
  pub info : StatusInfo
  pub scalers : List ScalerStatus

-- What the manager works with: the methods of a scaler and what they read, the snapshot, the
-- publishers and the notifier, and `manifest_components_to_scalers`.
pub record Surroundings (x : External) (S w : Type 0) : Type 0 where
  pub scaler : w → Scaler x S
  pub scalers_for_manifest : Manifest x.Value → List S
  pub refresh : Action w (Unit {0})
  pub publish_commands : List Command → Action w (Unit {0})
  pub publish_status : String → Status → Action w (Unit {0})
  pub notify : Notification x → Action w (Unit {0})

pub record Manager (S w : Type 0) : Type 0 where
  pub scalers : Map (List S)
  pub outside : w

-- What is sent back for a message.
pub data Acknowledgement : Type 0 where
  ack nak : Acknowledgement

-- `join_all` of the cleanups: each runs; the first error is the result.
unfoldable pub cleanup_all :
    {S : Type 0} → (S → Result (List Command) × S) → List S → Result (List Command) × List S
cleanup_all f [] = (ok [], [])
cleanup_all f (s ∷ ss) =
    let (rest, states) = cleanup_all f ss in
    let (r, t) = f s in
    (
      elim r [ err e ↦ err e | ok cs ↦ elim rest [ err e ↦ err e | ok ds ↦ ok (cs ++ ds) ] ],
      t ∷ states,
    )

module _ {S w : Type 0} where
  abbrev pub with_outside : w → Manager S w → Manager S w
  with_outside o m = record m { outside = o }

  abbrev pub add_raw_scalers : String → List S → Manager S w → Manager S w
  add_raw_scalers name ss m = record m { scalers = insert name ss m.scalers }

  abbrev pub without_scalers : String → Manager S w → Manager S w
  without_scalers name m = record m { scalers = remove name m.scalers }

  abbrev pub remove_raw_scalers : String → Manager S w → Option (List S) × Manager S w
  remove_raw_scalers name m = (lookup name m.scalers, without_scalers name m)

  abbrev pub get_scalers : String → Manager S w → Option (List S)
  get_scalers name m = lookup name m.scalers

  abbrev pub restore : String → Option (List S) → Manager S w → Manager S w
  restore name none m = m
  restore name (some ss) m = add_raw_scalers name ss m

module _ {x : External} {S w : Type 0} (env : Surroundings x S w) where
  unfoldable pub publish_cleanup :
      String → List S → Result (Unit {0}) → Action (Manager S w) (List S)
  publish_cleanup name ss (ok _) m = (ok ss, m)
  publish_cleanup name ss (err e) m = (err e, add_raw_scalers name ss m)

  unfoldable pub publish_cleaned :
      String → List S → Result (List Command) → Action (Manager S w) (List S)
  publish_cleaned name ss (err e) m = (err e, add_raw_scalers name ss m)
  publish_cleaned name ss (ok commands) m =
      let (r, o) = env.publish_commands commands m.outside in
      publish_cleanup name ss r (with_outside o m)

  -- A failed refresh returns at once, without the scalers.
  unfoldable pub cleanup_refreshed :
      String → List S → Result (Unit {0}) → Action (Manager S w) (List S)
  cleanup_refreshed name ss (err e) m = (err e, m)
  cleanup_refreshed name ss (ok _) m =
      let (r, states) = cleanup_all (λ s. (env.scaler m.outside).cleanup s) ss in
      publish_cleaned name states r m

  unfoldable pub cleanup_removed :
      String → Option (List S) → Manager S w → Option (Result (List S)) × Manager S w
  cleanup_removed name none m = (none, m)
  cleanup_removed name (some ss) m =
      let (r, o) = env.refresh m.outside in
      let (removed, n) = cleanup_refreshed name ss r (with_outside o m) in (some removed, n)

  unfoldable pub remove_scalers_internal :
      String → Manager S w → Option (Result (List S)) × Manager S w
  remove_scalers_internal name m =
      let (found, n) = remove_raw_scalers name m in cleanup_removed name found n

  unfoldable pub notify_removed :
      String → Option (List S) → Manager S w → Option (Result (Unit {0})) × Manager S w
  notify_removed name ss m =
      let (r, o) = env.notify (delete_scalers name) m.outside in
      elim r [
        | ok _ ↦ (some (ok tt), with_outside o m)
        | err e ↦ (some (err e), restore name ss (with_outside o m))
      ]

  unfoldable pub removed_internal :
      String → Option (Result (List S)) → Manager S w → Option (Result (Unit {0})) × Manager S w
  removed_internal name none m = notify_removed name none m
  removed_internal name (some (ok ss)) m = notify_removed name (some ss) m
  removed_internal name (some (err e)) m = (some (err e), m)

  unfoldable pub remove_scalers : String → Manager S w → Option (Result (Unit {0})) × Manager S w
  remove_scalers name m = let (r, n) = remove_scalers_internal name m in removed_internal name r n

  unfoldable pub add_scalers : Manifest x.Value → List S → Action (Manager S w) (List S)
  add_scalers manifest ss m =
      let name = manifest.metadata.name in
      let added = add_raw_scalers name ss m in
      let (r, o) = env.notify (create_scalers manifest) added.outside in
      elim r [
        | err e ↦ (err e, with_outside o added)
        | ok _ ↦ elim (get_scalers name added) [
          | none ↦ (err "Data error: scalers no longer exist after creation", with_outside o added)
          | some found ↦ (ok found, with_outside o added)
        ]
      ]

  -- The first scaler with the identifier takes a step.
  unfoldable pub step_specific : (S → S) → Scaler x S → String → List S → List S
  step_specific step methods scaler_id [] = []
  step_specific step methods scaler_id (s ∷ ss) =
      let rest = step_specific step methods scaler_id ss in
      if methods.id s == scaler_id then step s ∷ ss else s ∷ rest

  abbrev pub on_specific : (Scaler x S → S → S) → String → String → Manager S w → Manager S w
  on_specific step name scaler_id m = elim (get_scalers name m) [
    | none ↦ m
    | some ss ↦
        let methods = env.scaler m.outside in
        record m {
          scalers = insert name (step_specific (step methods) methods scaler_id ss) m.scalers;
        }
  ]

  abbrev pub undeployed_status : Status
  undeployed_status = record {
    info = record { status_type = undeployed; message = literal "Manifest has been undeployed" };
    scalers = [];
  }

  -- Once a failed cleanup was nacked, the message is acknowledged too.
  unfoldable pub deleted_notification :
      String → Option (Result (List S)) → Manager S w → List Acknowledgement × Manager S w
  deleted_notification name (some (err e)) m = (nak ∷ ack ∷ [], m)
  deleted_notification name none m =
      (ack ∷ [], with_outside (env.publish_status name undeployed_status m.outside).1 m)
  deleted_notification name (some (ok _)) m =
      (ack ∷ [], with_outside (env.publish_status name undeployed_status m.outside).1 m)

  -- One message of the loop of `notify`, and what is sent back for it.
  unfoldable pub handle_notification :
      Notification x → Manager S w → List Acknowledgement × Manager S w
  handle_notification (create_scalers manifest) m =
      (ack ∷ [], add_raw_scalers manifest.metadata.name (env.scalers_for_manifest manifest) m)
  handle_notification (delete_scalers name) m =
      let (r, n) = remove_scalers_internal name m in deleted_notification name r n
  handle_notification (register_expected_events name scaler_id none) m =
      (ack ∷ [], on_specific (λ methods s. (methods.reconcile s).1) name scaler_id m)
  handle_notification (register_expected_events name scaler_id (some e)) m =
      (ack ∷ [], on_specific (λ methods s. (methods.handle_event e s).1) name scaler_id m)
  handle_notification (remove_expected_event name scaler_id e) m =
      (ack ∷ [], on_specific (λ methods s. (methods.handle_event e s).1) name scaler_id m)
