-- ===== src/Scaler/Backoff.antt =====
-- `BackoffWrapper` of crates/wadm/src/scaler/mod.rs: a scaler that waits for the events of its
-- commands, and backs off after a failure. A method runs to its end before the next step; the two
-- timers are steps of their own.
pub mod Methods
pub mod Waiting
pub mod Progress
pub mod Answers
use wadm.Prelude.{
  ℕ, String, Bool, true, false, not, ◌||◌, Option, none, some, List, [], ◌∷◌, ◌++◌, Map, Result, ok,
  err, filter_map, if◌then◌else◌, is_empty, ltb, length, Message, literal, format, str,
}
use wadm.External.{External}
use wadm.Api.{StatusInfo, failed}
use wadm.Command.{Command, corresponding_event}
use wadm.Event.{Event, provider_start_failed, component_scale_failed, raw_type}
use wadm.Event.Matching.{evt_matches_expected}
use wadm.Manifest.{Manifest}
use wadm.Scaler.{Scaler}

-- `Notifications` of scaler/manager.rs; events are kept as they are parsed. A wrapper sends the last
-- two.
pub data Notification (x : External) : Type 0 where
  create_scalers : Manifest x.Value → Notification x
  delete_scalers : String → Notification x
  register_expected_events : String → String → Option (Event x) → Notification x
  remove_expected_event : String → String → Event x → Notification x

abbrev pub Expected : External → Type 0
Expected x = Event x × Option (Event x)

-- `event_cleaner` and `status_cleaner` tell whether the timer runs; `sent` is what was given to
-- the notifier.
pub record BackoffWrapper (x : External) (S C D : Type 0) : Type 0 where
  pub scaler : S
  pub model_name : String
  pub required_config : List C
  pub required_secrets : List D
  pub expected_events : List (Expected x)
  pub backoff_status : Option StatusInfo
  pub event_cleaner : Bool
  pub status_cleaner : Bool
  pub sent : List (Notification x)

-- `get_commands_and_result` of workers/event.rs: every scaler runs; the commands of those that
-- succeed and the errors of the others.
unfoldable pub get_commands_and_result :
    {S : Type 0} → (S → Result (List Command) × S) → List S → List Command × List String × List S
get_commands_and_result f [] = ([], [], [])
get_commands_and_result f (s ∷ ss) =
    let (commands, errors, states) = get_commands_and_result f ss in
    let (r, t) = f s in
    elim r [
      | ok cs ↦ (cs ++ commands, errors, t ∷ states)
      | err e ↦ (commands, e ∷ errors, t ∷ states)
    ]

-- A loop that the first error leaves.
unfoldable pub reconcile_all :
    {S : Type 0} → (S → Result (List Command) × S) → List S → Result (List Command) × List S
reconcile_all f [] = (ok [], [])
reconcile_all f (s ∷ ss) =
    let (rest, states) = reconcile_all f ss in
    let (r, t) = f s in
    elim r [
      | err e ↦ (err e, t ∷ ss)
      | ok cs ↦ (elim rest [ err e ↦ err e | ok ds ↦ ok (cs ++ ds) ], t ∷ states)
    ]

abbrev pub failure_matches : {x : External} → Event x → Option (Event x) → Bool
failure_matches event none = false
failure_matches event (some f) = evt_matches_expected f event

-- The `retain` of `remove_event`, with its flag.
unfoldable pub retain :
    {x : External} → Event x → Bool → List (Expected x) → List (Expected x) × Bool
retain event failed_event [] = ([], failed_event)
retain event failed_event ((success, fail) ∷ rest) =
    let matches_success = evt_matches_expected success event in
    let matches_failure = failure_matches event fail in
    let (kept, flag) = retain event (failed_event || matches_failure) rest in
    if not (matches_success || matches_failure)
    then ((success, fail) ∷ kept, flag)
    else (kept, flag)

abbrev pub failure_message : {x : External} → Event x → Message
failure_message (provider_start_failed evt) = literal evt.error
failure_message (component_scale_failed evt) = literal evt.error
failure_message event = format "Received a failed event of type '{}'" (str (raw_type event) ∷ [])

-- What a method returns once it has notified the other instances.
abbrev pub reply : Result (Unit {0}) → List Command → Result (List Command)
reply (ok _) commands = ok commands
reply (err e) commands = err e

-- The timers fire: the expected events are forgotten, the back-off ends.
unfoldable pub event_timeout :
    {x : External} {S C D : Type 0} → BackoffWrapper x S C D → BackoffWrapper x S C D
event_timeout w = record w { expected_events = []; event_cleaner = false }

unfoldable pub status_timeout :
    {x : External} {S C D : Type 0} → BackoffWrapper x S C D → BackoffWrapper x S C D
status_timeout w = record w { backoff_status = none; status_cleaner = false }
