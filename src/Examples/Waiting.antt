-- ===== src/Examples/Waiting.antt =====
-- Examples for the back-off of scalers and for the configuration scaler.
use wadm.Prelude.{
  String, ◌≡◌, ◌≢◌, ◌↔◌, ◌⊎◌, refl, true, false, Option, none, some, List, [], ◌∷◌, Map, Result, ok,
  All, AnyOf, any, if◌then◌else◌, literal, lookup, insert, inl,
}
use wadm.Api.{reconciling, deployed, failed}
use wadm.Command.{
  Command, PutConfig, scale_component, put_config, corresponding_event, insert_managed_annotations,
}
use wadm.Event.{Event, component_scaled, component_scale_failed, host_stopped}
use wadm.Event.Matching.{map_eq, evt_matches_expected}
use wadm.Scaler.{Scaler}
use wadm.Scaler.Config.{ConfigScaler, config_scaler, reconcile}
use wadm.Scaler.Config.Sync.{reconcile_converges}
use wadm.Scaler.Secret.{SecretScaler, secret_scaler}
use wadm.Scaler.Backoff.{BackoffWrapper, Expected, Notification, reconcile_all}
use wadm.Scaler.Backoff.Methods.{handle_event, expects}
use wadm.Scaler.Backoff.Methods
use wadm.Scaler.Backoff.Waiting.{
  answers, fails, unanswered, event_arrives, reconciles, perform_all, IsUnrelated,
  perform_all-waiting, handle_event-answered,
}
use wadm.Scaler.Backoff.Progress.{Resumes, IsOpen, IsSilent, events_end_waiting, reconcile_once}
use wadm.Scaler.Backoff.Answers.{
  IsKeyed, Succeeds, Fails, answers_any, fails_any, corresponding_event-answered_iff,
}
use wadm.Examples.{texts}

-- A scaler whose state is what it asks for.
abbrev asking : Scaler texts (List Command)
asking = record {
  id = λ _. "asking";
  name = λ _. "asking";
  kind = λ _. "Scaler";
  status = λ s. (record { status_type = reconciling; message = literal "" }, s);
  update_config = λ _ s. (ok [], s);
  handle_event = λ _ s. (ok s, s);
  reconcile = λ s. (ok s, s);
  cleanup = λ s. (ok [], s);
}

abbrev bucket : String → Result (Option (Map String))
bucket _ = ok (some (("log", "info") ∷ []))

abbrev configs : Scaler texts ConfigScaler
configs = config_scaler bucket

abbrev vault : String → Result (Option String)
vault _ = ok none

abbrev secrets : Scaler texts (SecretScaler texts)
secrets = secret_scaler vault

abbrev publish : Notification texts → Result (Unit {0})
publish _ = ok tt

abbrev hello : Command
hello = scale_component (record {
  component_id = "hello";
  host_id = "h1";
  count = 2;
  reference = "ghcr.io/hello:1";
  model_name = "app";
  annotations = ("zone", "east") ∷ [];
  config = [];
})

abbrev scaled : Event texts
scaled = component_scaled (record {
  annotations = insert_managed_annotations (("zone", "east") ∷ []) "app";
  claims = none;
  image_ref = "ghcr.io/hello:1";
  max_instances = 2;
  component_id = "hello";
  host_id = "h1";
})

abbrev scale_failed_with : String → Event texts
scale_failed_with error = component_scale_failed (record {
  annotations = insert_managed_annotations (("zone", "east") ∷ []) "app";
  claims = none;
  image_ref = "ghcr.io/hello:1";
  max_instances = 2;
  component_id = "hello";
  host_id = "h1";
  error = error;
})

abbrev scale_failed : Event texts
scale_failed = scale_failed_with "no memory"

abbrev host_gone : Event texts
host_gone = host_stopped (record { labels = []; id = "h2" })

abbrev wrapper :
    List (Expected texts) → BackoffWrapper texts (List Command) ConfigScaler (SecretScaler texts)
wrapper expected = record {
  scaler = hello ∷ [];
  model_name = "app";
  required_config = [];
  required_secrets = [];
  expected_events = expected;
  backoff_status = none;
  event_cleaner = false;
  status_cleaner = false;
  sent = [];
}

abbrev pairs : List (Expected texts)
pairs = expects asking configs secrets publish (hello ∷ [])

pairs-ne-nil : pairs ≢ []
unfolding corresponding_event
pairs-ne-nil e = cc

unrelated :
    All
      (IsUnrelated asking configs secrets publish pairs)
      (reconciles ∷ event_arrives host_gone ∷ [])
unfolding corresponding_event evt_matches_expected
unrelated = (tt, (refl, tt))

perform_all-waiting_example :
    let (rs, t) =
      perform_all asking configs secrets publish
        (reconciles ∷ event_arrives host_gone ∷ [])
        (wrapper pairs) in
    (t ≡ wrapper pairs) × All (λ r. r ≡ ok []) rs
perform_all-waiting_example =
    perform_all-waiting asking configs secrets publish (reconciles ∷ event_arrives host_gone ∷ [])
      (wrapper pairs) (inl pairs-ne-nil) unrelated

scale_failed-answers : any (answers scale_failed) pairs ≡ true
unfolding corresponding_event evt_matches_expected insert_managed_annotations map_eq insert lookup
scale_failed-answers = refl

handle_event-answered_example :
    let (r, t) = handle_event asking configs secrets publish scale_failed (wrapper pairs) in
    (t.expected_events ≡ unanswered scale_failed pairs)
    × (t.scaler ≡ hello ∷ [])
    × (t.backoff_status ≡ (
        if any (fails scale_failed) pairs
        then some (record { status_type = failed; message = literal "no memory" })
        else none))
    × (r ≡ ok [])
handle_event-answered_example =
    handle_event-answered asking configs secrets publish scale_failed (wrapper pairs)
      scale_failed-answers

pairs_answered : All (λ p. any (λ e. answers e p) (host_gone ∷ scaled ∷ []) ≡ true) pairs
unfolding corresponding_event evt_matches_expected insert_managed_annotations map_eq insert lookup
pairs_answered = (refl, tt)

events_end_waiting_example :
    Resumes asking configs secrets publish (host_gone ∷ scaled ∷ []) (wrapper pairs)
events_end_waiting_example =
    events_end_waiting asking configs secrets publish (host_gone ∷ scaled ∷ []) (wrapper pairs)
      pairs_answered

no_config : (reconcile_all configs.reconcile []).0 ≡ ok []
unfolding reconcile_all
no_config = refl

no_secret : (reconcile_all secrets.reconcile []).0 ≡ ok []
unfolding reconcile_all
no_secret = refl

still-IsOpen : IsOpen (host_gone ∷ []) pairs
unfolding corresponding_event evt_matches_expected
still-IsOpen = inl refl

reconcile_once_example :
    let (r, t) = Methods.reconcile asking configs secrets publish (wrapper []) in
    let (rs, u) =
      perform_all asking configs secrets publish (reconciles ∷ event_arrives host_gone ∷ []) t in
    (t.expected_events ≡ pairs)
    × ((ds : List Command) → r ≡ ok ds → ds ≡ hello ∷ [])
    × (u.scaler ≡ hello ∷ [])
    × All (IsSilent asking configs secrets publish) rs
reconcile_once_example =
    reconcile_once asking configs secrets publish (wrapper []) (hello ∷ []) (hello ∷ [])
      (reconciles ∷ event_arrives host_gone ∷ []) (refl, refl) no_config no_secret refl still-IsOpen

scale_failed-IsKeyed : IsKeyed scale_failed
unfolding insert_managed_annotations insert
scale_failed-IsKeyed = (refl, (refl, (refl, tt)))

corresponding_event-answered_iff_example :
    ((answers_any scale_failed (hello ∷ []) ≡ true)
      ↔ AnyOf (λ c. Succeeds c scale_failed ⊎ Fails c scale_failed) (hello ∷ []))
    × ((fails_any scale_failed (hello ∷ []) ≡ true)
        ↔ AnyOf (λ c. Fails c scale_failed) (hello ∷ []))
corresponding_event-answered_iff_example =
    corresponding_event-answered_iff (hello ∷ []) scale_failed ((refl, tt), tt) scale_failed-IsKeyed

abbrev log_config : ConfigScaler
log_config = record {
  id = "log";
  config_name = "log";
  config = some (("log", "debug") ∷ []);
  status = record { status_type = reconciling; message = literal "" };
}

abbrev put : PutConfig
put = record { config_name = "log"; config = ("log", "debug") ∷ [] }

log_config-put : (reconcile bucket log_config).0 ≡ ok (put_config put ∷ [])
unfolding reconcile map_eq lookup
log_config-put = refl

abbrev bucket_after : String → Result (Option (Map String))
bucket_after _ = ok (some (("log", "debug") ∷ []))

reconcile_converges_example :
    let (r, t) = reconcile bucket_after (reconcile bucket log_config).1 in
    (t.status.status_type ≡ deployed) × (r ≡ ok [])
reconcile_converges_example =
    reconcile_converges bucket bucket_after log_config put [] (refl, tt) log_config-put refl
