-- ===== src/Scaler/Backoff/Methods.antt =====
-- The methods of `BackoffWrapper` in crates/wadm/src/scaler/mod.rs.
use wadm.Prelude.{
  Bool, true, false, Option, none, some, List, [], ◌∷◌, ◌++◌, Result, ok, err, filter_map,
  if◌then◌else◌, ltb, length,
}
use wadm.External.{External}
use wadm.Manifest.{TraitProperty}
use wadm.Api.{StatusInfo, failed}
use wadm.Command.{Command, corresponding_event}
use wadm.Event.{Event}
use wadm.Scaler.{Scaler}
use wadm.Scaler.Backoff.{
  Notification, register_expected_events, remove_expected_event, Expected, BackoffWrapper,
  get_commands_and_result, reconcile_all, retain, failure_message, reply,
}

-- The wrapped scaler, the scalers of the configuration and the secrets that it requires, and the
-- notifier's answer to a message.
module _ {x : External} {S C D : Type 0} (inner : Scaler x S) (configs : Scaler x C)
    (secrets : Scaler x D) (publish : Notification x → Result (Unit {0})) where
  abbrev pub Wrapper : Type 0
  Wrapper = BackoffWrapper x S C D

  abbrev notified : Notification x → Wrapper → Wrapper
  notified n w = record w { sent = w.sent ++ n ∷ [] }

  unfoldable pub add_events : List (Expected x) → Bool → Wrapper → Wrapper
  add_events events clear_previous w = record w {
    expected_events = (if clear_previous then [] else w.expected_events) ++ events;
    event_cleaner = true;
  }

  -- The pair tells whether an expected event was removed, and whether it is a failure.
  unfoldable pub remove_event : Event x → Wrapper → (Bool × Bool) × Wrapper
  unfolding retain
  remove_event event w =
      let (kept, failed_event) = retain event false w.expected_events in
      (
        (ltb (length kept) (length w.expected_events), failed_event),
        record w { expected_events = kept },
      )

  unfoldable pub back_off : Bool → Event x → Wrapper → Wrapper
  back_off false event w = w
  back_off true event w = record w {
    backoff_status = some (record { status_type = failed; message = failure_message event });
    status_cleaner = true;
  }

  -- The other instances learn of expected events, when there are some.
  unfoldable pub announce :
      Option (Event x)
      → List Command
      → List (Expected x)
      → Wrapper
      → Result (List Command) × Wrapper
  announce trigger commands [] w = (ok commands, w)
  announce trigger commands (_ ∷ _) w =
      let n = register_expected_events w.model_name (inner.id w.scaler) trigger in
      (reply (publish n) commands, notified n w)

  abbrev pub expects : List Command → List (Expected x)
  expects commands = filter_map corresponding_event commands

  -- The wrapped scaler's answer to an event.
  unfoldable pub register :
      Event x → Result (List Command) → Wrapper → Result (List Command) × Wrapper
  unfolding add_events announce
  register event (err e) w = (err e, w)
  register event (ok commands) w =
      let w' = add_events (expects commands) false w in
      announce (some event) commands w'.expected_events w'

  -- The commands of the required configuration and secrets come first.
  unfoldable pub forward : Event x → List Command → Wrapper → Result (List Command) × Wrapper
  unfolding register
  forward event (c ∷ cs) w = (ok (c ∷ cs), w)
  forward event [] w =
      let (r, s) = inner.handle_event event w.scaler in register event r (record w { scaler = s })

  unfoldable pub handle_freely : Event x → Wrapper → Result (List Command) × Wrapper
  unfolding forward get_commands_and_result
  handle_freely event w =
      let (config_commands, _, cs) =
        get_commands_and_result (configs.handle_event event) w.required_config in
      let (secret_commands, _, ds) =
        get_commands_and_result (secrets.handle_event event) w.required_secrets in
      forward event (config_commands ++ secret_commands)
        (record w { required_config = cs; required_secrets = ds })

  unfoldable pub handle_expected : Bool → Event x → Wrapper → Result (List Command) × Wrapper
  unfolding back_off
  handle_expected failed_event event w =
      let w' = back_off failed_event event w in
      let n = remove_expected_event w'.model_name (inner.id w'.scaler) event in
      (reply (publish n) [], notified n w')

  -- An event that was not expected, by what is still expected and the back-off.
  unfoldable pub handle_unexpected :
      Event x → List (Expected x) → Option StatusInfo → Wrapper → Result (List Command) × Wrapper
  unfolding handle_freely
  handle_unexpected event (_ ∷ _) _ w = (ok [], w)
  handle_unexpected event [] (some _) w = (ok [], w)
  handle_unexpected event [] none w = handle_freely event w

  -- The branches on what was removed.
  unfoldable pub react : Bool → Bool → Event x → Wrapper → Result (List Command) × Wrapper
  unfolding handle_expected handle_unexpected
  react true failed_event event w = handle_expected failed_event event w
  react false failed_event event w = handle_unexpected event w.expected_events w.backoff_status w

  -- `handle_event_internal`
  unfoldable pub handle_event : Event x → Wrapper → Result (List Command) × Wrapper
  unfolding react
  handle_event event w =
      let ((expected, failed_event), w') = remove_event event w in
      react expected failed_event event w'

  -- The wrapped scaler's answer to a reconciliation.
  unfoldable pub settle : Result (List Command) → Wrapper → Result (List Command) × Wrapper
  unfolding add_events announce
  settle (err e) w = (err e, w)
  settle (ok []) w = (ok [], w)
  settle (ok (c ∷ cs)) w =
      let w' = add_events (expects (c ∷ cs)) true w in announce none (c ∷ cs) w'.expected_events w'

  unfoldable pub require_secrets :
      List Command → Result (List Command) → Wrapper → Result (List Command) × Wrapper
  require_secrets commands (err e) w = (err e, w)
  require_secrets commands (ok secret_commands) w = elim (commands ++ secret_commands) [
    | c ∷ cs ↦ (ok (c ∷ cs), w)
    | [] ↦ let (r, s) = inner.reconcile w.scaler in settle r (record w { scaler = s })
  ]

  unfoldable pub require_config : Result (List Command) → Wrapper → Result (List Command) × Wrapper
  require_config (err e) w = (err e, w)
  require_config (ok commands) w =
      let (r, ds) = reconcile_all secrets.reconcile w.required_secrets in
      require_secrets commands r (record w { required_secrets = ds })

  unfoldable pub reconcile_freely :
      List (Expected x) → Option StatusInfo → Wrapper → Result (List Command) × Wrapper
  reconcile_freely (_ ∷ _) _ w = (ok [], w)
  reconcile_freely [] (some _) w = (ok [], w)
  reconcile_freely [] none w =
      let (r, cs) = reconcile_all configs.reconcile w.required_config in
      require_config r (record w { required_config = cs })

  -- `reconcile_internal`
  unfoldable pub reconcile : Wrapper → Result (List Command) × Wrapper
  reconcile w = reconcile_freely w.expected_events w.backoff_status w

  -- `cleanup_internal`: an error of one cleanup does not stop the others.
  unfoldable pub cleanup : Wrapper → Result (List Command) × Wrapper
  unfolding get_commands_and_result
  cleanup w =
      let (r, s) = inner.cleanup w.scaler in
      let (config_commands, _, cs) = get_commands_and_result configs.cleanup w.required_config in
      let (secret_commands, _, ds) = get_commands_and_result secrets.cleanup w.required_secrets in
      (
        ok ((elim r [ ok commands ↦ commands | err _ ↦ [] ]) ++ config_commands ++ secret_commands),
        record w { scaler = s; required_config = cs; required_secrets = ds },
      )

  unfoldable pub status : Wrapper → StatusInfo × Wrapper
  status w = elim w.backoff_status [
    | some info ↦ (info, w)
    | none ↦ let (info, s) = inner.status w.scaler in (info, record w { scaler = s })
  ]

  abbrev pub update_config : TraitProperty x.Value → Wrapper → Result (List Command) × Wrapper
  update_config config w =
      let (r, s) = inner.update_config config w.scaler in (r, record w { scaler = s })

  abbrev pub backoff_wrapper : Scaler x Wrapper
  backoff_wrapper = record {
    id = λ w. inner.id w.scaler;
    name = λ w. inner.name w.scaler;
    kind = λ w. inner.kind w.scaler;
    status = status;
    update_config = update_config;
    handle_event = handle_event;
    reconcile = reconcile;
    cleanup = cleanup;
  }
