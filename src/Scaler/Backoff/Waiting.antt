-- ===== src/Scaler/Backoff/Waiting.antt =====
-- What a wrapper does while it expects events or backs off.
use wadm.Prelude.{
  ◌≤◌, ◌≡◌, ◌≢◌, refl, ◌∙◌, arith, ◌⊎◌, inl, inr, Bool, true, false, not, ◌||◌, Option, none, some,
  List, [], ◌∷◌, Result, ok, ltb, filter, any, All, length, if◌then◌else◌,
}
use wadm.External.{External}
use wadm.Api.{StatusInfo, failed}
use wadm.Command.{Command}
use wadm.Event.{Event}
use wadm.Event.Matching.{evt_matches_expected}
use wadm.Scaler.{Scaler}
use wadm.Scaler.Backoff.{
  BackoffWrapper, Expected, Notification, remove_expected_event, retain, failure_matches,
  failure_message, reply,
}
use wadm.Scaler.Backoff.Methods.{
  remove_event, handle_event, handle_expected, handle_unexpected, react, back_off, reconcile,
  reconcile_freely,
}

module _ {x : External} (event : Event x) where
  -- The event is the success or the failure of the pair.
  abbrev pub answers : Expected x → Bool
  answers (success, fail) = evt_matches_expected success event || failure_matches event fail

  abbrev pub fails : Expected x → Bool
  fails (success, fail) = failure_matches event fail

  -- The pairs that the event does not answer.
  abbrev pub unanswered : List (Expected x) → List (Expected x)
  unanswered = filter (λ p. not (answers p))

  retain_lem :
      (flag : Bool) (ps : List (Expected x))
      → retain event flag ps ≡ (unanswered ps, flag || any fails ps)
  unfolding retain
  retain_lem flag [] = ground arith
  retain_lem flag ((s, f) ∷ ps) =
      rw (retain_lem (flag || failure_matches event f) ps) (ground arith)

  length-unanswered : (ps : List (Expected x)) → length (unanswered ps) ≤ length ps
  length-unanswered [] = omega arith
  length-unanswered (p ∷ ps) = ground (arith, length-unanswered ps)

  -- the list gets shorter just when a pair is answered
  shorter_iff : (ps : List (Expected x)) → ltb (length (unanswered ps)) (length ps) ≡ any answers ps
  shorter_iff [] = refl
  shorter_iff (p ∷ ps) = ground (arith, shorter_iff ps, length-unanswered ps)

  pub unanswered_all : (ps : List (Expected x)) → any answers ps ≡ false → unanswered ps ≡ ps
  unanswered_all [] h = refl
  unanswered_all (p ∷ ps) h = ground (arith, unanswered_all ps)

  fails_none : (ps : List (Expected x)) → any answers ps ≡ false → any fails ps ≡ false
  fails_none [] h = refl
  fails_none (p ∷ ps) h = ground (arith, fails_none ps)

module _ {x : External} {S C D : Type 0} (inner : Scaler x S) (configs : Scaler x C)
    (secrets : Scaler x D) (publish : Notification x → Result (Unit {0})) where
  abbrev pub Wrapper : Type 0
  Wrapper = BackoffWrapper x S C D

  remove_event_lem :
      (event : Event x) (w : Wrapper)
      → remove_event inner configs secrets publish event w ≡ (
        (any (answers event) w.expected_events, any (fails event) w.expected_events),
        record w { expected_events = unanswered event w.expected_events },
      )
  unfolding remove_event
  remove_event_lem event w =
      rw (retain_lem event false w.expected_events, shorter_iff event w.expected_events) refl

  -- An event is expected, or the scaler backs off.
  abbrev pub IsWaiting : Wrapper → Type 0
  IsWaiting w = (w.expected_events ≢ []) ⊎ (w.backoff_status ≢ none)

  handle_unexpected-waiting :
      (event : Event x) (ps : List (Expected x)) (b : Option StatusInfo) (w : Wrapper)
      → (ps ≢ []) ⊎ (b ≢ none)
      → handle_unexpected inner configs secrets publish event ps b w ≡ (ok [], w)
  unfolding handle_unexpected
  handle_unexpected-waiting event (p ∷ ps) b w h = refl
  handle_unexpected-waiting event [] (some info) w h = refl
  handle_unexpected-waiting event [] none w (inl h) = absurd (h refl)
  handle_unexpected-waiting event [] none w (inr h) = absurd (h refl)

  handle_event_lem :
      (event : Event x) (w : Wrapper)
      → handle_event inner configs secrets publish event w
        ≡ react inner configs secrets publish
            (any (answers event) w.expected_events)
            (any (fails event) w.expected_events)
            event
            (record w { expected_events = unanswered event w.expected_events })
  unfolding handle_event
  handle_event_lem event w = rw (remove_event_lem event w, handle_event) refl

  handle_event-unanswered :
      (event : Event x) (w : Wrapper)
      → any (answers event) w.expected_events ≡ false
      → handle_event inner configs secrets publish event w
        ≡ handle_unexpected inner configs secrets publish event w.expected_events w.backoff_status w
  unfolding react
  handle_event-unanswered event w h =
      handle_event_lem event w ∙ rw (h, unanswered_all event w.expected_events h, react) refl

  reconcile_freely-waiting :
      (ps : List (Expected x)) (b : Option StatusInfo) (w : Wrapper)
      → (ps ≢ []) ⊎ (b ≢ none)
      → reconcile_freely inner configs secrets publish ps b w ≡ (ok [], w)
  unfolding reconcile_freely
  reconcile_freely-waiting (p ∷ ps) b w h = refl
  reconcile_freely-waiting [] (some info) w h = refl
  reconcile_freely-waiting [] none w (inl h) = absurd (h refl)
  reconcile_freely-waiting [] none w (inr h) = absurd (h refl)

  -- What happens to a wrapper before a timer fires: events and reconciliations. The methods
  -- cleanup, update_config and status are left out.
  pub data Step : Type 0 where
    event_arrives : Event x → Step
    reconciles : Step

  unfoldable pub perform : Step → Wrapper → Result (List Command) × Wrapper
  perform (event_arrives event) w = handle_event inner configs secrets publish event w
  perform reconciles w = reconcile inner configs secrets publish w

  unfoldable pub perform_all : List Step → Wrapper → List (Result (List Command)) × Wrapper
  perform_all [] w = ([], w)
  perform_all (s ∷ ss) w = let (r, t) = perform s w in let (rs, u) = perform_all ss t in (r ∷ rs, u)

  -- The step is not an event that answers a pair.
  abbrev pub IsUnrelated : List (Expected x) → Step → Type 0
  IsUnrelated ps (event_arrives event) = any (answers event) ps ≡ false
  IsUnrelated ps reconciles = Unit

  pub perform-waiting :
      (s : Step) (w : Wrapper)
      → IsWaiting w
      → IsUnrelated w.expected_events s
      → perform s w ≡ (ok [], w)
  unfolding perform reconcile
  perform-waiting (event_arrives event) w h u =
      handle_event-unanswered event w u
      ∙ handle_unexpected-waiting event w.expected_events w.backoff_status w h
  perform-waiting reconciles w h u = reconcile_freely-waiting w.expected_events w.backoff_status w h

  -- While events are expected, or the scaler backs off, no sequence of reconciliations and of
  -- events that answer none of the expected ones yields a command or changes the state.
  pub perform_all-waiting :
      (ss : List Step) (w : Wrapper)
      → IsWaiting w
      → All (IsUnrelated w.expected_events) ss
      → let (rs, t) = perform_all ss w in (t ≡ w) × All (λ r. r ≡ ok []) rs
  unfolding perform_all
  perform_all-waiting [] w h u = (refl, tt)
  perform_all-waiting (s ∷ ss) w h (u, us) =
      rw (perform-waiting s w h u, perform_all)
        (let (same, quiet) = perform_all-waiting ss w h us in (same, (refl, quiet)))

  handle_expected_lem :
      (failed_event : Bool) (event : Event x) (w : Wrapper)
      → let (r, t) = handle_expected inner configs secrets publish failed_event event w in
        (t.expected_events ≡ w.expected_events)
        × (t.scaler ≡ w.scaler)
        × (t.backoff_status ≡ (
            if failed_event
            then some (record { status_type = failed; message = failure_message event })
            else w.backoff_status))
        × (r ≡ reply (publish (remove_expected_event w.model_name (inner.id w.scaler) event)) [])
  unfolding handle_expected back_off
  handle_expected_lem true event w = (refl, refl, refl, refl)
  handle_expected_lem false event w = (refl, refl, refl, refl)

  -- An event that was expected takes out the pairs that it answers and no other, is not given to
  -- the wrapped scaler, yields no command, and starts a back-off exactly when it is a failure.
  pub handle_event-answered :
      (event : Event x) (w : Wrapper)
      → any (answers event) w.expected_events ≡ true
      → let (r, t) = handle_event inner configs secrets publish event w in
        (t.expected_events ≡ unanswered event w.expected_events)
        × (t.scaler ≡ w.scaler)
        × (t.backoff_status ≡ (
            if any (fails event) w.expected_events
            then some (record { status_type = failed; message = failure_message event })
            else w.backoff_status))
        × (r ≡ reply (publish (remove_expected_event w.model_name (inner.id w.scaler) event)) [])
  unfolding react
  handle_event-answered event w h =
      rw (handle_event_lem event w, h, react)
        (handle_expected_lem (any (fails event) w.expected_events) event _)
