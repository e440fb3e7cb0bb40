-- ===== src/Scaler/Backoff/Progress.antt =====
-- How a wrapper starts to wait, and how it stops.
use wadm.Prelude.{
  ◌≡◌, ◌≢◌, refl, sym, ◌∙◌, ap, arith, ◌⊎◌, inl, inr, true, false, Option, none, List, [], ◌∷◌,
  ◌++◌, Result, ok, err, any, All, map, is_empty, Bool-cases,
}
use wadm.External.{External}
use wadm.Command.{Command}
use wadm.Event.{Event}
use wadm.Scaler.{Scaler}
use wadm.Scaler.Backoff.{Expected, Notification, reply, reconcile_all}
use wadm.Scaler.Backoff.Methods.{
  handle_event, reconcile, reconcile_freely, require_config, require_secrets, settle, announce,
  add_events, expects,
}
use wadm.Scaler.Backoff.Waiting.{
  Wrapper, answers, unanswered, unanswered_all, Step, event_arrives, reconciles, perform,
  perform_all, perform-waiting, handle_event-answered,
}

reply-nil : (r : Result (Unit {0})) (ds cs : List Command) → reply r ds ≡ ok cs → cs ≡ ds
reply-nil (ok u) ds cs e = ground (arith, e)
reply-nil (err m) ds cs e = cc

module _ {x : External} where
  none_left : (ps : List (Expected x)) → All (λ p. any (λ e. answers e p) [] ≡ true) ps → ps ≡ []
  none_left [] h = refl
  none_left (p ∷ ps) h = cc

  unanswered-All :
      (e : Event x) (es : List (Event x)) (ps : List (Expected x))
      → All (λ p. any (λ e. answers e p) (e ∷ es) ≡ true) ps
      → All (λ p. any (λ e. answers e p) es ≡ true) (unanswered e ps)
  unanswered-All e es [] h = tt
  unanswered-All e es (p ∷ ps) (h, hs) = elim (Bool-cases (answers e p)) [
    | inl a ↦ rw a (unanswered-All e es ps hs)
    | inr a ↦ rw a (ground (arith, h, a), unanswered-All e es ps hs)
  ]

  -- Some expected pair is answered by none of the events.
  abbrev pub IsOpen : List (Event x) → List (Expected x) → Type 0
  IsOpen es [] = ⊥
  IsOpen es (p ∷ ps) = (any (λ e. answers e p) es ≡ false) ⊎ IsOpen es ps

  IsOpen-ne-nil : (es : List (Event x)) (ps : List (Expected x)) → IsOpen es ps → ps ≢ []
  IsOpen-ne-nil es [] h = absurd h
  IsOpen-ne-nil es (p ∷ ps) h = λ z. cc

  unanswered-IsOpen :
      (e : Event x) (es : List (Event x)) (ps : List (Expected x))
      → IsOpen (e ∷ es) ps
      → IsOpen es (unanswered e ps)
  unanswered-IsOpen e es [] h = h
  unanswered-IsOpen e es (p ∷ ps) h = elim (Bool-cases (answers e p)) [
    | inl a ↦ elim h [
      | inl none_answers ↦ absurd (ground (arith, a, none_answers))
      | inr later ↦ rw a (unanswered-IsOpen e es ps later)
    ]
    | inr a ↦ elim h [
      | inl none_answers ↦ rw a (inl (ground (arith, a, none_answers)))
      | inr later ↦ rw a (inr (unanswered-IsOpen e es ps later))
    ]
  ]

module _ {x : External} {S C D : Type 0} (inner : Scaler x S) (configs : Scaler x C)
    (secrets : Scaler x D) (publish : Notification x → Result (Unit {0})) where
  -- An event while some are expected: it takes out what it answers, and yields no command.
  handle_event_pending :
      (event : Event x) (w : Wrapper inner configs secrets publish)
      → w.expected_events ≢ []
      → let (r, t) = handle_event inner configs secrets publish event w in
        (t.expected_events ≡ unanswered event w.expected_events)
        × (t.scaler ≡ w.scaler)
        × ((cs : List Command) → r ≡ ok cs → cs ≡ [])
  unfolding perform
  handle_event_pending event w ne = elim (Bool-cases (any (answers event) w.expected_events)) [
    | inl a ↦
        let (left, same, _, r) = handle_event-answered inner configs secrets publish event w a in
        (left, same, λ cs e. reply-nil _ [] cs (sym r ∙ e))
    | inr a ↦
        let e = perform-waiting inner configs secrets publish (event_arrives event) w (inl ne) a in
        rw e (sym (unanswered_all event w.expected_events a), refl, λ cs k. ground (arith, k))
  ]

  -- After a first part of the events nothing is expected, no command was given, and the wrapped
  -- scaler was left alone.
  pub record Resumes (es : List (Event x)) (w : Wrapper inner configs secrets publish)
      : Type 0 where
    pub before : List (Event x)
    pub after : List (Event x)
    pub parts : es ≡ before ++ after
    pub done :
        (perform_all inner configs secrets publish (map event_arrives before) w).1.expected_events
        ≡ []
    pub kept :
        (perform_all inner configs secrets publish (map event_arrives before) w).1.scaler ≡ w.scaler
    pub quiet :
        All
          (λ r. (cs : List Command) → r ≡ ok cs → cs ≡ [])
          (perform_all inner configs secrets publish (map event_arrives before) w).0

  -- If every expected pair is answered by some event of a sequence, then after some of them
  -- nothing is expected any more; until then no command is given and the wrapped scaler is left
  -- alone.
  pub events_end_waiting :
      (es : List (Event x)) (w : Wrapper inner configs secrets publish)
      → All (λ p. any (λ e. answers e p) es ≡ true) w.expected_events
      → Resumes es w
  unfolding perform_all perform
  events_end_waiting [] w h = record {
    before = [];
    after = [];
    parts = refl;
    done = none_left w.expected_events h;
    kept = refl;
    quiet = tt;
  }
  events_end_waiting (e ∷ es) w h = elim (Bool-cases (is_empty w.expected_events)) [
    | inl z ↦ record {
      before = [];
      after = e ∷ es;
      parts = refl;
      done = ground arith;
      kept = refl;
      quiet = tt;
    }
    | inr z ↦
        let (left, same, quiet) = handle_event_pending e w (λ n. ground arith) in
        let later =
          events_end_waiting es (handle_event inner configs secrets publish e w).1
            (rw left (unanswered-All e es w.expected_events h)) in
        record {
          before = e ∷ later.before;
          after = later.after;
          parts = ap (◌∷◌ e) later.parts;
          done = later.done;
          kept = later.kept ∙ same;
          quiet = (quiet, later.quiet);
        }
  ]

  announce_lem :
      (trigger : Option (Event x)) (cs : List Command) (ps : List (Expected x))
      (w : Wrapper inner configs secrets publish)
      → let (r, t) = announce inner configs secrets publish trigger cs ps w in
        (t.expected_events ≡ w.expected_events)
        × (t.scaler ≡ w.scaler)
        × ((ds : List Command) → r ≡ ok ds → ds ≡ cs)
  unfolding announce
  announce_lem trigger cs [] w = (refl, refl, λ ds e. ground (arith, e))
  announce_lem trigger cs (p ∷ ps) w = (refl, refl, λ ds e. reply-nil _ cs ds e)

  settle_lem :
      (cs : List Command) (w : Wrapper inner configs secrets publish)
      → w.expected_events ≡ []
      → let (r, t) = settle inner configs secrets publish (ok cs) w in
        (t.expected_events ≡ expects inner configs secrets publish cs)
        × (t.scaler ≡ w.scaler)
        × ((ds : List Command) → r ≡ ok ds → ds ≡ cs)
  unfolding settle add_events
  settle_lem [] w z = (z, refl, λ ds e. ground (arith, e))
  settle_lem (c ∷ cs) w z = announce_lem none (c ∷ cs) _ _

  require_secrets-nil :
      (w : Wrapper inner configs secrets publish) (cs : List Command) (s : S)
      → inner.reconcile w.scaler ≡ (ok cs, s)
      → require_secrets inner configs secrets publish [] (ok []) w
        ≡ settle inner configs secrets publish (ok cs) (record w { scaler = s })
  unfolding require_secrets
  require_secrets-nil w cs s h = rw h refl

  require_config-nil :
      (w : Wrapper inner configs secrets publish) (cs : List Command) (s : S)
      → (reconcile_all secrets.reconcile w.required_secrets).0 ≡ ok []
      → inner.reconcile w.scaler ≡ (ok cs, s)
      → require_config inner configs secrets publish (ok []) w
        ≡ settle inner configs secrets publish (ok cs) (record w {
          required_secrets = (reconcile_all secrets.reconcile w.required_secrets).1;
          scaler = s;
        })
  unfolding require_config
  require_config-nil w cs s hs hi = rw hs (require_secrets-nil _ cs s hi)

  reconcile-nil :
      (w : Wrapper inner configs secrets publish) (cs : List Command) (s : S)
      → (w.expected_events ≡ []) × (w.backoff_status ≡ none)
      → (reconcile_all configs.reconcile w.required_config).0 ≡ ok []
      → (reconcile_all secrets.reconcile w.required_secrets).0 ≡ ok []
      → inner.reconcile w.scaler ≡ (ok cs, s)
      → reconcile inner configs secrets publish w
        ≡ settle inner configs secrets publish (ok cs) (record w {
          required_config = (reconcile_all configs.reconcile w.required_config).1;
          required_secrets = (reconcile_all secrets.reconcile w.required_secrets).1;
          scaler = s;
        })
  unfolding reconcile reconcile_freely
  reconcile-nil w cs s (z, b) hc hs hi =
      rw (z, b, reconcile, reconcile_freely, hc) (require_config-nil _ cs s hs hi)

  -- The events of a sequence of steps.
  abbrev pub events : List (Step inner configs secrets publish) → List (Event x)
  events [] = []
  events (event_arrives e ∷ ss) = e ∷ events ss
  events (reconciles ∷ ss) = events ss

  abbrev pub IsSilent : Result (List Command) → Type 0
  IsSilent r = (cs : List Command) → r ≡ ok cs → cs ≡ []

  perform_all-IsOpen :
      (ss : List (Step inner configs secrets publish)) (w : Wrapper inner configs secrets publish)
      → IsOpen (events ss) w.expected_events
      → let (rs, u) = perform_all inner configs secrets publish ss w in
        (u.scaler ≡ w.scaler) × All IsSilent rs
  unfolding perform_all perform
  perform_all-IsOpen [] w h = (refl, tt)
  perform_all-IsOpen (event_arrives e ∷ ss) w h =
      let (left, same, silent) =
        handle_event_pending e w
          (IsOpen-ne-nil (events (event_arrives e ∷ ss)) w.expected_events h) in
      let (later, quiet) =
        perform_all-IsOpen ss (handle_event inner configs secrets publish e w).1
          (rw left (unanswered-IsOpen e (events ss) w.expected_events h)) in
      (later ∙ same, (silent, quiet))
  perform_all-IsOpen (reconciles ∷ ss) w h =
      let e =
        perform-waiting inner configs secrets publish reconciles w
          (inl (IsOpen-ne-nil (events ss) w.expected_events h)) tt in
      rw e (
        let (later, quiet) = perform_all-IsOpen ss w h in
        (later, ((λ cs k. ground (arith, k)), quiet)))

  -- When a wrapper that does not wait reconciles, its configuration and secrets ask for nothing,
  -- and the wrapped scaler answers with commands, then the commands that the reconciliation returns
  -- are these, and their events are expected. No later sequence of reconciliations and of events of
  -- any kind yields a command or reaches the wrapped scaler, as long as one of the expected pairs
  -- is answered by none of the events. The timers, and the methods cleanup and update_config, which
  -- do not look at what is expected, are no steps of the sequence.
  pub reconcile_once :
      (w : Wrapper inner configs secrets publish) (cs : List Command) (s : S)
      (ss : List (Step inner configs secrets publish))
      → (w.expected_events ≡ []) × (w.backoff_status ≡ none)
      → (reconcile_all configs.reconcile w.required_config).0 ≡ ok []
      → (reconcile_all secrets.reconcile w.required_secrets).0 ≡ ok []
      → inner.reconcile w.scaler ≡ (ok cs, s)
      → IsOpen (events ss) (expects inner configs secrets publish cs)
      → let (r, t) = reconcile inner configs secrets publish w in
        let (rs, u) = perform_all inner configs secrets publish ss t in
        (t.expected_events ≡ expects inner configs secrets publish cs)
        × ((ds : List Command) → r ≡ ok ds → ds ≡ cs)
        × (u.scaler ≡ s)
        × All IsSilent rs
  reconcile_once w cs s ss free hc hs hi open_pair = rw (reconcile-nil w cs s free hc hs hi) (
      let (expected, kept, same) = settle_lem cs _ free.0 in
      let (left_alone, silent) = perform_all-IsOpen ss _ (rw expected open_pair) in
      (expected, same, left_alone ∙ kept, silent))
