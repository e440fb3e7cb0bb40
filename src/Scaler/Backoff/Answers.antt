-- ===== src/Scaler/Backoff/Answers.antt =====
-- The events of the lattice that answer a command.
use wadm.Prelude.{
  String, ◌≡◌, ◌↔◌, ◌⊎◌, inl, inr, refl, sym, ◌∙◌, arith, Bool, true, false, ◌&&◌, ◌||◌, Option,
  none, some, List, [], ◌∷◌, Map, lookup, keys, All, any, AnyOf, filter_map, Distinct,
  insert-Distinct, lookup-insert, if◌then◌else◌, ◌==◌, eq_iff,
}
use wadm.External.{External}
use wadm.Event.{
  Event, component_scaled, component_scale_failed, provider_started, provider_start_failed,
}
use wadm.Event.Matching.{evt_matches_expected, map_eq}
use wadm.Event.Matching.Equality.{map_eq_iff}
use wadm.Command.{
  Command, scale_component, start_provider, corresponding_event, insert_managed_annotations,
  managed_by_annotation, managed_by_identifier, app_spec_annotation,
}
use wadm.Scaler.Backoff.Waiting.{answers, fails}

-- A command's annotations have distinct keys.
abbrev pub IsAnnotated : Command → Type 0
IsAnnotated (scale_component c) = Distinct (keys c.annotations)
IsAnnotated (start_provider c) = Distinct (keys c.annotations)
IsAnnotated _ = Unit

-- So have the annotations of an event, which are a map.
abbrev pub IsKeyed : {x : External} → Event x → Type 0
IsKeyed (component_scaled e) = Distinct (keys e.annotations)
IsKeyed (component_scale_failed e) = Distinct (keys e.annotations)
IsKeyed (provider_started e) = Distinct (keys e.annotations)
IsKeyed _ = Unit

-- The given annotations are those of a command and two more: the name of the application and wadm
-- as the manager, which override the own ones.
abbrev pub IsManaged : Map String → String → Map String → Type 0
IsManaged own model_name given =
    (key : String)
    → lookup key given ≡ (
        if app_spec_annotation == key
        then some model_name
        else (if managed_by_annotation == key then some managed_by_identifier else lookup key own))

-- The event reports that the command was carried out: on its host, for its component or provider
-- and its reference, with its annotations.
abbrev pub Succeeds : {x : External} → Command → Event x → Type 0
Succeeds (scale_component c) (component_scaled e) =
    IsManaged c.annotations c.model_name e.annotations
    × (c.reference ≡ e.image_ref)
    × (c.component_id ≡ e.component_id)
    × (c.host_id ≡ e.host_id)
Succeeds (start_provider c) (provider_started e) =
    IsManaged c.annotations c.model_name e.annotations
    × (c.reference ≡ e.image_ref)
    × (c.provider_id ≡ e.provider_id)
    × (c.host_id ≡ e.host_id)
Succeeds _ _ = ⊥

-- The event reports that the command failed.
abbrev pub Fails : {x : External} → Command → Event x → Type 0
Fails (scale_component c) (component_scale_failed e) =
    IsManaged c.annotations c.model_name e.annotations
    × (c.reference ≡ e.image_ref)
    × (c.component_id ≡ e.component_id)
    × (c.host_id ≡ e.host_id)
Fails (start_provider c) (provider_start_failed e) =
    (c.provider_id ≡ e.provider_id) × (c.host_id ≡ e.host_id) × (c.reference ≡ e.provider_ref)
Fails _ _ = ⊥

-- A test for a proposition.
abbrev Tests : Bool → Type 0 → Type 0
Tests b P = (b ≡ true) ↔ P

Tests_never : Tests false ⊥
Tests_never = (λ e. absurd (ground (arith, e)), λ z. absurd z)

Tests_and : {P Q : Type 0} (b c : Bool) → Tests b P → Tests c Q → Tests (b && c) (P × Q)
Tests_and true c (f, g) (h, i) = (λ e. (f refl, h e), λ p. i p.1)
Tests_and false c (f, g) (h, i) = (λ e. absurd (ground (arith, e)), λ p. g p.0)

Tests_or : {P Q : Type 0} (b c : Bool) → Tests b P → Tests c Q → Tests (b || c) (P ⊎ Q)
Tests_or true c (f, g) (h, i) = (λ e. inl (f refl), λ p. refl)
Tests_or false c (f, g) (h, i) =
    (λ e. inr (h e), λ p. elim p [ inl z ↦ absurd (ground (arith, g z)) | inr q ↦ i q ])

lookup-managed :
    (own : Map String) (model_name key : String)
    → lookup key (insert_managed_annotations own model_name) ≡ (
        if app_spec_annotation == key
        then some model_name
        else (if managed_by_annotation == key then some managed_by_identifier else lookup key own))
unfolding insert_managed_annotations
lookup-managed own model_name key =
    lookup-insert app_spec_annotation key model_name _
    ∙ rw (lookup-insert managed_by_annotation key managed_by_identifier own) refl

IsManaged-Tests :
    (own given : Map String) (model_name : String)
    → Distinct (keys own)
    → Distinct (keys given)
    → Tests
        (map_eq (insert_managed_annotations own model_name) given)
        (IsManaged own model_name given)
unfolding insert_managed_annotations
IsManaged-Tests own given model_name d k =
    let (to, from) =
      map_eq_iff (insert_managed_annotations own model_name) given
        (insert-Distinct _ _ _ (insert-Distinct _ _ own d)) k in
    (
      λ e key. sym (to e key) ∙ lookup-managed own model_name key,
      λ h. from (λ key. lookup-managed own model_name key ∙ sym (h key)),
    )

Tests_last : {P : Type 0} (b : Bool) → Tests b P → Tests (b || false) P
Tests_last true t = t
Tests_last false t = t

reports-Tests :
    {P : Type 0} (m : Bool) (a b c d e f : String)
    → Tests m P
    → Tests (m && a == b && c == d && e == f) (P × (a ≡ b) × (c ≡ d) × (e ≡ f))
reports-Tests m a b c d e f t =
    let (to, from) =
      Tests_and _ _ (Tests_and _ _ (Tests_and _ _ t (eq_iff a b)) (eq_iff c d)) (eq_iff e f) in
    (λ h. let (((p, q), r), s) = to h in (p, q, r, s), λ (p, q, r, s). from (((p, q), r), s))

identifies-Tests :
    (a b c d e f : String) → Tests (a == b && c == d && e == f) ((a ≡ b) × (c ≡ d) × (e ≡ f))
identifies-Tests a b c d e f =
    let (to, from) = Tests_and _ _ (Tests_and _ _ (eq_iff a b) (eq_iff c d)) (eq_iff e f) in
    (λ h. let ((p, q), r) = to h in (p, q, r), λ (p, q, r). from ((p, q), r))

any-filter_map :
    {A B : Type 0} (p : B → Bool) (f : A → Option B) (a : A) (rest : List A)
    → any p (filter_map f (a ∷ rest)) ≡ (any p (filter_map f (a ∷ [])) || any p (filter_map f rest))
any-filter_map {B = B} p f a rest = kept (f a)
  where
    kept :
        (o : Option B)
        → any p (elim o [ none ↦ filter_map f rest | some y ↦ y ∷ filter_map f rest ])
          ≡ (any p (elim o [ none ↦ [] | some y ↦ y ∷ [] ]) || any p (filter_map f rest))
    kept none = refl
    kept (some b) = ground arith

succeeded : {P : Type 0} (b : Bool) → Tests b P → Tests ((b || false) || false) (P ⊎ ⊥)
succeeded b t = Tests_or (b || false) false (Tests_last b t) Tests_never

failed : {P : Type 0} (b : Bool) → Tests b P → Tests (b || false) (⊥ ⊎ P)
failed b t = Tests_last b (Tests_or false b Tests_never t)

unrelated : Tests false (⊥ ⊎ ⊥)
unrelated = Tests_or false false Tests_never Tests_never

-- The commands expect pairs, and the event answers one of them, and is its failure.
abbrev pub answers_any : {x : External} → Event x → List Command → Bool
answers_any event commands = any (answers event) (filter_map corresponding_event commands)

abbrev pub fails_any : {x : External} → Event x → List Command → Bool
fails_any event commands = any (fails event) (filter_map corresponding_event commands)

module _ {x : External} where
  abbrev IsJudged : Command → Event x → Type 0
  IsJudged c event =
      Tests (answers_any event (c ∷ [])) (Succeeds c event ⊎ Fails c event)
      × Tests (fails_any event (c ∷ [])) (Fails c event)

  command-IsJudged :
      (c : Command) (event : Event x) → IsAnnotated c → IsKeyed event → IsJudged c event
  unfolding corresponding_event evt_matches_expected
  command-IsJudged (scale_component c) (component_scaled e) d k =
      let t = IsManaged-Tests c.annotations e.annotations c.model_name d k in
      (succeeded _ (reports-Tests _ _ _ _ _ _ _ t), Tests_never)
  command-IsJudged (scale_component c) (component_scale_failed e) d k =
      let t = IsManaged-Tests c.annotations e.annotations c.model_name d k in
      let r = reports-Tests _ _ _ _ _ _ _ t in (failed _ r, Tests_last _ r)
  command-IsJudged (scale_component c) _ d k = (unrelated, Tests_never)
  command-IsJudged (start_provider c) (provider_started e) d k =
      let t = IsManaged-Tests c.annotations e.annotations c.model_name d k in
      (succeeded _ (reports-Tests _ _ _ _ _ _ _ t), Tests_never)
  command-IsJudged (start_provider c) (provider_start_failed e) d k =
      let r = identifies-Tests _ _ _ _ _ _ in (failed _ r, Tests_last _ r)
  command-IsJudged (start_provider c) _ d k = (unrelated, Tests_never)
  command-IsJudged _ _ d k = (unrelated, Tests_never)

  -- Where the annotations of some commands and of an event have distinct keys: the event answers a
  -- pair that the commands expect exactly when it reports of one of them that it was carried out, or
  -- that it failed, and it answers one as a failure exactly when it reports that one failed.
  pub corresponding_event-answered_iff :
      (commands : List Command) (event : Event x)
      → All IsAnnotated commands
      → IsKeyed event
      → ((answers_any event commands ≡ true)
          ↔ AnyOf (λ c. Succeeds c event ⊎ Fails c event) commands)
        × ((fails_any event commands ≡ true) ↔ AnyOf (λ c. Fails c event) commands)
  corresponding_event-answered_iff [] event d k = (Tests_never, Tests_never)
  corresponding_event-answered_iff (c ∷ cs) event (d, ds) k =
      let (answered, refused) = command-IsJudged c event d k in
      let (later, late) = corresponding_event-answered_iff cs event ds k in
      rw
        (
          any-filter_map (answers event) corresponding_event c cs,
          any-filter_map (fails event) corresponding_event c cs,
        )
        (Tests_or _ _ answered later, Tests_or _ _ refused late)
