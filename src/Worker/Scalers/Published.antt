-- ===== src/Worker/Scalers/Published.antt =====
-- What the scalers of an application are once its manifest was published.
use wadm.Prelude.{
  String, ◌≡◌, refl, sym, ◌∙◌, ap, subst, arith, inl, inr, true, Option, some, List, [], ◌∷◌, map,
  lookup, is_empty, Result, ok, All, Result-cases, Bool-cases,
}
use wadm.Prelude.Actions.{Ensures, Ensures-imp, Ensures-bind}
use wadm.External.{External}
use wadm.Manifest.{Manifest}
use wadm.Command.{Command}
use wadm.Scaler.{Scaler}
use wadm.Scaler.Backoff.{get_commands_and_result, create_scalers}
use wadm.Scaler.Manager.{
  Surroundings, Manager, with_outside, add_scalers, add_raw_scalers, without_scalers,
}
use wadm.Scaler.Manager.Ways.{SameOthers, others_gone, added, others_added}
use wadm.Worker.Scalers.{
  map_to_result, scaler_statuses, detailed_scaler_status, step_scalers, publish, refresh_data,
  reconcile_added, replace_scalers, handle_manifest_published, cleanup_commands,
}

module _ {S : Type 0} (f : S → Result (List Command) × S) where
  abbrev pub Succeeds : S → Type 0
  Succeeds s = (commands : List Command) × ((f s).0 ≡ ok commands)

  states_lem : (ss : List S) → (get_commands_and_result f ss).2 ≡ map (λ s. (f s).1) ss
  unfolding get_commands_and_result
  states_lem [] = refl
  states_lem (s ∷ ss) = elim (Result-cases (f s).0) [
    | inl (_, k) ↦ rw (k, get_commands_and_result) (ap (λ t. (f s).1 ∷ t) (states_lem ss))
    | inr (_, k) ↦ rw (k, get_commands_and_result) (ap (λ t. (f s).1 ∷ t) (states_lem ss))
  ]

  no_errors-All : (ss : List S) → is_empty (get_commands_and_result f ss).1 ≡ true → All Succeeds ss
  unfolding get_commands_and_result
  no_errors-All [] h = tt
  no_errors-All (s ∷ ss) h = elim (Result-cases (f s).0) [
    | inl (commands, k) ↦ ((commands, k), no_errors-All ss (ground (arith, k, h)))
    | inr (_, k) ↦ absurd (ground (arith, k, h))
  ]

module _ {x : External} {S : Type 0} (methods : Scaler x S) where
  statuses-states :
      (ss : List S) → (scaler_statuses methods ss).1 ≡ map (λ s. (methods.status s).1) ss
  unfolding scaler_statuses
  statuses-states [] = refl
  statuses-states (s ∷ ss) = ap (λ t. (methods.status s).1 ∷ t) (statuses-states ss)

map-map :
    {A B C : Type 0} (g : B → C) (f : A → B) (xs : List A)
    → map g (map f xs) ≡ map (λ a. g (f a)) xs
map-map g f [] = refl
map-map g f (a ∷ xs) = ap (λ t. g (f a) ∷ t) (map-map g f xs)

module _ {x : External} {S w : Type 0} (env : Surroundings x S w) where
  -- A scaler that was reconciled and asked for its status.
  abbrev pub started : w → S → S
  started o s = ((env.scaler o).status ((env.scaler o).reconcile s).1).1

  publish-effect :
      (commands : List Command) (m : Manager S w)
      → Ensures (publish env commands m) (λ _ n. n.scalers ≡ m.scalers)
  publish-effect commands m = record { at = λ _ n e. sym (ap (λ p. p.1.scalers) e) }

  reconcile_added-effect :
      (name : String) (cleanup : List Command) (ss : List S) (m : Manager S w)
      → Ensures (reconcile_added env name cleanup ss m) (λ _ n.
        (lookup name n.scalers ≡ some (map (started m.outside) ss))
        × SameOthers name m n
        × All (Succeeds (env.scaler m.outside).reconcile) ss)
  unfolding reconcile_added step_scalers detailed_scaler_status map_to_result
  reconcile_added-effect name cleanup ss m =
      let methods = env.scaler m.outside in
      let run = get_commands_and_result methods.reconcile ss in
      let states : (scaler_statuses methods run.2).1 ≡ map (started m.outside) ss =
        statuses-states methods run.2
        ∙ ap (map (λ s. (methods.status s).1)) (states_lem methods.reconcile ss)
        ∙ map-map (λ s. (methods.status s).1) (λ s. (methods.reconcile s).1) ss in
      Ensures-bind (publish env run.0) _ _ _ (publish-effect run.0 _) (λ _ t same. record {
        at = λ _ n e.
            let kept : t.scalers ≡ n.scalers = ap (λ p. p.1.scalers) e in
            let now = sym kept ∙ same in
            elim (Bool-cases (is_empty run.1)) [
              | inr k ↦ absurd (ground (arith, k, e))
              | inl k ↦ (
                ap (lookup name) now ∙ added name _ m ∙ ap some states,
                λ other d. ap (lookup other) now ∙ others_added name _ m other d,
                no_errors-All methods.reconcile ss k,
              )
            ];
      })

  add_scalers-effect :
      (manifest : Manifest x.Value) (ss : List S) (m : Manager S w)
      → let name = manifest.metadata.name in
        Ensures (add_scalers env manifest ss m) (λ found n.
          (found ≡ ss)
          × (n
              ≡ with_outside
                  (env.notify (create_scalers manifest) m.outside).1
                  (add_raw_scalers name ss m)))
  unfolding add_scalers
  add_scalers-effect manifest ss m =
      let name = manifest.metadata.name in
      let there = added name ss m in
      elim (Result-cases (env.notify (create_scalers manifest) m.outside).0) [
        | inr (f, k) ↦ rw (k, add_scalers) (record { at = λ _ n e. absurd (ground (arith, e)) })
        | inl (_, k) ↦
            rw (k, add_scalers, there)
              (record { at = λ found n e. (sym (ground (arith, e)), sym (ap (λ p. p.1) e)) })
      ]

  -- The world when the new scalers start.
  abbrev pub announced : Manifest x.Value → Manager S w → w
  announced manifest m = (env.notify (create_scalers manifest) (env.refresh m.outside).1).1

  pub record IsPublished (manifest : Manifest x.Value) (m n : Manager S w) : Type 0 where
    pub registered :
        lookup manifest.metadata.name n.scalers
        ≡ some (map (started (announced manifest m)) (env.scalers_for_manifest manifest))
    pub others : SameOthers manifest.metadata.name m n
    pub reconciled :
        All
          (Succeeds (env.scaler (announced manifest m)).reconcile)
          (env.scalers_for_manifest manifest)

  -- What holds of `n` where the new scalers start in `o`.
  abbrev Replaced : Manifest x.Value → w → Manager S w → Manager S w → Type 0
  Replaced manifest o t n =
      let new = env.scalers_for_manifest manifest in
      (lookup manifest.metadata.name n.scalers ≡ some (map (started o) new))
      × SameOthers manifest.metadata.name t n
      × All (Succeeds (env.scaler o).reconcile) new

  replace_scalers-effect :
      (manifest : Manifest x.Value) (old : Option (List S)) (t : Manager S w)
      → Ensures
          (replace_scalers env manifest old t)
          (λ _ n. Replaced manifest (env.notify (create_scalers manifest) t.outside).1 t n)
  unfolding replace_scalers
  replace_scalers-effect manifest old t =
      let name = manifest.metadata.name in
      let new = env.scalers_for_manifest manifest in
      let o = (env.notify (create_scalers manifest) t.outside).1 in
      let told = with_outside o (add_raw_scalers name new t) in
      let cleanup = cleanup_commands (env.scaler t.outside) new old in
      Ensures-bind (add_scalers env manifest new) (reconcile_added env name cleanup) t _
        (add_scalers-effect manifest new t)
        (λ found n (same, at).
          let here =
            Ensures-imp _ _ (reconcile_added-effect name cleanup new told)
              (λ _ l (now, others, done).
                (now, λ other d. others other d ∙ others_added name new t other d, done)) in
          subst
            (λ f. Ensures (reconcile_added env name cleanup f n) (λ _ l. Replaced manifest o t l))
            (sym same)
            (subst
              (λ n.
                Ensures (reconcile_added env name cleanup new n) (λ _ l. Replaced manifest o t l))
              (sym at) here))

  IsPublished-Ensures :
      (manifest : Manifest x.Value) (m : Manager S w)
      → Ensures (handle_manifest_published env manifest m) (λ _ n. IsPublished manifest m n)
  unfolding handle_manifest_published
  IsPublished-Ensures manifest m =
      let name = manifest.metadata.name in
      let old = lookup name m.scalers in
      let fresh = with_outside (env.refresh m.outside).1 (without_scalers name m) in
      Ensures-bind (refresh_data env) (λ _. replace_scalers env manifest old)
        (without_scalers name m) _
        (record { at = λ _ t e. let q : fresh ≡ t = ap (λ p. p.1) e in q })
        (λ _ t q.
          subst
            (λ t. Ensures (replace_scalers env manifest old t) (λ _ n. IsPublished manifest m n)) q
            (Ensures-imp _ _ (replace_scalers-effect manifest old fresh) (λ _ n (now, others, done).
              record {
                registered = now;
                others = λ other d. others other d ∙ others_gone name m other d;
                reconciled = done;
              })))

  -- After a manifest was handled without an error, the scalers of its application are exactly the
  -- new ones, each reconciled, without an error, and asked for its status after the others were
  -- told; the scalers of every other application are the same.
  pub handle_manifest_published-IsPublished :
      (manifest : Manifest x.Value) (m n : Manager S w)
      → handle_manifest_published env manifest m ≡ (ok tt, n)
      → IsPublished manifest m n
  handle_manifest_published-IsPublished manifest m n done =
      (IsPublished-Ensures manifest m).at tt n done
