-- ===== src/Worker/Scalers/Unchanged.antt =====
-- What the runs of the scalers do not change: the stored state.
use wadm.Prelude.{
  String, ◌≡◌, refl, ◌∙◌, inl, inr, Option, none, some, List, [], ◌∷◌, Map, lookup, Result, ok, err,
  Option-cases, Result-cases,
}
use wadm.Prelude.Actions.{Action, resume, ◌>>=◌}
use wadm.External.{External}
use wadm.Event.{Event}
use wadm.Manifest.{Manifest}
use wadm.Command.{Command}
use wadm.Scaler.Backoff.{Notification, create_scalers, delete_scalers}
use wadm.Scaler.Manager.{
  Surroundings, Manager, Status, add_scalers, remove_scalers, get_scalers, remove_scalers_internal,
  cleanup_removed, cleanup_refreshed, publish_cleaned, publish_cleanup, removed_internal,
  notify_removed, restore, add_raw_scalers,
}
use wadm.Storage.Store.Contract.{Lattice}
use wadm.Worker.Scalers.{
  step_scalers, publish, refresh_data, run_hinted, run_scalers_with_hint, step_all, run_all,
  run_all_scalers, reconcile_added, replace_scalers, handle_manifest_published,
}

-- What happens outside leaves the stored state alone.
pub record LeavesState {x : External} {S w : Type 0} (env : Surroundings x S w)
    (view : w → Lattice x) : Type 0 where
  pub refresh : (o : w) → view (env.refresh o).1 ≡ view o
  pub publish_commands : (cs : List Command) (o : w) → view (env.publish_commands cs o).1 ≡ view o
  pub publish_status :
      (name : String) (s : Status) (o : w) → view (env.publish_status name s o).1 ≡ view o
  pub notify : (n : Notification x) (o : w) → view (env.notify n o).1 ≡ view o

module _ {x : External} {S w : Type 0} (env : Surroundings x S w) (view : w → Lattice x)
    (leaves : LeavesState env view) where
  -- The stored state is the same.
  abbrev pub Same : Manager S w → Manager S w → Type 0
  Same m n = view n.outside ≡ view m.outside

  pub Same-bind :
      {A B : Type 0} (a : Action (Manager S w) A) (f : A → Action (Manager S w) B) (m : Manager S w)
      → Same m (a m).1
      → ((v : A) (n : Manager S w) → Same n (f v n).1)
      → Same m ((a >>= f) m).1
  unfolding ◌>>=◌
  Same-bind a f m h k = elim (Result-cases (a m).0) [
    | inl (v, e) ↦ rw (e, resume) (k v (a m).1 ∙ h)
    | inr (_, e) ↦ rw (e, resume) h
  ]

  step_all-Same :
      (e : Event x) (apps : Map (List S)) (m : Manager S w) → Same m (step_all env e apps m).2
  unfolding step_all step_scalers
  step_all-Same e [] m = refl
  step_all-Same e ((name, ss) ∷ rest) m =
      step_all-Same e rest _ ∙ leaves.publish_status name _ m.outside

  pub run_all_scalers-Same : (e : Event x) (m : Manager S w) → Same m (run_all_scalers env e m).1
  unfolding run_all_scalers run_all
  run_all_scalers-Same e m =
      Same-bind (refresh_data env) (λ _. run_all env e) m (leaves.refresh m.outside)
        (λ _ n.
          Same-bind (publish env (step_all env e n.scalers n).0) _ (step_all env e n.scalers n).2
            (leaves.publish_commands _ _) (λ _ l. refl)
          ∙ step_all-Same e n.scalers n)

  run_hinted-Same :
      (e : Event x) (name : String) (ss : List S) (m : Manager S w)
      → Same m (run_hinted env e name ss m).1
  unfolding run_hinted step_scalers
  run_hinted-Same e name ss m =
      Same-bind (publish env _) _ _ (leaves.publish_commands _ _) (λ _ l. refl)
      ∙ leaves.publish_status name _ m.outside

  pub run_scalers_with_hint-Same :
      (e : Event x) (name : String) (m : Manager S w)
      → Same m (run_scalers_with_hint env e name m).1
  unfolding run_scalers_with_hint
  run_scalers_with_hint-Same e name m = elim (Option-cases (get_scalers name m)) [
    | inl k ↦ rw (k, run_scalers_with_hint) refl
    | inr (ss, k) ↦
        rw (k, run_scalers_with_hint)
          (Same-bind (refresh_data env) (λ _. run_hinted env e name ss) m (leaves.refresh m.outside)
            (λ _ n. run_hinted-Same e name ss n))
  ]

  add_scalers-Same :
      (manifest : Manifest x.Value) (ss : List S) (m : Manager S w)
      → Same m (add_scalers env manifest ss m).1
  unfolding add_scalers
  add_scalers-Same manifest ss m =
      elim (Result-cases (env.notify (create_scalers manifest) m.outside).0) [
        | inr (_, k) ↦ rw (k, add_scalers) (leaves.notify _ m.outside)
        | inl (_, k) ↦
            elim (Option-cases
              (get_scalers manifest.metadata.name (add_raw_scalers manifest.metadata.name ss m))) [
                | inl f ↦ rw (k, add_scalers, f) (leaves.notify _ m.outside)
                | inr (_, f) ↦ rw (k, add_scalers, f) (leaves.notify _ m.outside)
              ]
      ]

  reconcile_added-Same :
      (name : String) (cleanup : List Command) (ss : List S) (m : Manager S w)
      → Same m (reconcile_added env name cleanup ss m).1
  unfolding reconcile_added step_scalers
  reconcile_added-Same name cleanup ss m =
      Same-bind (publish env _) _ _ (leaves.publish_commands _ _)
        (λ _ l. leaves.publish_commands cleanup l.outside)
      ∙ leaves.publish_status name _ m.outside

  pub handle_manifest_published-Same :
      (manifest : Manifest x.Value) (m : Manager S w)
      → Same m (handle_manifest_published env manifest m).1
  unfolding handle_manifest_published replace_scalers
  handle_manifest_published-Same manifest m =
      Same-bind (refresh_data env) _ _ (leaves.refresh m.outside) (λ _ n.
        Same-bind (add_scalers env manifest _) _ n (add_scalers-Same manifest _ n)
          (λ ss l. reconcile_added-Same manifest.metadata.name _ ss l))

  publish_cleaned-Same :
      (name : String) (ss : List S) (r : Result (List Command)) (m : Manager S w)
      → Same m (publish_cleaned env name ss r m).1
  unfolding publish_cleaned publish_cleanup
  publish_cleaned-Same name ss (err e) m = refl
  publish_cleaned-Same name ss (ok commands) m =
      elim (Result-cases (env.publish_commands commands m.outside).0) [
        | inr (_, k) ↦ rw (k, publish_cleanup) (leaves.publish_commands commands m.outside)
        | inl (_, k) ↦ rw (k, publish_cleanup) (leaves.publish_commands commands m.outside)
      ]

  cleanup_removed-Same :
      (name : String) (found : Option (List S)) (m : Manager S w)
      → Same m (cleanup_removed env name found m).1
  unfolding cleanup_removed cleanup_refreshed
  cleanup_removed-Same name none m = refl
  cleanup_removed-Same name (some ss) m = elim (Result-cases (env.refresh m.outside).0) [
    | inr (_, k) ↦ rw (k, cleanup_refreshed) (leaves.refresh m.outside)
    | inl (_, k) ↦
        rw (k, cleanup_refreshed) (publish_cleaned-Same name _ _ _ ∙ leaves.refresh m.outside)
  ]

  restore-Same :
      (name : String) (ss : Option (List S)) (m : Manager S w) → Same m (restore name ss m)
  restore-Same name none m = refl
  restore-Same name (some ss) m = refl

  notify_removed-Same :
      (name : String) (ss : Option (List S)) (m : Manager S w)
      → Same m (notify_removed env name ss m).1
  unfolding notify_removed
  notify_removed-Same name ss m =
      elim (Result-cases (env.notify (delete_scalers name) m.outside).0) [
        | inl (_, k) ↦ rw (k, notify_removed) (leaves.notify _ m.outside)
        | inr (_, k) ↦ rw (k, notify_removed) (restore-Same name ss _ ∙ leaves.notify _ m.outside)
      ]

  removed_internal-Same :
      (name : String) (r : Option (Result (List S))) (m : Manager S w)
      → Same m (removed_internal env name r m).1
  unfolding removed_internal
  removed_internal-Same name none m = notify_removed-Same name none m
  removed_internal-Same name (some (ok ss)) m = notify_removed-Same name (some ss) m
  removed_internal-Same name (some (err e)) m = refl

  pub remove_scalers-Same : (name : String) (m : Manager S w) → Same m (remove_scalers env name m).1
  unfolding remove_scalers remove_scalers_internal
  remove_scalers-Same name m =
      removed_internal-Same name _ _ ∙ cleanup_removed-Same name (lookup name m.scalers) _
