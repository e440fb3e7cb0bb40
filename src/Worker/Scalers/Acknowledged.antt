-- ===== src/Worker/Scalers/Acknowledged.antt =====
-- An event that is acknowledged has left a consistent state.
use wadm.Prelude.{
  ℕ, String, ◌≡◌, refl, sym, ap, subst, arith, inl, inr, Option, none, some, Map, Result, ok, err,
  Option-cases, Result-cases,
}
use wadm.Prelude.Actions.{Ensures, Ensures-bind}
use wadm.External.{External}
use wadm.Event.{Event}
use wadm.Scaler.Manager.{Surroundings, Manager, with_outside, remove_scalers}
use wadm.Storage.Store.{Store}
use wadm.Storage.Store.Contract.{IsStore, Lattice}
use wadm.Worker.Heartbeat.{Claims}
use wadm.Worker.Consistency.{IsConsistent}
use wadm.Worker.Consistency.Runs.{update_state-Ensures}
use wadm.Worker.Scalers.{
  published, unpublished, handle_manifest_published, handle_event, run_scalers, settle, do_work,
  acked,
}
use wadm.Worker.Scalers.Unchanged.{
  LeavesState, Same, Same-bind, run_all_scalers-Same, run_scalers_with_hint-Same,
  handle_manifest_published-Same, remove_scalers-Same,
}

module _ {x : External} {S w : Type 0} (env : Surroundings x S w) (view : w → Lattice x)
    (leaves : LeavesState env view) where
  Same-Ensures :
      {A : Type 0} (r : Result A × Manager S w) (m : Manager S w)
      → Same env view leaves m r.1
      → IsConsistent (view m.outside)
      → Ensures r (λ _ n. IsConsistent (view n.outside))
  Same-Ensures r m same v = record {
    at = λ a n e.
        let q : r.1 ≡ n = ap (λ p. p.1) e in
        subst (λ n. IsConsistent (view n.outside)) q (subst IsConsistent (sym same) v);
  }

  run_scalers-Ensures :
      (e : Event x) (hint : Option String) (m : Manager S w)
      → IsConsistent (view m.outside)
      → Ensures (run_scalers env e hint m) (λ _ n. IsConsistent (view n.outside))
  unfolding run_scalers
  run_scalers-Ensures e none m v = Same-Ensures _ m (run_all_scalers-Same env view leaves e m) v
  run_scalers-Ensures e (some name) m v =
      Same-Ensures _ m (run_scalers_with_hint-Same env view leaves e name m) v

  settled_lem :
      (r : Result (Unit {0}) × Manager S w) (Q : Manager S w → Type 0)
      → Ensures r (λ _ n. Q n)
      → settle r.0 ≡ acked
      → Q r.1
  settled_lem r Q h k = elim (Result-cases r.0) [
    | inl (v, e) ↦ h.at v r.1 (λ i. (e i, r.1))
    | inr (f, e) ↦ absurd (ground (arith, e, k))
  ]

  lifted :
      {A : Type 0} (r : Result A × w) (Q : A → w → Type 0) (m : Manager S w)
      → Ensures r Q
      → Ensures (r.0, with_outside r.1 m) (λ a n. Q a n.outside)
  lifted r Q m h = record {
    at = λ a n e.
        let q : with_outside r.1 m ≡ n = ap (λ p. p.1) e in
        let k : r.0 ≡ ok a = ap (λ p. p.0) e in
        subst (λ n. Q a n.outside) q (h.at a r.1 (λ i. (k i, r.1)));
  }

  module _ (db : Store x w) (is_store : IsStore db view)
      (get_claims : w → Result (Map Claims)) where
    handle_event-Ensures :
        (now : ℕ) (e : Event x) (m : Manager S w)
        → IsConsistent (view m.outside)
        → Ensures (handle_event env db get_claims now e m) (λ _ n. IsConsistent (view n.outside))
    unfolding handle_event
    handle_event-Ensures now e m v = elim (Option-cases (published e)) [
      | inl k ↦
          rw (k, handle_event)
            (lifted _ (λ _ o. IsConsistent (view o)) m
              (update_state-Ensures db view is_store get_claims now e m.outside v))
      | inr (manifest, k) ↦
          rw (k, handle_event)
            (Same-Ensures _ m
              (Same-bind env view leaves (handle_manifest_published env manifest) _ m
                (handle_manifest_published-Same env view leaves manifest m) (λ _ n. refl))
              v)
    ]

    acked_lem :
        (now : ℕ) (e : Event x) (m : Manager S w)
        → IsConsistent (view m.outside)
        → (do_work env db get_claims now e m).0 ≡ acked
        → IsConsistent (view (do_work env db get_claims now e m).1.outside)
    unfolding do_work
    acked_lem now e m v = elim (Option-cases (unpublished e)) [
      | inl k ↦
          rw (k, do_work)
            (settled_lem _ (λ n. IsConsistent (view n.outside))
              (Ensures-bind (handle_event env db get_claims now e) (run_scalers env e) m _
                (handle_event-Ensures now e m v) (λ hint n c. run_scalers-Ensures e hint n c)))
      | inr (name, k) ↦
          rw (k, do_work)
            (let kept = subst IsConsistent (sym (remove_scalers-Same env view leaves name m)) v in
              elim (Option-cases (remove_scalers env name m).0) [
                | inl f ↦ rw f (λ a.
                    subst IsConsistent
                      (sym (run_all_scalers-Same env view leaves e (remove_scalers env name m).1))
                      kept)
                | inr (ok _, f) ↦ rw f (λ a. kept)
                | inr (err _, f) ↦ rw f (λ a. absurd (ground (arith, a)))
              ])
    ]

    -- An event that is acknowledged leaves a consistent state consistent, whatever the scalers do,
    -- where nothing but the store's operations changes the stored state.
    pub do_work-IsConsistent :
        (now : ℕ) (e : Event x) (m n : Manager S w)
        → IsConsistent (view m.outside)
        → do_work env db get_claims now e m ≡ (acked, n)
        → IsConsistent (view n.outside)
    do_work-IsConsistent now e m n v done =
        subst (λ n. IsConsistent (view n.outside)) (ap (λ p. p.1) done)
          (acked_lem now e m v (ap (λ p. p.0) done))
