-- ===== src/Scaler/Manager/Removal.antt =====
-- What `remove_scalers` leaves, on success and on failure.
use wadm.Prelude.{
  String, ◌≡◌, refl, ◌∙◌, ap, subst, arith, ◌⊎◌, inl, inr, Option, none, some, List, map, flat_map,
  lookup, Result, ok, err, Result-cases,
}
use wadm.External.{External}
use wadm.Command.{Command}
use wadm.Scaler.Backoff.{delete_scalers}
use wadm.Scaler.Manager.{
  Surroundings, Manager, cleanup_all, with_outside, add_raw_scalers, without_scalers,
  cleanup_refreshed, cleanup_removed, remove_scalers_internal, notify_removed, removed_internal,
  remove_scalers,
}
use wadm.Scaler.Manager.Ways.{
  cleanup_all-eq-ok, SameOthers, gone, others_gone, added, others_added, refreshed, clean, rest,
  IsRemoved, missing, unrefreshed, kept, cleaned, internal-IsRemoved,
}

module _ {x : External} {S w : Type 0} (env : Surroundings x S w) (name : String)
    (m : Manager S w) where
  -- The removal failed, and the scalers are as before, in the state that their cleanup left; or the
  -- refresh of the snapshot failed, and they are lost; or there were none.
  abbrev pub IsFailed : String → Manager S w → Type 0
  IsFailed e n =
      ((lookup name m.scalers ≡ none) × (lookup name n.scalers ≡ none))
      ⊎ ((ss : List S) × (lookup name m.scalers ≡ some ss)
          × (lookup name n.scalers ≡ some (map (λ s. ((clean env name m) s).1) ss)))
      ⊎ (((env.refresh m.outside).0 ≡ err e) × (lookup name n.scalers ≡ none))

  back :
      (states : List S) (o : w)
      → SameOthers name m (add_raw_scalers name states ((rest env name m) o))
  back states o other n =
      others_added name states ((rest env name m) o) other n ∙ others_gone name m other n

  IsFailed-cases :
      (r : Option (Result (List S))) (n n' : Manager S w) (e : String)
      → IsRemoved env name m r n
      → removed_internal env name r n ≡ (some (err e), n')
      → SameOthers name m n' × IsFailed e n'
  unfolding removed_internal notify_removed
  IsFailed-cases _ _ n' e (missing k) done =
      elim (Result-cases (env.notify (delete_scalers name) m.outside).0) [
        | inl (_, f) ↦ absurd (ground (arith, f, done))
        | inr (g, f) ↦
            let q : (rest env name m) (env.notify (delete_scalers name) m.outside).1 ≡ n' =
              ground (arith, f, done) in
            subst (λ n. SameOthers name m n × IsFailed e n) q
              (others_gone name m, inl (k, gone name m))
      ]
  IsFailed-cases _ _ n' e (unrefreshed ss f k r) done =
      let q : (rest env name m) (refreshed env name m) ≡ n' = cc in
      let same : f ≡ e = cc in
      subst (λ n. SameOthers name m n × IsFailed e n) q
        (others_gone name m, inr (inr (r ∙ ap err same, gone name m)))
  IsFailed-cases _ _ n' e (kept ss f o k) done =
      let states = map (λ s. ((clean env name m) s).1) ss in
      let q : add_raw_scalers name states ((rest env name m) o) ≡ n' = cc in
      subst (λ n. SameOthers name m n × IsFailed e n) q
        (back states o, inr (inl (ss, k, added name states ((rest env name m) o))))
  IsFailed-cases _ _ n' e (cleaned ss commands k up c p) done =
      let states = map (λ s. ((clean env name m) s).1) ss in
      let o = (env.publish_commands commands (refreshed env name m)).1 in
      elim (Result-cases (env.notify (delete_scalers name) o).0) [
        | inl (_, f) ↦ absurd (ground (arith, f, done))
        | inr (g, f) ↦
            let after = (env.notify (delete_scalers name) o).1 in
            let q : add_raw_scalers name states ((rest env name m) after) ≡ n' =
              ground (arith, f, done) in
            subst (λ n. SameOthers name m n × IsFailed e n) q
              (back states after, inr (inl (ss, k, added name states ((rest env name m) after))))
      ]

  -- A removal that fails has left the scalers of every other application as they were. Its own are
  -- as before, each in the state that its cleanup left; or the refresh of the snapshot failed with
  -- this error, and they are lost; or there were none.
  pub remove_scalers-IsFailed :
      (n : Manager S w) (e : String)
      → remove_scalers env name m ≡ (some (err e), n)
      → SameOthers name m n × IsFailed e n
  unfolding remove_scalers
  remove_scalers-IsFailed n e done =
      let (r, l) = remove_scalers_internal env name m in
      IsFailed-cases r l n e (internal-IsRemoved env name m) done

  -- How the scalers were cleaned up, given the world that is left. The parts are the commands of
  -- each of them.
  pub record IsCleaned (ss : List S) (o : w) : Type 0 where
    pub snapshot : (env.refresh m.outside).0 ≡ ok tt
    pub parts : List (List Command)
    pub each :
        map (λ s. ((env.scaler (env.refresh m.outside).1).cleanup s).0) ss ≡ map (λ cs. ok cs) parts
    pub after : w
    pub published :
        env.publish_commands (flat_map (λ cs. cs) parts) (env.refresh m.outside).1 ≡ (ok tt, after)
    pub told : env.notify (delete_scalers name) after ≡ (ok tt, o)

  -- What a removal that succeeded has done.
  pub record IsDone (n : Manager S w) : Type 0 where
    pub none_left : lookup name n.scalers ≡ none
    pub others : SameOthers name m n
    pub cleaned_up : (ss : List S) → lookup name m.scalers ≡ some ss → IsCleaned ss n.outside

  published-IsCleaned :
      (ss : List S) (commands : List Command)
      → (env.refresh m.outside).0 ≡ ok tt
      → (cleanup_all (clean env name m) ss).0 ≡ ok commands
      → (env.publish_commands commands (refreshed env name m)).0 ≡ ok tt
      → let o = (env.publish_commands commands (refreshed env name m)).1 in
        (env.notify (delete_scalers name) o).0 ≡ ok tt
        → IsCleaned ss (env.notify (delete_scalers name) o).1
  published-IsCleaned ss commands up c p f =
      let (parts, each, whole) = cleanup_all-eq-ok (clean env name m) ss commands c in
      let o = (env.publish_commands commands (refreshed env name m)).1 in
      record {
        snapshot = up;
        parts = parts;
        each = each;
        after = o;
        published = rw (← whole) (ap (λ r. (r, o)) p);
        told = ap (λ r. (r, (env.notify (delete_scalers name) o).1)) f;
      }

  IsDone-cases :
      (r : Option (Result (List S))) (n n' : Manager S w)
      → IsRemoved env name m r n
      → removed_internal env name r n ≡ (some (ok tt), n')
      → IsDone n'
  unfolding removed_internal notify_removed
  IsDone-cases _ _ n' (missing k) done =
      elim (Result-cases (env.notify (delete_scalers name) m.outside).0) [
        | inr (_, f) ↦ absurd (ground (arith, f, done))
        | inl (_, f) ↦
            let q : (rest env name m) (env.notify (delete_scalers name) m.outside).1 ≡ n' =
              ground (arith, f, done) in
            subst IsDone q (record {
              none_left = gone name m;
              others = others_gone name m;
              cleaned_up = λ ss there. absurd (ground (arith, k, there));
            })
      ]
  IsDone-cases _ _ n' (unrefreshed ss f k r) done = absurd (ground (arith, done))
  IsDone-cases _ _ n' (kept ss f o k) done = absurd (ground (arith, done))
  IsDone-cases _ _ n' (cleaned ss commands k up c p) done =
      let o = (env.publish_commands commands (refreshed env name m)).1 in
      elim (Result-cases (env.notify (delete_scalers name) o).0) [
        | inr (_, f) ↦ absurd (ground (arith, f, done))
        | inl (_, f) ↦
            let q : (rest env name m) (env.notify (delete_scalers name) o).1 ≡ n' =
              ground (arith, f, done) in
            subst IsDone q (record {
              none_left = gone name m;
              others = others_gone name m;
              cleaned_up = λ ts there.
                  let same : ss ≡ ts = cc in
                  subst (λ ss. IsCleaned ss (env.notify (delete_scalers name) o).1) same
                    (published-IsCleaned ss commands up c p f);
            })
      ]

  -- A removal that succeeds leaves no scalers of the application and those of every other one as
  -- they were. If there were some, the snapshot was refreshed, then the cleanup of each succeeded,
  -- all their commands were published, in order, and the notification succeeded and came last.
  pub remove_scalers-IsDone :
      (n : Manager S w) → remove_scalers env name m ≡ (some (ok tt), n) → IsDone n
  unfolding remove_scalers
  remove_scalers-IsDone n done =
      let (r, l) = remove_scalers_internal env name m in
      IsDone-cases r l n (internal-IsRemoved env name m) done

  -- Where the refresh fails, the removal fails; when it is tried again and the notification works,
  -- it succeeds without any command: nothing was cleaned up.
  pub remove_scalers-forgotten :
      (ss : List S) (e : String)
      → lookup name m.scalers ≡ some ss
      → (env.refresh m.outside).0 ≡ err e
      → (env.notify (delete_scalers name) (refreshed env name m)).0 ≡ ok tt
      → ((remove_scalers env name m).0 ≡ some (err e))
        × ((remove_scalers env name (remove_scalers env name m).1).0 ≡ some (ok tt))
        × ((remove_scalers env name (remove_scalers env name m).1).1.outside
            ≡ (env.notify (delete_scalers name) (refreshed env name m)).1)
  unfolding remove_scalers remove_scalers_internal cleanup_removed cleanup_refreshed
      removed_internal notify_removed
  remove_scalers-forgotten ss e there failed notified =
      let first : remove_scalers env name m
          ≡ (some (err e), (rest env name m) (refreshed env name m)) =
        rw (there, cleanup_removed, failed, cleanup_refreshed, removed_internal) refl in
      let again : remove_scalers env name ((rest env name m) (refreshed env name m)) ≡ (
        some (ok tt),
        with_outside (env.notify (delete_scalers name) (refreshed env name m)).1
            (without_scalers name ((rest env name m) (refreshed env name m))),
      ) =
        rw (gone name m, cleanup_removed, removed_internal, notify_removed, notified) refl in
      rw (first, again) (refl, refl, refl)
