-- ===== src/Scaler/Manager/Ways.antt =====
-- The ways in which `remove_scalers_internal` ends.
use wadm.Prelude.{
  String, ◌≡◌, refl, ◌∙◌, ap, inl, inr, false, Option, none, some, List, [], ◌∷◌, arith, map,
  flat_map, ◌++◌, lookup, lookup-insert, lookup-remove, eq_refl, Result, ok, err, ◌==◌,
  Option-cases, Result-cases,
}
use wadm.External.{External}
use wadm.Command.{Command}
use wadm.Scaler.Manager.{
  Surroundings, Manager, cleanup_all, with_outside, add_raw_scalers, without_scalers,
  publish_cleanup, publish_cleaned, cleanup_refreshed, cleanup_removed, remove_scalers_internal,
}

cleanup_all-states :
    {S : Type 0} (f : S → Result (List Command) × S) (ss : List S)
    → (cleanup_all f ss).1 ≡ map (λ s. (f s).1) ss
unfolding cleanup_all
cleanup_all-states f [] = refl
cleanup_all-states f (s ∷ ss) = ap (λ t. (f s).1 ∷ t) (cleanup_all-states f ss)

-- Where no cleanup of a list fails: the commands of each, and all of them in order.
pub cleanup_all-eq-ok :
    {S : Type 0} (f : S → Result (List Command) × S) (ss : List S) (commands : List Command)
    → (cleanup_all f ss).0 ≡ ok commands
    → (parts : List (List Command)) × (map (λ s. (f s).0) ss ≡ map (λ cs. ok cs) parts)
      × (commands ≡ flat_map (λ cs. cs) parts)
unfolding cleanup_all
cleanup_all-eq-ok f [] commands e = ([], refl, ground (arith, e))
cleanup_all-eq-ok f (s ∷ ss) commands e = elim (Result-cases (f s).0) [
  | inr (m, k) ↦ absurd (ground (arith, k, e))
  | inl (cs, k) ↦ elim (Result-cases (cleanup_all f ss).0) [
    | inr (m, l) ↦ absurd (ground (arith, k, l, e))
    | inl (ds, l) ↦
        let (parts, each, whole) = cleanup_all-eq-ok f ss ds l in
        let same : cs ++ ds ≡ commands = ground (arith, k, l, e) in
        (cs ∷ parts, rw (k, each) refl, rw (← same, whole) refl)
  ]
]

module _ {S w : Type 0} where
  -- The scalers of every other application are the same.
  abbrev pub SameOthers : String → Manager S w → Manager S w → Type 0
  SameOthers name m n =
      (other : String) → (name == other) ≡ false → lookup other n.scalers ≡ lookup other m.scalers

  pub gone : (name : String) (m : Manager S w) → lookup name (without_scalers name m).scalers ≡ none
  gone name m = lookup-remove name name m.scalers ∙ rw (eq_refl name) refl

  pub others_gone : (name : String) (m : Manager S w) → SameOthers name m (without_scalers name m)
  others_gone name m other n = lookup-remove name other m.scalers ∙ rw n refl

  pub added :
      (name : String) (ss : List S) (m : Manager S w)
      → lookup name (add_raw_scalers name ss m).scalers ≡ some ss
  added name ss m = lookup-insert name name ss m.scalers ∙ rw (eq_refl name) refl

  pub others_added :
      (name : String) (ss : List S) (m : Manager S w)
      → SameOthers name m (add_raw_scalers name ss m)
  others_added name ss m other n = lookup-insert name other ss m.scalers ∙ rw n refl

module _ {x : External} {S w : Type 0} (env : Surroundings x S w) (name : String)
    (m : Manager S w) where
  -- The world once the snapshot was refreshed.
  abbrev pub refreshed : w
  refreshed = (env.refresh m.outside).1

  abbrev pub clean : S → Result (List Command) × S
  clean s = (env.scaler refreshed).cleanup s

  abbrev pub rest : w → Manager S w
  rest o = with_outside o (without_scalers name m)

  -- The ways in which the removal without the notification ends.
  pub data IsRemoved : Option (Result (List S)) → Manager S w → Type 0 where
    missing : lookup name m.scalers ≡ none → IsRemoved none (without_scalers name m)
    unrefreshed :
        (ss : List S) (e : String)
        → lookup name m.scalers ≡ some ss
        → (env.refresh m.outside).0 ≡ err e
        → IsRemoved (some (err e)) (rest refreshed)
    kept :
        (ss : List S) (e : String) (o : w)
        → lookup name m.scalers ≡ some ss
        → IsRemoved (some (err e)) (add_raw_scalers name (map (λ s. (clean s).1) ss) (rest o))
    cleaned :
        (ss : List S) (commands : List Command)
        → lookup name m.scalers ≡ some ss
        → (env.refresh m.outside).0 ≡ ok tt
        → (cleanup_all clean ss).0 ≡ ok commands
        → (env.publish_commands commands refreshed).0 ≡ ok tt
        → IsRemoved
            (some (ok (map (λ s. (clean s).1) ss)))
            (rest (env.publish_commands commands refreshed).1)

  refreshed-IsRemoved :
      (ss : List S)
      → lookup name m.scalers ≡ some ss
      → (env.refresh m.outside).0 ≡ ok tt
      → let (r, n) = cleanup_refreshed env name ss (ok tt) (rest refreshed) in IsRemoved (some r) n
  unfolding cleanup_refreshed publish_cleaned publish_cleanup
  refreshed-IsRemoved ss there k = elim (Result-cases (cleanup_all clean ss).0) [
    | inr (e, c) ↦ rw (c, publish_cleaned, cleanup_all-states clean ss) (kept ss e refreshed there)
    | inl (commands, c) ↦ elim (Result-cases (env.publish_commands commands refreshed).0) [
      | inr (e, p) ↦
          rw (c, publish_cleaned, p, publish_cleanup, cleanup_all-states clean ss)
            (kept ss e (env.publish_commands commands refreshed).1 there)
      | inl (_, p) ↦
          rw (c, publish_cleaned, p, publish_cleanup, cleanup_all-states clean ss)
            (cleaned ss commands there k c p)
    ]
  ]

  pub internal-IsRemoved : let (r, n) = remove_scalers_internal env name m in IsRemoved r n
  unfolding remove_scalers_internal cleanup_removed cleanup_refreshed
  internal-IsRemoved = elim (Option-cases (lookup name m.scalers)) [
    | inl k ↦ rw (k, cleanup_removed) (missing k)
    | inr (ss, k) ↦ elim (Result-cases (env.refresh m.outside).0) [
      | inr (e, f) ↦ rw (k, cleanup_removed, f, cleanup_refreshed) (unrefreshed ss e k f)
      | inl (_, f) ↦ rw (k, cleanup_removed, f) (refreshed-IsRemoved ss k f)
    ]
  ]
