-- ===== src/Manifest/Validation/Checks/Duplicates.antt =====
-- When the checks for repetitions find none.
use wadm.Prelude.{
  ◌≡◌, ◌↔◌, refl, arith, Bool, true, false, ◌||◌, List, [], ◌∷◌, ◌++◌, any, All, Message,
  Bool-cases, inl, inr,
}
use wadm.Manifest.Validation.{valid, fail}
use wadm.Manifest.Validation.Core.Fresh.{valid-append, valid-fail}
use wadm.Manifest.Validation.Checks.{duplicates}

module _ {A : Type 0} (same : A → A → Bool) where
  -- No later member is the same as an earlier one.
  abbrev pub Unique : List A → Type 0
  Unique [] = Unit
  Unique (k ∷ ks) = All (λ j. same j k ≡ false) ks × Unique ks

  any-append :
      (j k : A) (seen : List A) → any (same j) (seen ++ k ∷ []) ≡ (any (same j) seen || same j k)
  any-append j k [] = ground arith
  any-append j k (s ∷ seen) = ground (arith, any-append j k seen)

  unseen-split :
      (k : A) (seen ks : List A)
      → All (λ j. any (same j) (seen ++ k ∷ []) ≡ false) ks
      → All (λ j. same j k ≡ false) ks × All (λ j. any (same j) seen ≡ false) ks
  unseen-split k seen [] h = (tt, tt)
  unseen-split k seen (j ∷ ks) (h, hs) =
      let (a, b) = unseen-split k seen ks hs in
      ((ground (arith, any-append j k seen), a), (ground (arith, any-append j k seen), b))

  unseen-join :
      (k : A) (seen ks : List A)
      → All (λ j. same j k ≡ false) ks
      → All (λ j. any (same j) seen ≡ false) ks
      → All (λ j. any (same j) (seen ++ k ∷ []) ≡ false) ks
  unseen-join k seen [] h g = tt
  unseen-join k seen (j ∷ ks) (h, hs) (g, gs) =
      (ground (arith, any-append j k seen), unseen-join k seen ks hs gs)

  duplicates_iff :
      (message : A → Message) (seen ks : List A)
      → (valid (duplicates same message seen ks) ≡ true)
        ↔ (Unique ks × All (λ j. any (same j) seen ≡ false) ks)
  unfolding duplicates
  duplicates_iff message seen [] = (λ _. (tt, tt), λ _. unfold valid in refl)
  duplicates_iff message seen (k ∷ ks) = elim (Bool-cases (any (same k) seen)) [
    | inl e ↦
        rw (e, duplicates, valid-append (fail (message k)), valid-fail)
          (λ h. cc, λ h. ground (arith, h.1.0))
    | inr e ↦
        let (to, from) = duplicates_iff message (seen ++ k ∷ []) ks in
        rw (e, duplicates)
          (
            λ h. let (u, a) = to h in let (b, c) = unseen-split k seen ks a in ((b, u), (refl, c)),
            λ (u, a). from (u.1, unseen-join k seen ks u.0 a.1),
          )
  ]

  no_seen : (ks : List A) → All (λ j. any (same j) [] ≡ false) ks
  no_seen [] = tt
  no_seen (k ∷ ks) = (refl, no_seen ks)

  -- Repetitions are found exactly when there are some.
  pub duplicates-Unique_iff :
      (message : A → Message) (ks : List A)
      → (valid (duplicates same message [] ks) ≡ true) ↔ Unique ks
  duplicates-Unique_iff message ks =
      let (to, from) = duplicates_iff message [] ks in (λ h. (to h).0, λ u. from (u, no_seen ks))
