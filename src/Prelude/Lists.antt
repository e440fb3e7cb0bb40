-- ===== src/Prelude/Lists.antt =====
-- Lists: their length in the native numbers, tests and filters by Boolean functions, sums.
use Prim.Native.Nat.{ℕ, zero, suc, ◌+◌}
use mathlib.Core.Path.{◌≡◌, refl}
use mathlib.Core.Logic.{◌↔◌, ◌⊎◌, ◌≢◌, inl, inr}
use mathlib.Core.Bool.{Bool, true, false, ◌&&◌, ◌||◌}
use mathlib.Core.Option.{Option, none, some}
use mathlib.Core.List.{List, [], ◌∷◌, ◌++◌}
use native.Mathlib.Omega.{arith}
use wadm.Prelude.Tests.{if◌then◌else◌, Bool-cases}

module _ {ℓ} {A : Type ℓ} where
  abbrev pub length : List A → ℕ
  length [] = 0
  length (x ∷ xs) = suc (length xs)

  abbrev pub is_empty : List A → Bool
  is_empty [] = true
  is_empty (x ∷ xs) = false

  abbrev pub all : (A → Bool) → List A → Bool
  all p [] = true
  all p (x ∷ xs) = p x && all p xs

  abbrev pub any : (A → Bool) → List A → Bool
  any p [] = false
  any p (x ∷ xs) = p x || any p xs

  abbrev pub filter : (A → Bool) → List A → List A
  filter p [] = []
  filter p (x ∷ xs) = let rest = filter p xs in if p x then x ∷ rest else rest

  abbrev pub take : ℕ → List A → List A
  take zero xs = []
  take (suc n) [] = []
  take (suc n) (x ∷ xs) = x ∷ take n xs

  abbrev pub last? : List A → Option A
  last? [] = none
  last? (x ∷ []) = some x
  last? (x ∷ y ∷ xs) = last? (y ∷ xs)

  abbrev pub head? : List A → Option A
  head? [] = none
  head? (x ∷ xs) = some x

-- The predicate holds of each member.
abbrev pub All {ℓ κ} : {A : Type ℓ} → (A → Type κ) → List A → Type κ
All P [] = Unit
All P (x ∷ xs) = P x × All P xs

module _ {ℓ κ} {A : Type ℓ} {B : Type κ} where
  abbrev pub flat_map : (A → List B) → List A → List B
  flat_map f [] = []
  flat_map f (x ∷ xs) = f x ++ flat_map f xs

  abbrev pub filter_map : (A → Option B) → List A → List B
  filter_map f [] = []
  filter_map f (x ∷ xs) =
      let rest = filter_map f xs in elim (f x) [ none ↦ rest | some y ↦ y ∷ rest ]

-- Some member of a list.
abbrev pub AnyOf {ℓ} : {A : Type ℓ} → (A → Type 0) → List A → Type 0
AnyOf P [] = ⊥
AnyOf P (x ∷ xs) = P x ⊎ AnyOf P xs

abbrev pub sum : List ℕ → ℕ
sum [] = 0
sum (x ∷ xs) = x + sum xs

pub filter-ext {ℓ} :
    {A : Type ℓ} (p q : A → Bool) (xs : List A)
    → All (λ x. p x ≡ q x) xs
    → filter p xs ≡ filter q xs
filter-ext p q [] h = refl
filter-ext p q (x ∷ xs) (h, hs) = ground (arith, h, filter-ext p q xs hs)

pub All-imp {ℓ κ μ} :
    {A : Type ℓ} {P : A → Type κ} {Q : A → Type μ}
    → ((a : A) → P a → Q a)
    → (xs : List A) → All P xs
    → All Q xs
All-imp f [] h = tt
All-imp f (x ∷ xs) (h, hs) = (f x h, All-imp f xs hs)

pub All-append {ℓ κ} :
    {A : Type ℓ} (P : A → Type κ) (xs ys : List A) → All P xs → All P ys → All P (xs ++ ys)
All-append P [] ys h k = k
All-append P (x ∷ xs) ys (h, hs) k = (h, All-append P xs ys hs k)

pub All-tabulate {ℓ κ} : {A : Type ℓ} {P : A → Type κ} → ((a : A) → P a) → (xs : List A) → All P xs
All-tabulate f [] = tt
All-tabulate f (x ∷ xs) = (f x, All-tabulate f xs)

pub All-swap {ℓ κ μ} :
    {A : Type ℓ} {B : Type κ} (P : A → B → Type μ) (xs : List A) (bs : List B)
    → ((a : A) → All (P a) bs)
    → All (λ b. All (λ a. P a b) xs) bs
All-swap P xs [] f = tt
All-swap P xs (b ∷ bs) f = (All-tabulate (λ a. (f a).0) xs, All-swap P xs bs (λ a. (f a).1))

pub all-All {ℓ} :
    {A : Type ℓ} (p : A → Bool) (xs : List A) → (all p xs ≡ true) ↔ All (λ x. p x ≡ true) xs
all-All p [] = (λ _. tt, λ _. refl)
all-All p (x ∷ xs) =
    let (to, from) = all-All p xs in
    (λ h. (ground arith, to (ground arith)), λ h. ground (arith, h.0, from h.1))

pub All-filter_map {ℓ κ μ} :
    {A : Type ℓ} {B : Type κ} (Q : B → Type μ) (f : A → Option B) (xs : List A)
    → All (λ x. (y : B) → f x ≡ some y → Q y) xs
    → All Q (filter_map f xs)
All-filter_map Q f [] h = tt
All-filter_map Q f (x ∷ xs) (h, hs) =
    let rest = All-filter_map Q f xs hs in
    let keep : (o : Option _)
        → f x ≡ o
        → All Q (elim o [ none ↦ filter_map f xs | some y ↦ y ∷ filter_map f xs ]) =
      λ o.
        elim o
          as (λ o.
            f x ≡ o → All Q (elim o [ none ↦ filter_map f xs | some y ↦ y ∷ filter_map f xs ])) [
              | none ↦ λ e. rest
              | some y ↦ λ e. (h y e, rest)
            ] in
    keep (f x) refl

pub append-eq-nil : {A : Type 0} (xs ys : List A) → xs ++ ys ≡ [] → (xs ≡ []) × (ys ≡ [])
append-eq-nil [] ys e = (refl, e)
append-eq-nil (x' ∷ xs) ys e = cc

module _ {ℓ} {A : Type ℓ} {P : A → Type 0} (p : A → Bool) (iff : (a : A) → (p a ≡ true) ↔ P a) where
  pub all_iff : (xs : List A) → (all p xs ≡ true) ↔ All P xs
  all_iff xs =
      let (to, from) = all-All p xs in
      (λ e. All-imp (λ a. (iff a).0) xs (to e), λ h. from (All-imp (λ a. (iff a).1) xs h))

  pub any-eq-false_iff : (xs : List A) → (any p xs ≡ false) ↔ All (λ a. P a → ⊥) xs
  any-eq-false_iff [] = (λ _. tt, λ _. refl)
  any-eq-false_iff (x ∷ xs) =
      let (to, from) = any-eq-false_iff xs in
      let (sound, complete) = iff x in
      (
        λ e. ((λ h. absurd (ground (arith, e, complete h))), to (ground (arith, e))),
        λ (h, hs). elim (Bool-cases (p x)) [
          | inl e ↦ absurd (h (sound e))
          | inr e ↦ ground (arith, e, from hs)
        ],
      )

  pub filter-ne-nil_iff : (xs : List A) → (filter p xs ≢ []) ↔ AnyOf P xs
  filter-ne-nil_iff [] = (λ h. absurd (h refl), λ z. absurd z)
  filter-ne-nil_iff (x ∷ xs) =
      let (to, from) = filter-ne-nil_iff xs in
      let (sound, complete) = iff x in
      elim (Bool-cases (p x)) [
        | inl e ↦ (λ h. inl (sound e), λ h. rw e (λ z. cc))
        | inr e ↦ (
          λ h. inr (to (λ z. h (rw e z))),
          λ h. elim h [ inl q ↦ absurd (ground (arith, e, complete q)) | inr hs ↦ rw e (from hs) ],
        )
      ]

  pub filter-All_iff {κ} :
      (Q : A → Type κ) (xs : List A) → All Q (filter p xs) ↔ All (λ a. P a → Q a) xs
  filter-All_iff Q [] = (λ _. tt, λ _. tt)
  filter-All_iff Q (x ∷ xs) =
      let (to, from) = filter-All_iff Q xs in
      let (sound, complete) = iff x in
      elim (Bool-cases (p x)) [
        | inl e ↦ rw e (λ (h, hs). ((λ _. h), to hs), λ (h, hs). (h (sound e), from hs))
        | inr e ↦
            rw e (λ hs. ((λ h. absurd (ground (arith, e, complete h))), to hs), λ (h, hs). from hs)
      ]
