-- ===== src/Manifest/Validation/Checks/Parts.antt =====
-- What each check asks of a manifest.
use wadm.Prelude.{
  String, ◌≡◌, ◌↔◌, refl, ◌∙◌, arith, true, false, Option, none, some, List, [], ◌∷◌, lookup,
  contains, contains_key, any, All, flat_map, is_empty, Message, Bool-cases, Option-cases, inl, inr,
  ◌==◌, eq_iff,
}
use wadm.External.{External}
use wadm.Manifest.{
  Component, Trait, TraitProperty, link, custom, Policy, SecretProperty,
  SharedApplicationComponentProperties,
}
use wadm.Manifest.Queries.{is_link, is_scaler, traits_of, property_secrets}
use wadm.Manifest.Validation.{
  ValidationFailure, valid, errors, fail, warn, known_interfaces, is_invalid_known_interface,
}
use wadm.Manifest.Validation.Core.Fresh.{valid-append, valid-fail}
use wadm.Manifest.Validation.Checks.{
  interface_failures, policy_failures, source_failures, custom_failures, secret_policy_type,
  config_of,
}

-- A check of every member is one check of them all.
pub flat_map_iff :
    {A : Type 0} (f : A → List ValidationFailure) (P : A → Type 0)
    → ((a : A) → (valid (f a) ≡ true) ↔ P a)
    → (xs : List A) → (valid (flat_map f xs) ≡ true) ↔ All P xs
flat_map_iff f P h [] = (λ _. tt, λ _. unfold valid in refl)
flat_map_iff f P h (x ∷ xs) =
    let (to, from) = flat_map_iff f P h xs in
    let (one_to, one_from) = h x in
    rw (valid-append (f x) (flat_map f xs)) (
      λ v. (one_to (ground arith), to (ground arith)),
      λ (p, ps). ground (arith, one_from p, from ps),
    )

pub valid-nil : valid [] ≡ true
unfolding valid
valid-nil = refl

pub no_fail : (m : Message) → valid (fail m) ≡ true → ⊥
no_fail m h = let e = valid-fail m in cc

pub valid-warn : (m : Message) → valid (warn m) ≡ true
unfolding valid
valid-warn m = refl

pub valid-errors : (fs : List ValidationFailure) → valid (errors fs) ≡ valid fs
unfolding valid
valid-errors [] = refl
valid-errors (f ∷ fs) = ground (arith, valid-errors fs)

-- Interfaces only give warnings.
valid-interface :
    (namespace package_name interface : String)
    → valid (is_invalid_known_interface namespace package_name interface) ≡ true
unfolding is_invalid_known_interface
valid-interface namespace package_name interface =
    elim (Option-cases (lookup namespace known_interfaces)) [
      | inl e ↦ rw (e, is_invalid_known_interface) valid-nil
      | inr (packages, e) ↦ elim (Option-cases (lookup package_name packages)) [
        | inl f ↦ rw (e, f, is_invalid_known_interface) (valid-warn _)
        | inr (interfaces, f) ↦ elim (Bool-cases (contains interface interfaces)) [
          | inl g ↦ rw (e, f, g, is_invalid_known_interface) valid-nil
          | inr g ↦ rw (e, f, g, is_invalid_known_interface) (valid-warn _)
        ]
      ]
    ]

valid-interfaces :
    (namespace package_name : String) (is : List String)
    → valid (flat_map (λ i. is_invalid_known_interface namespace package_name i) is) ≡ true
valid-interfaces namespace package_name [] = valid-nil
valid-interfaces namespace package_name (i ∷ is) =
    valid-append (is_invalid_known_interface namespace package_name i) _
    ∙ ground (
      arith,
      valid-interface namespace package_name i,
      valid-interfaces namespace package_name is,
    )

pub interface_iff :
    {V : Type 0} (q : TraitProperty V) → (valid (interface_failures q) ≡ true) ↔ Unit {0}
interface_iff (link l) = (λ _. tt, λ _. valid-interfaces l.namespace l.package_name l.interfaces)
interface_iff _ = (λ _. tt, λ _. valid-nil)

-- A secret is mapped to a policy for secrets that names its backend.
abbrev pub IsSecretPolicy : Option Policy → Type 0
IsSecretPolicy none = ⊥
IsSecretPolicy (some p) =
    (p.policy_type ≡ secret_policy_type) × (contains_key "backend" p.properties ≡ true)

pub policy_iff :
    (s : SecretProperty) (o : Option Policy)
    → (valid (policy_failures s o) ≡ true) ↔ IsSecretPolicy o
unfolding policy_failures
policy_iff s none = (λ h. absurd (no_fail _ h), λ h. absurd h)
policy_iff s (some p) = elim (Bool-cases (p.policy_type == secret_policy_type)) [
  | inl e ↦ elim (Bool-cases (contains_key "backend" p.properties)) [
    | inl f ↦
        rw (e, f, policy_failures)
          (λ h. (ground (arith, e, eq_iff p.policy_type secret_policy_type), refl), λ h. valid-nil)
    | inr f ↦ rw (e, f, policy_failures) (λ h. absurd (no_fail _ h), λ h. cc)
  ]
  | inr e ↦
      rw (e, policy_failures)
        (
          λ h. absurd (no_fail _ h),
          λ h. ground (arith, e, h.0, eq_iff p.policy_type secret_policy_type),
        )
]

-- A component has an image, or stands for one of another application and adds nothing to it.
abbrev pub IsSourced :
    {V : Type 0}
    → Component V
    → Option String
    → Option SharedApplicationComponentProperties
    → Type 0
IsSourced c (some _) none = Unit
IsSourced c none (some _) =
    (config_of c.properties ≡ [])
    × (property_secrets c.properties ≡ [])
    × (any is_scaler (traits_of c) ≡ false)
IsSourced c _ _ = ⊥

is_empty_iff : {A : Type 0} (xs : List A) → (is_empty xs ≡ true) ↔ (xs ≡ [])
is_empty_iff [] = (λ _. refl, λ _. refl)
is_empty_iff (x ∷ xs) = (λ e. cc, λ e. cc)

pub source_iff :
    {V : Type 0} (c : Component V) (image : Option String)
    (application : Option SharedApplicationComponentProperties)
    → (valid (source_failures c image application) ≡ true) ↔ IsSourced c image application
unfolding source_failures
source_iff c (some i) (some a) = (λ h. absurd (no_fail _ h), λ h. absurd h)
source_iff c (some i) none = (λ _. tt, λ _. valid-nil)
source_iff c none none = (λ h. absurd (no_fail _ h), λ h. absurd h)
source_iff c none (some shared) =
    let (no_config, none_config) = is_empty_iff (config_of c.properties) in
    let (no_secret, none_secret) = is_empty_iff (property_secrets c.properties) in
    elim (Bool-cases (is_empty (config_of c.properties))) [
      | inr e ↦
          rw (e, source_failures)
            (λ h. absurd (no_fail _ h), λ h. ground (arith, e, h.0, none_config h.0))
      | inl e ↦ elim (Bool-cases (is_empty (property_secrets c.properties))) [
        | inr f ↦
            rw (e, f, source_failures)
              (λ h. absurd (no_fail _ h), λ h. ground (arith, f, none_secret h.1))
        | inl f ↦ elim (Bool-cases (any is_scaler (traits_of c))) [
          | inl g ↦ rw (e, f, g, source_failures) (λ h. absurd (no_fail _ h), λ h. cc)
          | inr g ↦
              rw (e, f, g, source_failures) (λ h. (no_config e, no_secret f, refl), λ h. valid-nil)
        ]
      ]
    ]

-- A link or a scaler is not a custom trait.
abbrev pub IsTyped : {V : Type 0} → Trait V → TraitProperty V → Type 0
IsTyped t (custom _) = (is_link t ≡ false) × (is_scaler t ≡ false)
IsTyped t _ = Unit

pub custom_iff :
    (x : External) (t : Trait x.Value) (q : TraitProperty x.Value)
    → (valid (custom_failures x t q) ≡ true) ↔ IsTyped t q
unfolding custom_failures
custom_iff x t (custom v) = elim (Bool-cases (is_link t)) [
  | inl e ↦ rw (e, custom_failures, valid-fail) (λ h. cc, λ h. cc)
  | inr e ↦ elim (Bool-cases (is_scaler t)) [
    | inl f ↦ rw (e, f, custom_failures, valid-fail) (λ h. cc, λ h. cc)
    | inr f ↦ rw (e, f, custom_failures) (λ h. (refl, refl), λ h. valid-nil)
  ]
]
custom_iff x t _ = (λ _. tt, λ _. valid-nil)
