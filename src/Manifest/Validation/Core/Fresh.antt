-- ===== src/Manifest/Validation/Core/Fresh.antt =====
-- The registries of `core_validation`: what is valid, and what is new.
use wadm.Prelude.{
  String, ◌≡◌, ◌↔◌, inl, inr, refl, ◌∙◌, arith, Bool, true, false, not, ◌&&◌, ◌||◌, Option, none,
  some, List, [], ◌∷◌, ◌++◌, Map, contains, contains_concat, Distinct, filter, is_empty, all, All,
  Bool-cases, eq_iff, ◌==◌, Message,
}
use wadm.Manifest.Validation.{ValidationFailure, valid, fail}
use wadm.Manifest.Validation.Labels.{valid_oam_label}
use wadm.Manifest.Validation.Core.{
  Registries, check_labels, register_name, register_id, missing_failures, insert_new,
}

pub valid-append : (fs gs : List ValidationFailure) → valid (fs ++ gs) ≡ (valid fs && valid gs)
unfolding valid
valid-append [] gs = refl
valid-append (f ∷ fs) gs = ground (arith, valid-append fs gs)

pub valid-fail : (m : Message) → valid (fail m) ≡ false
unfolding valid
valid-fail m = refl

pub valid-check_labels :
    (kind : String) (labels : Map String)
    → valid (check_labels kind labels) ≡ all valid_oam_label labels
unfolding check_labels valid
valid-check_labels kind [] = refl
valid-check_labels kind (l ∷ ls) = ground (arith, valid-check_labels kind ls)

-- None of the texts stands in the list, nor twice among them.
abbrev pub fresh : List String → List String → Bool
fresh ks [] = true
fresh ks (j ∷ js) = not (contains j ks) && fresh (ks ++ j ∷ []) js

pub valid-register_name :
    (name : String) (r : Registries)
    → valid (register_name name r).failures ≡ (valid r.failures && not (contains name r.names))
unfolding register_name
valid-register_name name r = elim (Bool-cases (contains name r.names)) [
  | inl e ↦ rw (e, register_name, valid-append, valid-fail) refl
  | inr e ↦ rw (e, register_name) (ground arith)
]

pub names-register_name :
    (name : String) (r : Registries)
    → let t = register_name name r in
      (t.names ≡ insert_new name r.names) × (t.ids ≡ r.ids) × (t.required ≡ r.required)
unfolding register_name
names-register_name name r = ground arith

abbrev pub is_new : Option String → List String → Bool
is_new none ks = true
is_new (some k) ks = not (contains k ks)

abbrev pub insert_id : Option String → List String → List String
insert_id none ks = ks
insert_id (some k) ks = insert_new k ks

pub valid-register_id :
    (id : Option String) (r : Registries)
    → valid (register_id id r).failures ≡ (valid r.failures && is_new id r.ids)
unfolding register_id
valid-register_id none r = ground arith
valid-register_id (some id) r = elim (Bool-cases (contains id r.ids)) [
  | inl e ↦ rw (e, register_id, valid-append, valid-fail) refl
  | inr e ↦ rw (e, register_id) (ground arith)
]

pub ids-register_id :
    (id : Option String) (r : Registries)
    → let t = register_id id r in
      (t.names ≡ r.names) × (t.ids ≡ insert_id id r.ids) × (t.required ≡ r.required)
unfolding register_id
ids-register_id none r = (refl, refl, refl)
ids-register_id (some id) r = ground arith

pub contains-insert_new :
    (k j : String) (ks : List String) → contains k (insert_new j ks) ≡ (contains k ks || j == k)
contains-insert_new k j ks = ground (arith, contains_concat k j ks, eq_iff j k)

pub all-append :
    (p : String → Bool) (ks js : List String) → all p (ks ++ js) ≡ (all p ks && all p js)
all-append p [] js = refl
all-append p (k ∷ ks) js = ground (arith, all-append p ks js)

pub all-contains :
    (p : String → Bool) (j : String) (ks : List String)
    → contains j ks ≡ true
    → all p ks ≡ true
    → p j ≡ true
all-contains p j [] h a = cc
all-contains p j (k ∷ ks) h a = ground (arith, all-contains p j ks, eq_iff k j)

pub all-insert_new :
    (p : String → Bool) (j : String) (ks : List String)
    → all p (insert_new j ks) ≡ (all p ks && p j)
all-insert_new p j ks = ground (arith, all-append p ks (j ∷ []), all-contains p j ks)

fresh-split :
    (i : String) (ks js : List String)
    → All (λ j. contains j (ks ++ i ∷ []) ≡ false) js
    → (contains i js ≡ false) × All (λ j. contains j ks ≡ false) js
fresh-split i ks [] h = (refl, tt)
fresh-split i ks (j ∷ js) (h, hs) =
    let (out, rest) = fresh-split i ks js hs in
    (
      ground (arith, contains_concat j i ks, eq_iff i j, eq_iff j i),
      (ground (arith, contains_concat j i ks), rest),
    )

fresh-join :
    (i : String) (ks js : List String)
    → contains i js ≡ false
    → All (λ j. contains j ks ≡ false) js
    → All (λ j. contains j (ks ++ i ∷ []) ≡ false) js
fresh-join i ks [] out h = tt
fresh-join i ks (j ∷ js) out (h, hs) = (
  ground (arith, contains_concat j i ks, eq_iff i j, eq_iff j i),
  fresh-join i ks js (ground arith) hs,
)

pub fresh_iff :
    (ks js : List String)
    → (fresh ks js ≡ true) ↔ (Distinct js × All (λ j. contains j ks ≡ false) js)
fresh_iff ks [] = (λ _. (tt, tt), λ _. refl)
fresh_iff ks (j ∷ js) =
    let (to, from) = fresh_iff (ks ++ j ∷ []) js in
    (
      λ h.
          let (d, a) = to (ground arith) in
          let (out, rest) = fresh-split j ks js a in ((out, d), (ground arith, rest)),
      λ (d, a). ground (arith, a.0, from (d.1, fresh-join j ks js d.0 a.1)),
    )

pub fresh_id :
    (id : Option String) (ks js : List String)
    → fresh ks (elim id [ none ↦ js | some k ↦ k ∷ js ])
      ≡ (is_new id ks && fresh (insert_id id ks) js)
fresh_id none ks js = refl
fresh_id (some k) ks js = ground arith

pub fresh_name :
    (k : String) (ks js : List String)
    → fresh ks (k ∷ js) ≡ (not (contains k ks) && fresh (insert_new k ks) js)
fresh_name k ks js = ground arith

pub all-ext :
    (p q : String → Bool) → ((k : String) → p k ≡ q k) → (ks : List String) → all p ks ≡ all q ks
all-ext p q h [] = refl
all-ext p q h (k ∷ ks) = rw (h k, all-ext p q h ks) refl

pub valid-missing_failures : (ks : List String) → valid (missing_failures ks) ≡ is_empty ks
unfolding missing_failures
valid-missing_failures [] = unfold valid in refl
valid-missing_failures (k ∷ ks) = unfold valid in refl

all_kept : (p : String → Bool) (ks : List String) → is_empty (filter (λ k. not (p k)) ks) ≡ all p ks
all_kept p [] = refl
all_kept p (k ∷ ks) = ground (arith, all_kept p ks)

pub valid-missing :
    (names required : List String)
    → valid (missing_failures (filter (λ k. not (contains k names)) required))
      ≡ all (λ k. contains k names) required
valid-missing names required = valid-missing_failures _ ∙ all_kept (λ k. contains k names) required
