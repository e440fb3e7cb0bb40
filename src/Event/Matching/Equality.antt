-- ===== src/Event/Matching/Equality.antt =====
-- The equality of maps: two maps with distinct keys are equal when they agree on every key.
use wadm.Prelude.{
  ◌≤◌, ◌<◌, String, ◌≡◌, ◌↔◌, refl, sym, ◌∙◌, arith, inl, inr, true, false, some, [], ◌∷◌, Map,
  lookup, remove, keys, contains, contains-keys, lookup-remove, Distinct, All, All-imp, all, length,
  eq_refl, eq_iff, Option-cases,
}
use wadm.Event.Matching.{map_eq, is_value}

-- The second map has every entry of the first.
abbrev Within : Map String → Map String → Type 0
Within a b = All (λ e. lookup e.0 b ≡ some e.1) a

-- A key leads to the same value in both.
abbrev pub Agrees : Map String → Map String → Type 0
Agrees a b = (k : String) → lookup k a ≡ lookup k b

all-is_value_iff :
    (a b : Map String) → (all (λ e. is_value (lookup e.0 b) e.1) a ≡ true) ↔ Within a b
all-is_value_iff [] b = (λ _. tt, λ _. refl)
all-is_value_iff (e ∷ a) b = elim (Option-cases (lookup e.0 b)) [
  | inl h ↦ rw h (λ k. cc, λ k. absurd (ground (arith, k.0)))
  | inr (v, h) ↦ rw h (ground (arith, eq_iff v e.1, eq_refl e.1, all-is_value_iff a b))
]

Within-remove :
    (k : String) (a b : Map String)
    → contains k (keys a) ≡ false
    → Within a b
    → Within a (remove k b)
Within-remove k [] b out h = tt
Within-remove k (e ∷ a) b out (h, hs) = (
  ground (arith, lookup-remove k e.0 b, eq_iff k e.0, eq_iff e.0 k, eq_refl k),
  Within-remove k a b (ground (arith, out)) hs,
)

length-remove : (k : String) (b : Map String) → length (remove k b) ≤ length b
unfolding remove
length-remove k [] = omega arith
length-remove k (e ∷ b) = ground (arith, length-remove k b)

length-remove-some :
    (k v : String) (b : Map String) → lookup k b ≡ some v → length (remove k b) < length b
unfolding remove lookup
length-remove-some k v [] h = cc
length-remove-some k v (e ∷ b) h = ground (arith, h, length-remove k b, length-remove-some k v b)

-- A map has as many entries as one that holds it, or fewer.
length-Within : (a b : Map String) → Distinct (keys a) → Within a b → length a ≤ length b
length-Within [] b d h = omega arith
length-Within (e ∷ a) b (out, d) (h, hs) = omega (
  arith,
  length-Within a (remove e.0 b) d (Within-remove e.0 a b out hs),
  length-remove-some e.0 e.1 b h,
)

Within-skip :
    (e : String × String) (a b : Map String)
    → contains e.0 (keys a) ≡ false
    → Within a b
    → Within a (e ∷ b)
unfolding lookup
Within-skip e [] b out h = tt
Within-skip e (f ∷ a) b out (h, hs) = (
  ground (arith, h, eq_iff e.0 f.0, eq_iff f.0 e.0, eq_refl e.0),
  Within-skip e a b (ground (arith, out)) hs,
)

Within-refl : (a : Map String) → Distinct (keys a) → Within a a
unfolding lookup
Within-refl [] d = tt
Within-refl (e ∷ a) (out, d) =
    (ground (arith, eq_refl e.0), Within-skip e a a out (Within-refl a d))

lookup-Within :
    (k v : String) (a b : Map String) → Within a b → lookup k a ≡ some v → lookup k b ≡ some v
unfolding lookup
lookup-Within k v [] b h e = cc
lookup-Within k v (f ∷ a) b (h, hs) e = ground (arith, h, e, eq_iff f.0 k, lookup-Within k v a b hs)

Agrees-Within : (a b : Map String) → Distinct (keys a) → Agrees a b → Within a b
Agrees-Within a b d same = All-imp (λ e h. sym (same e.0) ∙ h) a (Within-refl a d)

Within-Agrees :
    (a b : Map String) → Distinct (keys a) → length a ≡ length b → Within a b → Agrees a b
Within-Agrees a b d n h k = elim (Option-cases (lookup k a)) [
  | inr (v, e) ↦ e ∙ sym (lookup-Within k v a b h e)
  | inl e ↦ elim (Option-cases (lookup k b)) [
    | inl f ↦ e ∙ sym f
    | inr (v, f) ↦
        let out : contains k (keys a) ≡ false = ground (arith, contains-keys k a, e) in
        absurd (
          omega (
            arith,
            n,
            length-remove-some k v b f,
            length-Within a (remove k b) d (Within-remove k a b out h),
          ))
  ]
]

-- Maps with distinct keys are equal just when every key leads to the same value in both.
pub map_eq_iff :
    (a b : Map String) → Distinct (keys a) → Distinct (keys b) → (map_eq a b ≡ true) ↔ Agrees a b
unfolding map_eq
map_eq_iff a b d k =
    let (to, from) = all-is_value_iff a b in
    (
      λ e. Within-Agrees a b d (ground (arith, e)) (to (ground (arith, e))),
      λ same.
          let h = Agrees-Within a b d same in
          let n = length-Within a b d h in
          let m = length-Within b a k (Agrees-Within b a k (λ j. sym (same j))) in
          ground (arith, from h, n, m),
    )

-- A map with distinct keys equals itself.
pub map_eq_refl : (m : Map String) → Distinct (keys m) → map_eq m m ≡ true
map_eq_refl m d = let (to, from) = map_eq_iff m m d d in from (λ k. refl)
