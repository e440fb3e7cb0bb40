-- ===== src/Storage/Store/Sweep.antt =====
-- Storing the entries that pass a test and deleting the others, in two writes.
use wadm.Prelude.{
  String, ◌≡◌, refl, subst, arith, ◌⊎◌, inl, inr, Bool, true, false, not, ◌||◌, none, some, [], ◌∷◌,
  Map, lookup, keys, Distinct, contains, filter, ◌==◌, eq_iff, eq_refl, Bool-cases, All, All-imp,
}
use wadm.Storage.Store.Contract.{View, overwrite, erase, overwrite-cases, erase-eq}

module _ {A : Type 0} where
  skipped :
      (k : String) (a : A) (m xs : Map A)
      → contains k (keys xs) ≡ false
      → All (λ e. lookup e.0 m ≡ some e.1) xs
      → All (λ e. lookup e.0 ((k, a) ∷ m) ≡ some e.1) xs
  unfolding lookup
  skipped k a m [] out h = tt
  skipped k a m ((j, b) ∷ xs) out (h, hs) =
      (ground (arith, h, out, eq_iff k j, eq_iff j k), skipped k a m xs (ground arith) hs)

  -- Each entry of a map is the one that its key finds.
  pub All-lookup : (m : Map A) → Distinct (keys m) → All (λ e. lookup e.0 m ≡ some e.1) m
  unfolding lookup
  All-lookup [] d = tt
  All-lookup ((k, a) ∷ m) (out, d) =
      (ground (arith, eq_refl k), skipped k a m m out (All-lookup m d))

  pub filter-All :
      (P : String → A → Type 0) (p : String × A → Bool) (xs : Map A)
      → All (λ e. P e.0 e.1) xs
      → All (λ e. P e.0 e.1 × (p e ≡ true)) (filter p xs)
  filter-All P p [] h = tt
  filter-All P p (e ∷ xs) (h, hs) = elim (Bool-cases (p e)) [
    | inl k ↦ rw k ((h, k), filter-All P p xs hs)
    | inr k ↦ rw k (filter-All P p xs hs)
  ]

  pub All-contains :
      (P : String → A → Type 0) (key : String) (xs : Map A)
      → contains key (keys xs) ≡ true
      → All (λ e. P e.0 e.1) xs
      → (a : A) × P key a
  All-contains P key [] c h = cc
  All-contains P key ((k, a) ∷ xs) c (h, hs) = elim (Bool-cases (k == key)) [
    | inl e ↦ let same : k ≡ key = ground (arith, eq_iff k key, e) in (a, subst (λ k. P k a) same h)
    | inr e ↦ All-contains P key xs (ground (arith, c, e)) hs
  ]

  contains-filter :
      (p : String × A → Bool) (key : String) (xs : Map A)
      → contains key (keys xs)
        ≡ (contains key (keys (filter p xs)) || contains key (keys (filter (λ e. not (p e)) xs)))
  contains-filter p key [] = refl
  contains-filter p key (e ∷ xs) = ground (arith, contains-filter p key xs)

  module _ (still : String × A → Bool) (changed : Map A) (view : View A) where
    abbrev pub sweep : View A
    sweep =
        erase (keys (filter (λ e. not (still e)) changed)) (overwrite (filter still changed) view)

    -- What is found after the two writes.
    pub sweep-cases :
        (P : String → A → Type 0) (key : String)
        → All (λ e. P e.0 e.1) changed
        → ((a : A) × (sweep key ≡ some a) × P key a)
          ⊎ ((sweep key ≡ none) × (a : A) × P key a × (still (key, a) ≡ false))
          ⊎ ((contains key (keys changed) ≡ false) × (sweep key ≡ view key))
    sweep-cases P key h =
        elim (Bool-cases (contains key (keys (filter (λ e. not (still e)) changed)))) [
          | inl c ↦
              let (a, (p, s)) =
                All-contains (λ k a. P k a × (not (still (k, a)) ≡ true)) key _ c
                  (filter-All P (λ e. not (still e)) changed h) in
              inr (inl (rw (erase-eq, c) refl, a, p, ground (arith, s)))
          | inr c ↦
              elim (overwrite-cases P (filter still changed) view key
                (All-imp (λ e h. h.0) _ (filter-All P still changed h))) [
                  | inl (a, e, p) ↦ inl (a, rw (erase-eq, c) e, p)
                  | inr (out, e) ↦ inr (
                      inr (
                        ground (arith, contains-filter still key changed, c, out),
                        rw (erase-eq, c) e,
                      ))
                ]
        ]
