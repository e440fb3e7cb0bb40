-- ===== src/Scaler/Spread/Weights/Order.antt =====
-- The order in which `compute_spread` returns the spreads: the heaviest first, ties as given.
use native.Mathlib.Nat.{le_trans}
use wadm.Prelude.{
  ℕ, ◌*◌, ◌-◌, ◌≤◌, ◌<◌, ◌≡◌, ◌≢◌, refl, ◌∙◌, ap, some, List, [], ◌∷◌, arith, ltb, leb, eqb,
  if◌then◌else◌, filter, sum, All, usize_mod, inl, inr, Option-cases, Bool-cases,
}
use wadm.Manifest.{Spread, SpreadScalerProperty}
use wadm.Scaler.Spread.Weights.{
  weight_of, insert_by_weight, sort_by_weight, shares, distribute, counts, spreads_of, settle,
  first_shares, compute_spread,
}
use wadm.Scaler.Spread.Weights.Total.{
  total_weight, shares_deficit, Fits, ShareWays, settle_cases, sorted_shares,
}
use wadm.Scaler.Spread.Weights.Fair.{sort_by_weight-eq-nil}

abbrev pub IsDescending : List Spread → Type 0
IsDescending [] = Unit
IsDescending (s ∷ ss) = All (λ t. weight_of t ≤ weight_of s) ss × IsDescending ss

-- the spreads of one weight, in order
abbrev pub of_weight : ℕ → List Spread → List Spread
of_weight w = filter (λ s. eqb (weight_of s) w)

All-mono :
    (a b : ℕ) (ss : List Spread)
    → a ≤ b
    → All (λ t. weight_of t ≤ a) ss
    → All (λ t. weight_of t ≤ b) ss
All-mono a b [] h k = tt
All-mono a b (s ∷ ss) h (k, ks) = (le_trans k h, All-mono a b ss h ks)

insert_by_weight-All :
    (b : ℕ) (s : Spread) (ss : List Spread)
    → weight_of s ≤ b
    → All (λ t. weight_of t ≤ b) ss
    → All (λ t. weight_of t ≤ b) (insert_by_weight s ss)
unfolding insert_by_weight
insert_by_weight-All b s [] h k = (h, tt)
insert_by_weight-All b s (t ∷ ts) h (k, ks) = elim (Bool-cases (leb (weight_of t) (weight_of s))) [
  | inl e ↦ rw e (h, (k, ks))
  | inr e ↦ rw e (k, insert_by_weight-All b s ts h ks)
]

insert_by_weight-IsDescending :
    (s : Spread) (ss : List Spread) → IsDescending ss → IsDescending (insert_by_weight s ss)
unfolding insert_by_weight
insert_by_weight-IsDescending s [] d = (tt, tt)
insert_by_weight-IsDescending s (t ∷ ts) (k, d) =
    elim (Bool-cases (leb (weight_of t) (weight_of s))) [
      | inl e ↦
          let h : weight_of t ≤ weight_of s = ground arith in
          rw e ((h, All-mono (weight_of t) (weight_of s) ts h k), (k, d))
      | inr e ↦
          let h : weight_of s ≤ weight_of t = ground arith in
          rw e (insert_by_weight-All (weight_of t) s ts h k, insert_by_weight-IsDescending s ts d)
    ]

sort_by_weight-IsDescending : (ss : List Spread) → IsDescending (sort_by_weight ss)
unfolding sort_by_weight
sort_by_weight-IsDescending [] = tt
sort_by_weight-IsDescending (s ∷ ss) =
    insert_by_weight-IsDescending s _ (sort_by_weight-IsDescending ss)

of_weight-insert_by_weight :
    (w : ℕ) (s : Spread) (ss : List Spread)
    → of_weight w (insert_by_weight s ss) ≡ of_weight w (s ∷ ss)
unfolding insert_by_weight
of_weight-insert_by_weight w s [] = refl
of_weight-insert_by_weight w s (t ∷ ts) = ground (arith, of_weight-insert_by_weight w s ts)

of_weight-sort_by_weight :
    (w : ℕ) (ss : List Spread) → of_weight w (sort_by_weight ss) ≡ of_weight w ss
unfolding sort_by_weight
of_weight-sort_by_weight w [] = refl
of_weight-sort_by_weight w (s ∷ ss) =
    ground
      (arith, of_weight-insert_by_weight w s (sort_by_weight ss), of_weight-sort_by_weight w ss)

spreads_of-shares : (n total : ℕ) (ss : List Spread) → spreads_of (shares n total ss) ≡ ss
unfolding shares
spreads_of-shares n total [] = refl
spreads_of-shares n total (s ∷ ss) = ap (◌∷◌ s) (spreads_of-shares n total ss)

spreads_of-distribute :
    (d : ℕ) (xs : List (Spread × ℕ)) → spreads_of (distribute d xs) ≡ spreads_of xs
unfolding distribute
spreads_of-distribute d [] = refl
spreads_of-distribute d ((s, c) ∷ xs) =
    ap (◌∷◌ s) (spreads_of-distribute (if ltb 0 d then d - 1 else d) xs)

spreads_of-settle :
    (n : ℕ) (xs : List (Spread × ℕ))
    → sum (counts xs) ≤ n
    → sum (counts xs) < usize_mod
    → spreads_of (settle n xs) ≡ spreads_of xs
spreads_of-settle n xs h b = elim (settle_cases n xs h b) [
  | inl (e, _) ↦ rw e
  | inr e ↦ rw e (spreads_of-distribute (n - sum (counts xs)) xs)
]

spreads_of-first_shares :
    (config : SpreadScalerProperty) (out : List (Spread × ℕ))
    → Fits config
    → config.spread ≢ []
    → ShareWays config.instances (sort_by_weight config.spread) (some out)
    → config.instances * total_weight (sort_by_weight config.spread) < usize_mod
    → spreads_of (settle config.instances out) ≡ sort_by_weight config.spread
spreads_of-first_shares config out f given (inl (e, _)) p =
    absurd (given (sort_by_weight-eq-nil config.spread e))
spreads_of-first_shares config out f given (inr (inl (_, _, e))) p = cc
spreads_of-first_shares config out f given (inr (inr (_, pos, e))) p =
    let n = config.instances in
    let ss = sort_by_weight config.spread in
    let o : shares n (total_weight ss) ss ≡ out = ground arith in
    let (lo, hi) = shares_deficit n ss pos p in
    let b = f.instances in
    rw (← o) (
      spreads_of-settle n (shares n (total_weight ss) ss) lo (omega arith)
      ∙ spreads_of-shares n (total_weight ss) ss)

-- No spread is lost or made up: they come by falling weight, and those of one weight as given.
pub compute_spread_order :
    (config : SpreadScalerProperty) (out : List (Spread × ℕ))
    → Fits config
    → config.spread ≢ []
    → compute_spread config ≡ some out
    → IsDescending (spreads_of out)
      × ((w : ℕ) → of_weight w (spreads_of out) ≡ of_weight w config.spread)
unfolding compute_spread
compute_spread_order config out f given e =
    elim (Option-cases (first_shares config.instances (sort_by_weight config.spread))) [
      | inl missing ↦ ground arith
      | inr (first, found) ↦
          let o : settle config.instances first ≡ out = ground arith in
          let (ways, p) = sorted_shares config f in
          rw (← o, spreads_of-first_shares config first f given (rw found at ways) p)
            (
              sort_by_weight-IsDescending config.spread,
              λ w. of_weight-sort_by_weight w config.spread,
            )
    ]
