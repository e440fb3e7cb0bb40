-- ===== src/Scaler/Spread/Weights/Fair.antt =====
-- Each spread's share of the instances against its weight, and when `compute_spread` panics.
use wadm.Prelude.{
  ℕ, suc, zero, ◌+◌, ◌-◌, ◌*◌, ◌%◌, ◌≤◌, ◌<◌, ◌≡◌, ◌≢◌, ◌↔◌, refl, ap, none, some, List, [], ◌∷◌,
  arith, ltb, length, sum, All, usize_mod, inl, inr, true, Option-cases,
}
use wadm.Manifest.{Spread, SpreadScalerProperty}
use wadm.Scaler.Spread.Weights.{
  weight_of, insert_by_weight, sort_by_weight, shares, distribute, counts, settle, first_shares,
  compute_spread,
}
use wadm.Scaler.Spread.Weights.Total.{
  total_weight, total_weight-sort_by_weight, share_bounds, shares_deficit, Fits, ShareWays,
  settle_cases, sorted_shares, length-shares,
}

insert_by_weight-ne-nil : (s : Spread) (ss : List Spread) → insert_by_weight s ss ≢ []
unfolding insert_by_weight
insert_by_weight-ne-nil s [] = cc
insert_by_weight-ne-nil s (t ∷ ts) = ground arith

pub sort_by_weight-eq-nil : (ss : List Spread) → sort_by_weight ss ≡ [] → ss ≡ []
unfolding sort_by_weight
sort_by_weight-eq-nil [] e = refl
sort_by_weight-eq-nil (s ∷ ss) e = absurd (insert_by_weight-ne-nil s _ e)

sort_by_weight-nil : sort_by_weight [] ≡ []
unfolding sort_by_weight
sort_by_weight-nil = refl

-- The count is the exact share n * w / total rounded down, or one more.
abbrev pub IsFair : ℕ → ℕ → Spread × ℕ → Type 0
IsFair n total (s, c) =
    (n * weight_of s < c * total + total) × (c * total ≤ n * weight_of s + total)

abbrev IsFloor : ℕ → ℕ → Spread × ℕ → Type 0
IsFloor n total (s, c) = (n * weight_of s < c * total + total) × (c * total ≤ n * weight_of s)

shares-IsFloor :
    (n total : ℕ) (ss : List Spread)
    → 0 < total
    → n * total_weight ss < usize_mod
    → All (IsFloor n total) (shares n total ss)
unfolding shares
shares-IsFloor n total [] p h = tt
shares-IsFloor n total (s ∷ ss) p h =
    let e : n * weight_of s % usize_mod ≡ n * weight_of s = omega arith in
    let (lo, hi) = share_bounds (n * weight_of s) total p in
    (rw e (omega arith, omega arith), shares-IsFloor n total ss p (omega arith))

floor-IsFair :
    (n total : ℕ) (xs : List (Spread × ℕ)) → All (IsFloor n total) xs → All (IsFair n total) xs
floor-IsFair n total [] h = tt
floor-IsFair n total ((s, c) ∷ xs) (h, hs) = ((h.0, omega arith), floor-IsFair n total xs hs)

distribute-IsFair :
    (n total diff : ℕ) (xs : List (Spread × ℕ))
    → diff ≤ length xs
    → sum (counts xs) + diff < usize_mod
    → All (IsFloor n total) xs
    → All (IsFair n total) (distribute diff xs)
unfolding distribute
distribute-IsFair n total diff [] d b h = tt
distribute-IsFair n total zero ((s, c) ∷ xs) d b (h, hs) =
    let e : (c + 0) % usize_mod ≡ c = omega arith in
    (rw e (omega arith, omega arith), distribute-IsFair n total 0 xs (omega arith) (omega arith) hs)
distribute-IsFair n total (suc diff) ((s, c) ∷ xs) d b (h, hs) =
    let t : ltb 0 (suc diff) ≡ true = ground arith in
    let e : (c + 1) % usize_mod ≡ c + 1 = omega arith in
    let p : suc diff - 1 ≡ diff = omega arith in
    rw (t, e, p)
      ((omega arith, omega arith), distribute-IsFair n total diff xs (omega arith) (omega arith) hs)

settle-IsFair :
    (n total : ℕ) (xs : List (Spread × ℕ))
    → n < usize_mod
    → sum (counts xs) ≤ n
    → n ≤ sum (counts xs) + length xs
    → All (IsFloor n total) xs
    → All (IsFair n total) (settle n xs)
settle-IsFair n total xs b lo hi h = elim (settle_cases n xs lo (omega arith)) [
  | inl (e, _) ↦ rw e (floor-IsFair n total xs h)
  | inr e ↦ rw e (distribute-IsFair n total (n - sum (counts xs)) xs (omega arith) (omega arith) h)
]

module _ (config : SpreadScalerProperty) (f : Fits config) (given : config.spread ≢ []) where
  first_shares-IsFair :
      (out : List (Spread × ℕ))
      → ShareWays config.instances (sort_by_weight config.spread) (some out)
      → config.instances * total_weight (sort_by_weight config.spread) < usize_mod
      → All (IsFair config.instances (total_weight config.spread)) (settle config.instances out)
  first_shares-IsFair out (inl (e, _)) p = absurd (given (sort_by_weight-eq-nil config.spread e))
  first_shares-IsFair out (inr (inl (_, _, e))) p = cc
  first_shares-IsFair out (inr (inr (_, pos, e))) p =
      let n = config.instances in
      let ss = sort_by_weight config.spread in
      let o : shares n (total_weight ss) ss ≡ out = ground arith in
      let (lo, hi) = shares_deficit n ss pos p in
      rw (← o, ← total_weight-sort_by_weight config.spread)
        (settle-IsFair n (total_weight ss) (shares n (total_weight ss) ss) f.instances lo
          (omega (arith, length-shares n (total_weight ss) ss))
          (shares-IsFloor n (total_weight ss) ss pos p))

-- Each spread gets its exact share rounded down, or one instance more.
pub compute_spread-IsFair :
    (config : SpreadScalerProperty) (out : List (Spread × ℕ))
    → Fits config
    → config.spread ≢ []
    → compute_spread config ≡ some out
    → All (IsFair config.instances (total_weight config.spread)) out
unfolding compute_spread
compute_spread-IsFair config out f given e =
    elim (Option-cases (first_shares config.instances (sort_by_weight config.spread))) [
      | inl missing ↦ ground arith
      | inr (first, found) ↦
          let o : settle config.instances first ≡ out = ground arith in
          let (ways, p) = sorted_shares config f in
          rw (← o) (first_shares-IsFair config f given first (rw found at ways) p)
    ]

-- A division by zero, the only panic, happens exactly when there are spreads and all weigh nothing.
pub compute_spread-eq-none_iff :
    (config : SpreadScalerProperty)
    → Fits config
    → (compute_spread config ≡ none) ↔ ((config.spread ≢ []) × (total_weight config.spread ≡ 0))
unfolding compute_spread
compute_spread-eq-none_iff config f = ground (
  arith,
  (sorted_shares config f).0,
  total_weight-sort_by_weight config.spread,
  sort_by_weight-eq-nil config.spread,
  ap sort_by_weight {x = config.spread} {y = []},
  sort_by_weight-nil,
)
