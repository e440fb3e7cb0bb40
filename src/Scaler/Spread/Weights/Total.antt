-- ===== src/Scaler/Spread/Weights/Total.antt =====
-- The counts that `compute_spread` hands out add up to the instances that were asked for.
use wadm.Prelude.{
  ℕ, suc, ◌+◌, ◌-◌, ◌*◌, ◌/◌, ◌%◌, ◌≤◌, ◌<◌, ◌≡◌, refl, ◌∙◌, ap, Option, none, some, List, [], ◌∷◌,
  map, arith, eqb, length, sum, usize_mod, ◌⊎◌, ◌≢◌, inl, inr, Bool-cases, Option-cases,
}
use wadm.Manifest.{Spread, SpreadScalerProperty, default_spread}
use wadm.Scaler.Spread.Weights.{
  weight_of, insert_by_weight, sort_by_weight, sum_usize, shares, distribute, counts, settle,
  first_shares, compute_spread,
}

abbrev pub total_weight : List Spread → ℕ
total_weight ss = sum (map weight_of ss)

total_weight-insert_by_weight :
    (s : Spread) (ss : List Spread)
    → total_weight (insert_by_weight s ss) ≡ weight_of s + total_weight ss
unfolding insert_by_weight
total_weight-insert_by_weight s [] = refl
total_weight-insert_by_weight s (t ∷ ts) = ground (arith, total_weight-insert_by_weight s ts)

pub total_weight-sort_by_weight :
    (ss : List Spread) → total_weight (sort_by_weight ss) ≡ total_weight ss
unfolding sort_by_weight
total_weight-sort_by_weight [] = refl
total_weight-sort_by_weight (s ∷ ss) =
    total_weight-insert_by_weight s (sort_by_weight ss)
    ∙ ap (λ (t : ℕ). weight_of s + t) (total_weight-sort_by_weight ss)

pub sum_usize_lem :
    (acc : ℕ) (xs : List ℕ) → acc + sum xs < usize_mod → sum_usize acc xs ≡ acc + sum xs
unfolding sum_usize
sum_usize_lem acc [] h = omega arith
sum_usize_lem acc (x ∷ xs) h =
    let e : (acc + x) % usize_mod ≡ acc + x = omega arith in
    rw (e, sum_usize) (omega (arith, sum_usize_lem (acc + x) xs))

pub sum_usize_total : (xs : List ℕ) → sum xs < usize_mod → sum_usize 0 xs ≡ sum xs
sum_usize_total xs h = omega (arith, sum_usize_lem 0 xs (omega arith))

-- a share, rounded down, lies between the exact share and one less
pub share_bounds :
    (a total : ℕ) → 0 < total → (a / total * total ≤ a) × (a + 1 ≤ a / total * total + total)
share_bounds a total h = grind arith

shares_bounds :
    (n total : ℕ) (ss : List Spread)
    → 0 < total
    → n * total_weight ss < usize_mod
    → (sum (counts (shares n total ss)) * total ≤ n * total_weight ss)
      × (n * total_weight ss + length ss
          ≤ sum (counts (shares n total ss)) * total + length ss * total)
unfolding shares
shares_bounds n total [] p h = (omega arith, omega arith)
shares_bounds n total (s ∷ ss) p h =
    let e : n * weight_of s % usize_mod ≡ n * weight_of s = omega arith in
    let (lo, hi) = share_bounds (n * weight_of s) total p in
    let (los, his) = shares_bounds n total ss p (omega arith) in rw e (omega arith, omega arith)

-- a factor that is not 0 is cancelled from an inequality
le_of_mul_le : (a b k : ℕ) → 0 < k → a * k ≤ b * k → a ≤ b
le_of_mul_le a b k p h = grind arith

-- The shares fall short of what was asked for by less than one instance for each spread.
pub shares_deficit :
    (n : ℕ) (ss : List Spread)
    → 0 < total_weight ss
    → n * total_weight ss < usize_mod
    → (sum (counts (shares n (total_weight ss) ss)) ≤ n)
      × (n ≤ sum (counts (shares n (total_weight ss) ss)) + length ss)
shares_deficit n ss p h =
    let (lo, hi) = shares_bounds n (total_weight ss) ss p h in
    (
      le_of_mul_le _ n (total_weight ss) p lo,
      le_of_mul_le n (sum (counts (shares n (total_weight ss) ss)) + length ss) (total_weight ss) p
          (omega arith),
    )

sum-distribute :
    (diff : ℕ) (xs : List (Spread × ℕ))
    → diff ≤ length xs
    → sum (counts xs) + diff < usize_mod
    → sum (counts (distribute diff xs)) ≡ sum (counts xs) + diff
unfolding distribute
sum-distribute diff [] h b = omega arith
sum-distribute diff ((s, c) ∷ rest) h b =
    ground (arith, sum-distribute (diff - 1) rest, sum-distribute diff rest)

pub length-shares : (n total : ℕ) (ss : List Spread) → length (shares n total ss) ≡ length ss
unfolding shares
length-shares n total [] = refl
length-shares n total (s ∷ ss) = ap suc (length-shares n total ss)

pub settle_cases :
    (n : ℕ) (xs : List (Spread × ℕ))
    → sum (counts xs) ≤ n
    → sum (counts xs) < usize_mod
    → ((settle n xs ≡ xs) × (sum (counts xs) ≡ n))
      ⊎ (settle n xs ≡ distribute (n - sum (counts xs)) xs)
unfolding settle
settle_cases n xs h b = ground (arith, sum_usize_total (counts xs) b)

sum-settle :
    (n : ℕ) (xs : List (Spread × ℕ))
    → n < usize_mod
    → sum (counts xs) ≤ n
    → n ≤ sum (counts xs) + length xs
    → sum (counts (settle n xs)) ≡ n
sum-settle n xs b lo hi = elim (settle_cases n xs lo (omega arith)) [
  | inl (e, t) ↦ rw e t
  | inr e ↦
      rw e (omega (arith, sum-distribute (n - sum (counts xs)) xs (omega arith) (omega arith)))
]

-- What the program's `usize` arithmetic needs so that no product or sum wraps.
pub record Fits (config : SpreadScalerProperty) : Type 0 where
  pub instances : config.instances < usize_mod
  pub weight : total_weight config.spread < usize_mod
  pub product : config.instances * total_weight config.spread < usize_mod

-- The three ways that the first shares come out.
abbrev pub ShareWays : ℕ → List Spread → Option (List (Spread × ℕ)) → Type 0
ShareWays n ss first =
    ((ss ≡ []) × (first ≡ some ((default_spread, n) ∷ [])))
    ⊎ ((ss ≢ []) × (total_weight ss ≡ 0) × (first ≡ none))
    ⊎ ((ss ≢ []) × (0 < total_weight ss) × (first ≡ some (shares n (total_weight ss) ss)))

pub first_shares_cases :
    (n : ℕ) (ss : List Spread) → total_weight ss < usize_mod → ShareWays n ss (first_shares n ss)
unfolding first_shares
first_shares_cases n [] w = inl (refl, refl)
first_shares_cases n (s ∷ ss) w =
    rw (sum_usize_total (map weight_of (s ∷ ss)) w)
      (elim (Bool-cases (eqb (total_weight (s ∷ ss)) 0)) [
        | inl z ↦ inr (inl (λ e. cc, ground arith, rw z))
        | inr p ↦ inr (inr (λ e. cc, ground arith, rw p))
      ])

sum_of_first :
    (n : ℕ) (ss : List Spread) (out : List (Spread × ℕ))
    → n < usize_mod
    → n * total_weight ss < usize_mod
    → ShareWays n ss (some out)
    → sum (counts (settle n out)) ≡ n
sum_of_first n ss out b p (inl (_, e)) =
    let o : (default_spread, n) ∷ [] ≡ out = ground arith in
    rw (← o) (sum-settle n ((default_spread, n) ∷ []) b (omega arith) (omega arith))
sum_of_first n ss out b p (inr (inl (_, _, e))) = cc
sum_of_first n ss out b p (inr (inr (_, pos, e))) =
    let o : shares n (total_weight ss) ss ≡ out = ground arith in
    let (lo, hi) = shares_deficit n ss pos p in
    rw (← o) (sum-settle n _ b lo (omega (arith, length-shares n (total_weight ss) ss)))

-- What `compute_spread` starts from, in terms of the spreads as they are given.
pub sorted_shares :
    (config : SpreadScalerProperty)
    → Fits config
    → let ss = sort_by_weight config.spread in
      ShareWays config.instances ss (first_shares config.instances ss)
      × (config.instances * total_weight ss < usize_mod)
sorted_shares config f =
    let same = total_weight-sort_by_weight config.spread in
    (
      first_shares_cases config.instances (sort_by_weight config.spread) (rw same f.weight),
      rw same f.product,
    )

-- The counts add up to the instances that the scaler asks for, however the weights divide them.
pub compute_spread_total :
    (config : SpreadScalerProperty) (out : List (Spread × ℕ))
    → Fits config
    → compute_spread config ≡ some out
    → sum (counts out) ≡ config.instances
unfolding compute_spread
compute_spread_total config out f e =
    elim (Option-cases (first_shares config.instances (sort_by_weight config.spread))) [
      | inl missing ↦ ground arith
      | inr (first, found) ↦
          let o : settle config.instances first ≡ out = ground arith in
          let (ways, p) = sorted_shares config f in
          rw (← o) (sum_of_first config.instances _ first f.instances p (rw found at ways))
    ]
