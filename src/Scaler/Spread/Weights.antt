-- ===== src/Scaler/Spread/Weights.antt =====
-- `compute_spread` of crates/wadm/src/scaler/spreadscaler/mod.rs: how many instances each spread
-- of a spread scaler gets. `none` is the panic of a division by a total weight of 0.
pub mod Total
pub mod Fair
pub mod Order
use Prim.Native.Nat.{compare, Ordering}
use wadm.Prelude.{
  ℕ, ◌+◌, ◌-◌, ◌*◌, ◌/◌, ◌%◌, Bool, Option, none, some, List, [], ◌∷◌, map, ltb, leb, eqb,
  if◌then◌else◌, usize_mod,
}
use wadm.Manifest.{Spread, SpreadScalerProperty, default_spread, default_spread_weight}

-- `s.weight.unwrap_or(DEFAULT_SPREAD_WEIGHT)`
abbrev pub weight_of : Spread → ℕ
weight_of s = elim s.weight [ none ↦ default_spread_weight | some w ↦ w ]

-- `sort_by_key(|s| Reverse(weight))`, a stable sort: here by insertion.
unfoldable pub insert_by_weight : Spread → List Spread → List Spread
insert_by_weight s [] = s ∷ []
insert_by_weight s (t ∷ ts) =
    let rest = insert_by_weight s ts in
    if leb (weight_of t) (weight_of s) then s ∷ t ∷ ts else t ∷ rest

unfoldable pub sort_by_weight : List Spread → List Spread
sort_by_weight [] = []
sort_by_weight (s ∷ ss) = insert_by_weight s (sort_by_weight ss)

-- `.sum::<usize>()`, which wraps
unfoldable pub sum_usize : ℕ → List ℕ → ℕ
sum_usize acc [] = acc
sum_usize acc (x ∷ xs) = sum_usize ((acc + x) % usize_mod) xs

-- The share of each spread, rounded down.
unfoldable pub shares : ℕ → ℕ → List Spread → List (Spread × ℕ)
shares n total [] = []
shares n total (s ∷ ss) = (s, n * weight_of s % usize_mod / total) ∷ shares n total ss

-- One instance more for each of the first `diff` spreads.
unfoldable pub distribute : ℕ → List (Spread × ℕ) → List (Spread × ℕ)
distribute diff [] = []
distribute diff ((s, count) ∷ rest) =
    (s, (count + (if ltb 0 diff then 1 else 0)) % usize_mod)
    ∷ distribute (if ltb 0 diff then diff - 1 else diff) rest

abbrev pub counts : List (Spread × ℕ) → List ℕ
counts = map (λ p. p.1)

abbrev pub spreads_of : List (Spread × ℕ) → List Spread
spreads_of = map (λ p. p.0)

-- The comparison of what was handed out with what was asked for.
unfoldable pub settle : ℕ → List (Spread × ℕ) → List (Spread × ℕ)
settle n computed =
    let given = sum_usize 0 (counts computed) in
    elim (compare given n) [ Ordering.lt ↦ distribute (n - given) computed | _ ↦ computed ]

-- The first shares: the default spread where the sorted list is empty.
unfoldable pub first_shares : ℕ → List Spread → Option (List (Spread × ℕ))
first_shares n [] = some ((default_spread, n) ∷ [])
first_shares n (s ∷ ss) =
    let total = sum_usize 0 (map weight_of (s ∷ ss)) in
    if eqb total 0 then none else some (shares n total (s ∷ ss))

unfoldable pub compute_spread : SpreadScalerProperty → Option (List (Spread × ℕ))
unfolding first_shares settle
compute_spread config = elim (first_shares config.instances (sort_by_weight config.spread)) [
  | none ↦ none
  | some computed ↦ some (settle config.instances computed)
]
