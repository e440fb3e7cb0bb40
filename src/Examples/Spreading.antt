-- ===== src/Examples/Spreading.antt =====
-- Examples for the spread of instances over weights.
use wadm.Prelude.{ℕ, ◌≡◌, ◌≢◌, ◌↔◌, refl, none, some, List, [], ◌∷◌, All, arith, sum}
use wadm.Manifest.{Spread, SpreadScalerProperty}
use wadm.Scaler.Spread.Weights.{
  compute_spread, sort_by_weight, insert_by_weight, sum_usize, shares, distribute, counts,
  spreads_of,
}
use wadm.Scaler.Spread.Weights.Total.{Fits, compute_spread_total, total_weight}
use wadm.Scaler.Spread.Weights.Fair.{IsFair, compute_spread-IsFair, compute_spread-eq-none_iff}
use wadm.Scaler.Spread.Weights.Order.{IsDescending, of_weight, compute_spread_order}
use wadm.Examples.{config_of, east, west, north, in_zone}

abbrev config : SpreadScalerProperty
config = config_of 11 (east ∷ west ∷ north ∷ [])

abbrev spread_out : List (Spread × ℕ)
spread_out = (west, 7) ∷ (east, 2) ∷ (north, 2) ∷ []

config-Fits : Fits config
config-Fits = record { instances = omega arith; weight = omega arith; product = omega arith }

given : config.spread ≢ []
given e = cc

spread_out_lem : compute_spread config ≡ some spread_out
unfolding compute_spread sort_by_weight insert_by_weight sum_usize shares distribute
spread_out_lem = refl

compute_spread_total_example : sum (counts spread_out) ≡ 11
compute_spread_total_example = compute_spread_total config spread_out config-Fits spread_out_lem

compute_spread-IsFair_example : All (IsFair 11 160) spread_out
compute_spread-IsFair_example =
    compute_spread-IsFair config spread_out config-Fits given spread_out_lem

compute_spread_order_example :
    IsDescending (spreads_of spread_out)
    × ((w : ℕ) → of_weight w (spreads_of spread_out) ≡ of_weight w config.spread)
compute_spread_order_example =
    compute_spread_order config spread_out config-Fits given spread_out_lem

abbrev weightless : SpreadScalerProperty
weightless = config_of 3 (in_zone "east" "us-east" (some 0) ∷ [])

weightless-Fits : Fits weightless
weightless-Fits = record { instances = omega arith; weight = omega arith; product = omega arith }

compute_spread-eq-none_iff_example :
    (compute_spread weightless ≡ none)
    ↔ ((weightless.spread ≢ []) × (total_weight weightless.spread ≡ 0))
compute_spread-eq-none_iff_example = compute_spread-eq-none_iff weightless weightless-Fits
