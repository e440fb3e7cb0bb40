-- ===== src/Scaler/Spread/Hosts.antt =====
-- Which hosts a spread may use: the helpers of crates/wadm/src/scaler/spreadscaler/mod.rs.
pub mod Eligible
use wadm.Prelude.{
  String, Bool, false, ◌&&◌, not, Option, none, some, List, [], ◌∷◌, Map, lookup, contains, keys,
  ◌==◌, all, filter, flat_map,
}
use wadm.External.{External}
use wadm.Manifest.{Spread}
use wadm.Storage.{Host}
use wadm.Command.{scaler_key}

abbrev pub spread_key : String
spread_key = "wasmcloud.dev/spread_name"

-- `m.get(key).map(|v| v == value).unwrap_or(false)`
abbrev pub has_value : Map String → String × String → Bool
has_value m (key, value) = elim (lookup key m) [ none ↦ false | some v ↦ v == value ]

-- Every requirement is met by the labels.
unfoldable pub satisfies : Map String → Map String → Bool
satisfies labels requirements = all (has_value labels) requirements

-- BTreeMap::from_iter; the scaler's key comes first in the order of keys.
abbrev pub spreadscaler_annotations : String → String → Map String
spreadscaler_annotations spread_name scaler_id =
    (scaler_key, scaler_id) ∷ (spread_key, spread_name) ∷ []

module _ {x : External} where
  unfoldable pub eligible_hosts : Map (Host x) → Spread → Map (Host x)
  eligible_hosts all_hosts spread = filter (λ e. satisfies e.1.labels spread.requirements) all_hosts

  unfoldable pub compute_ineligible_hosts : Map (Host x) → List Spread → Map (Host x)
  compute_ineligible_hosts all_hosts spreads =
      let eligible_ids = flat_map (λ spread. keys (eligible_hosts all_hosts spread)) spreads in
      filter (λ e. not (contains e.0 eligible_ids)) all_hosts
