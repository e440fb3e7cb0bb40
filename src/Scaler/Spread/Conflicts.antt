-- ===== src/Scaler/Spread/Conflicts.antt =====
-- `detect_spread_requirement_conflicts` of crates/wadm/src/scaler/spreadscaler/mod.rs.
use wadm.Prelude.{
  ℕ, ◌+◌, ◌-◌, String, Bool, false, ◌&&◌, ◌||◌, Option, none, some, List, [], ◌∷◌, Map, lookup,
  insert, ltb, eqb, if◌then◌else◌, usize_mod, Message, format, join, str, num,
}
use wadm.External.{External}
use wadm.Manifest.{Spread}
use wadm.Storage.{Host}
use wadm.Command.{Command, ScaleComponent, scale_component}
use wadm.Scaler.Spread.Weights.{sum_usize}
use wadm.Scaler.Spread.Hosts.{satisfies}

-- Step 2: of the commands for one host the highest count counts, the first of equal ones. The
-- entry is the count with the command's index.
unfoldable pub change : Map (ℕ × ℕ) → ℕ → ScaleComponent → Map (ℕ × ℕ)
change changeset idx c =
    let entry : ℕ × ℕ = elim (lookup c.host_id changeset) [
      | none ↦ (0, usize_mod - 1)
      | some e ↦ e
    ] in
    if ltb entry.0 c.count || eqb c.count entry.0 && ltb idx entry.1
    then insert c.host_id (c.count, idx) changeset
    else insert c.host_id entry changeset

unfoldable pub changes : Map (ℕ × ℕ) → ℕ → List Command → Map (ℕ × ℕ)
unfolding change
changes changeset idx [] = changeset
changes changeset idx (scale_component c ∷ rest) = changes (change changeset idx c) (idx + 1) rest
changes changeset idx (_ ∷ rest) = changes changeset (idx + 1) rest

-- A host that is not eligible is not in the map, and stays out.
unfoldable pub apply_changes : Map (ℕ × ℕ) → Map ℕ → Map ℕ
apply_changes [] instances = instances
apply_changes ((host_id, entry) ∷ rest) instances =
    apply_changes rest (elim (lookup host_id instances) [
      | none ↦ instances
      | some _ ↦ insert host_id entry.0 instances
    ])

module _ {x : External} (hosts : Map (Host x)) where
  -- Step 1: the instances on each host that some spread may use.
  unfoldable pub add_eligible : Spread → Map ℕ → Map (Host x) → Map ℕ → Map ℕ
  add_eligible spread running [] instances = instances
  add_eligible spread running ((host_id, host) ∷ rest) instances =
      let count : ℕ = elim (lookup host_id running) [ none ↦ 0 | some n ↦ n ] in
      add_eligible spread running rest (
        if satisfies host.labels spread.requirements
        then insert host_id count instances
        else instances)

  unfoldable pub eligible_instances : List (Spread × ℕ) → Map ℕ → Map ℕ → Map ℕ
  unfolding add_eligible
  eligible_instances [] running instances = instances
  eligible_instances ((spread, _) ∷ rest) running instances =
      eligible_instances rest running (add_eligible spread running hosts instances)

  -- `hosts.get(host_id).unwrap()`: the identifiers come from `hosts`, so none is missing.
  abbrev host_satisfies : String → Spread → Bool
  host_satisfies host_id spread = elim (lookup host_id hosts) [
    | none ↦ false
    | some host ↦ satisfies host.labels spread.requirements
  ]

  unfoldable pub projected : Spread → Map ℕ → List ℕ
  projected spread [] = []
  projected spread ((host_id, count) ∷ rest) =
      let later = projected spread rest in
      if host_satisfies host_id spread then count ∷ later else later

  -- Step 3: for each name of a spread, the projected count and the target.
  unfoldable pub spread_instances : List (Spread × ℕ) → Map ℕ → Map (ℕ × ℕ) → Map (ℕ × ℕ)
  unfolding projected
  spread_instances [] instances acc = acc
  spread_instances ((spread, target) ∷ rest) instances acc =
      spread_instances rest instances
        (insert spread.name (sum_usize 0 (projected spread instances), target) acc)

-- Step 4
unfoldable pub conflicts : Map (ℕ × ℕ) → List Message
conflicts [] = []
conflicts ((name, (projected_count, target_count)) ∷ rest) =
    let later = conflicts rest in
    if eqb projected_count target_count
    then later
    else format
        "Spread requirement conflict: {} spread requires {} instances vs {} computed from reconciliation commands"
        (str name ∷ num target_count ∷ num projected_count ∷ [])
      ∷ later

unfoldable pub detect_spread_requirement_conflicts :
    {x : External} → List (Spread × ℕ) → Map (Host x) → Map ℕ → List Command → Option Message
unfolding changes apply_changes eligible_instances spread_instances conflicts
detect_spread_requirement_conflicts requirements hosts running commands =
    let instances =
      apply_changes (changes [] 0 commands) (eligible_instances hosts requirements running []) in
    elim (conflicts (spread_instances hosts requirements instances [])) [
      | [] ↦ none
      | c ∷ cs ↦ some (join ", " (c ∷ cs))
    ]
