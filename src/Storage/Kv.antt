-- ===== src/Storage/Kv.antt =====
-- `NatsKvStore` of crates/wadm/src/storage/nats_kv.rs. One bucket entry holds all items of a kind;
-- a write carries the revision that was read, and is tried again when another writer came first.
pub mod Atomic
pub mod Maps
pub mod Refines
pub mod Progress
use Prim.Native.Nat.{suc, zero}
use wadm.Prelude.{
  ℕ, String, Bool, true, false, ◌&&◌, ◌||◌, Option, none, some, List, [], ◌∷◌, ◌++◌, Map, lookup,
  remove, contains_key, Result, ok, err, eqb, if◌then◌else◌,
}
use wadm.Prelude.Actions.{Action}
use wadm.Prelude.Texts.{text_append}
use wadm.External.{External}
use wadm.Manifest.Validation.Labels.{codes}
use wadm.Storage.{Component, Host, Provider}
use wadm.Storage.Sets.{map_from_iter}
use wadm.Storage.Store.{Table, Store}

-- async_nats: the entries of a bucket, and the answer to an update with an expected revision
pub data Operation : Type 0 where
  put delete purge : Operation

pub record Entry (B : Type 0) : Type 0 where
  pub operation : Operation
  pub value : B
  pub revision : ℕ

pub data Answer : Type 0 where
  written : Answer
  refused : String → Answer

pub record Bucket (B σ : Type 0) : Type 0 where
  pub entry : String → Action σ (Option (Entry B))
  pub update : String → B → ℕ → σ → Answer × σ

-- serde_json at the maps of one kind. What it writes is never empty, which `update_with_retries`
-- takes for nothing to write.
pub record Codec (B A : Type 0) : Type 0 where
  pub encode : Map A → Result B
  pub decode : B → Result (Map A)

-- `str::contains`
unfoldable pub is_prefix : List ℕ → List ℕ → Bool
is_prefix [] cs = true
is_prefix (p ∷ ps) [] = false
is_prefix (p ∷ ps) (c ∷ cs) = eqb p c && is_prefix ps cs

unfoldable pub is_part : List ℕ → List ℕ → Bool
is_part ps [] = is_prefix ps []
is_part ps (c ∷ cs) = is_prefix ps (c ∷ cs) || is_part ps cs

unfoldable pub is_wrong_sequence : String → Bool
is_wrong_sequence message = is_part (codes "wrong last sequence") (codes message)

-- An entry that was deleted keeps its revision.
unfoldable pub operation_data : {B A : Type 0} → Codec B A → Operation → B → ℕ → Result (Map A × ℕ)
operation_data codec Operation.put value revision = elim (codec.decode value) [
  | ok m ↦ ok (m, revision)
  | err f ↦ err f
]
operation_data codec Operation.delete value revision = ok ([], revision)
operation_data codec Operation.purge value revision = ok ([], revision)

unfoldable pub entry_data :
    {B A : Type 0} → Codec B A → Result (Option (Entry B)) → Result (Map A × ℕ)
entry_data codec (err e) = err e
entry_data codec (ok none) = ok ([], 0)
entry_data codec (ok (some e)) = operation_data codec e.operation e.value e.revision

-- The updaters: the bytes to write, or nothing where nothing changes.
unfoldable pub store_items : {B A : Type 0} → Codec B A → Map A → Map A → Result (Option B)
store_items codec items current = elim (codec.encode (map_from_iter current items)) [
  | ok b ↦ ok (some b)
  | err e ↦ err e
]

unfoldable pub remove_ids : {A : Type 0} → List String → Map A → Map A × Bool
remove_ids [] current = (current, false)
remove_ids (id ∷ ids) current =
    let (left, updated) = remove_ids ids (remove id current) in
    (left, contains_key id current || updated)

unfoldable pub remove_items : {B A : Type 0} → Codec B A → List String → Map A → Result (Option B)
remove_items codec ids current =
    let (left, updated) = remove_ids ids current in
    if updated then (elim (codec.encode left) [ ok b ↦ ok (some b) | err e ↦ err e ]) else ok none

module _ {B σ A : Type 0} (bucket : Bucket B σ) (codec : Codec B A) where
  unfoldable pub internal_list : String → Action σ (Map A × ℕ)
  internal_list key s = let (r, t) = bucket.entry key s in (entry_data codec r, t)

  -- One write; `again` is the rest of the loop.
  unfoldable pub write_once :
      String → Result (Option B) → ℕ → Action σ (Unit {0}) → Action σ (Unit {0})
  write_once key (err e) revision again s = (err e, s)
  write_once key (ok none) revision again s = (ok tt, s)
  write_once key (ok (some bytes)) revision again s =
      let (answer, t) = bucket.update key bytes revision s in
      let rest = again t in
      elim answer [
        | written ↦ (ok tt, t)
        | refused message ↦ if is_wrong_sequence message then rest else (err message, t)
      ]

  unfoldable pub attempt :
      String
      → (Map A → Result (Option B))
      → Action σ (Unit {0})
      → Result (Map A × ℕ)
      → Action σ (Unit {0})
  attempt key updater again (err e) s = (err e, s)
  attempt key updater again (ok (current, revision)) s =
      write_once key (updater current) revision again s

  -- The fuel is the number of attempts until the timeout.
  unfoldable pub update_with_retries :
      ℕ → String → (Map A → Result (Option B)) → Action σ (Unit {0})
  update_with_retries zero key updater s = (err "Timed out while retrying updates to key", s)
  update_with_retries (suc attempts) key updater s =
      let (r, t) = internal_list key s in
      attempt key updater (update_with_retries attempts key updater) r t

  unfoldable pub store_many : ℕ → String → Map A → Action σ (Unit {0})
  store_many attempts key items = update_with_retries attempts key (store_items codec items)

  unfoldable pub delete_many : ℕ → String → List String → Action σ (Unit {0})
  delete_many attempts key ids = update_with_retries attempts key (remove_items codec ids)

  unfoldable pub list_items : String → Action σ (Map A)
  list_items key s =
      let (r, t) = internal_list key s in (elim r [ ok d ↦ ok d.0 | err e ↦ err e ], t)

  unfoldable pub get_item : String → String → Action σ (Option A)
  get_item key id s =
      let (r, t) = list_items key s in (elim r [ ok m ↦ ok (lookup id m) | err e ↦ err e ], t)

-- `generate_key`, from the kind and the lattice
abbrev pub generate_key : String → String → String
generate_key kind lattice_id = text_append kind (text_append "_" lattice_id)
