-- ===== src/Scaler/Config.antt =====
-- The scaler that keeps a named configuration in place: crates/wadm/src/scaler/configscaler.rs.
pub mod Sync
use wadm.Prelude.{
  String, Bool, true, false, not, Option, none, some, List, [], ◌∷◌, Map, Result, ok, err, literal,
  format, str, ◌==◌, if◌then◌else◌,
}
use wadm.External.{External}
use wadm.Api.{StatusInfo, StatusType, same, deployed, failed, reconciling}
use wadm.Command.{Command, put_config, delete_config}
use wadm.Event.{Event, config_set, config_deleted, host_heartbeat}
use wadm.Event.Matching.{map_eq}
use wadm.Scaler.{Scaler}

pub record ConfigScaler : Type 0 where
  pub id : String
  pub config_name : String
  pub config : Option (Map String)
  pub status : StatusInfo

abbrev pub with_status : StatusInfo → ConfigScaler → ConfigScaler
with_status info s = record s { status = info }

-- `reconcile`, given what the bucket answers and what is wanted.
unfoldable pub sync :
    Result (Option (Map String))
    → Option (Map String)
    → ConfigScaler
    → Result (List Command) × ConfigScaler
sync (ok (some found)) none s =
    (ok [], with_status (record { status_type = deployed; message = literal "" }) s)
sync (ok none) none s = (
  ok [],
  with_status
      (record {
        status_type = failed;
        message = format "Specified configuration {} does not exist" (str s.config_name ∷ []);
      })
      s,
)
sync (ok (some found)) (some wanted) s =
    if map_eq found wanted
    then (ok [], with_status (record { status_type = deployed; message = literal "" }) s)
    else (
      ok (put_config (record { config_name = s.config_name; config = wanted }) ∷ []),
      with_status
          (record { status_type = reconciling; message = literal "Configuration out of sync" }) s,
    )
sync (ok none) (some wanted) s = (
  ok (put_config (record { config_name = s.config_name; config = wanted }) ∷ []),
  with_status (record { status_type = reconciling; message = literal "Configuration out of sync" })
      s,
)
sync (err e) _ s = (ok [], with_status (record { status_type = failed; message = literal e }) s)

-- `get_config` is the bucket.
module _ (get_config : String → Result (Option (Map String))) where
  unfoldable pub reconcile : ConfigScaler → Result (List Command) × ConfigScaler
  unfolding sync
  reconcile s = sync (get_config s.config_name) s.config s

  unfoldable pub handle_event :
      {x : External} → Event x → ConfigScaler → Result (List Command) × ConfigScaler
  unfolding reconcile
  handle_event (config_set name) s = if name == s.config_name then reconcile s else (ok [], s)
  handle_event (config_deleted name) s = if name == s.config_name then reconcile s else (ok [], s)
  handle_event (host_heartbeat _) s =
      if same s.status.status_type deployed then (ok [], s) else reconcile s
  handle_event _ s = (ok [], s)

  -- `status` reconciles first.
  unfoldable pub status : ConfigScaler → StatusInfo × ConfigScaler
  unfolding reconcile
  status s = let (_, t) = reconcile s in (t.status, t)

-- A configuration that was not supplied is managed elsewhere, and stays.
unfoldable pub cleanup : ConfigScaler → Result (List Command) × ConfigScaler
cleanup s = elim s.config [
  | none ↦ (ok [], s)
  | some _ ↦ (ok (delete_config s.config_name ∷ []), s)
]

abbrev pub config_scaler :
    {x : External} → (String → Result (Option (Map String))) → Scaler x ConfigScaler
config_scaler get_config = record {
  id = λ s. s.id;
  name = λ s. s.config_name;
  kind = λ s. "ConfigScaler";
  status = status get_config;
  update_config = λ _ s. (ok [], s);
  handle_event = handle_event get_config;
  reconcile = reconcile get_config;
  cleanup = cleanup;
}
