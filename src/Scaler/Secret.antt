-- ===== src/Scaler/Secret.antt =====
-- The scaler that keeps a secret in place: crates/wadm/src/scaler/secretscaler.rs.
use wadm.Prelude.{
  String, Option, none, some, List, [], ◌∷◌, Map, Result, ok, err, literal, format, str, ◌==◌,
  if◌then◌else◌,
}
use wadm.External.{External}
use wadm.Api.{StatusInfo, same, deployed, failed, reconciling}
use wadm.Command.{Command, put_config, delete_config}
use wadm.Event.{Event, config_set, config_deleted, host_heartbeat}
use wadm.Scaler.{Scaler}

pub record SecretScaler (x : External) : Type 0 where
  pub id : String
  pub secret_name : String
  pub secret_config : x.SecretConfig
  pub status : StatusInfo

module _ {x : External} where
  abbrev pub with_status : StatusInfo → SecretScaler x → SecretScaler x
  with_status info s = record s { status = info }

  -- A secret that is missing or out of date is put, if it can be converted.
  unfoldable pub put_secret :
      Result (Map String) → SecretScaler x → Result (List Command) × SecretScaler x
  put_secret (ok config) s = (
    ok (put_config (record { config_name = s.secret_name; config = config }) ∷ []),
    with_status (record { status_type = reconciling; message = literal "Secret out of sync" }) s,
  )
  put_secret (err e) s = (
    ok [],
    with_status
        (record {
          status_type = failed;
          message = format "Failed to convert secret config to map: {}." (str e ∷ []);
        })
        s,
  )

  unfoldable pub sync :
      Result (Option x.SecretConfig) → SecretScaler x → Result (List Command) × SecretScaler x
  unfolding put_secret
  sync (ok (some found)) s =
      let put = put_secret (x.secret_map s.secret_config) s in
      if x.same_secret found s.secret_config
      then (ok [], with_status (record { status_type = deployed; message = literal "" }) s)
      else put
  sync (ok none) s = put_secret (x.secret_map s.secret_config) s
  sync (err e) s = (ok [], with_status (record { status_type = failed; message = literal e }) s)

  module _ (get_secret : String → Result (Option x.SecretConfig)) where
    unfoldable pub reconcile : SecretScaler x → Result (List Command) × SecretScaler x
    unfolding sync
    reconcile s = sync (get_secret s.secret_name) s

    unfoldable pub handle_event : Event x → SecretScaler x → Result (List Command) × SecretScaler x
    unfolding reconcile
    handle_event (config_set name) s = if name == s.secret_name then reconcile s else (ok [], s)
    handle_event (config_deleted name) s = if name == s.secret_name then reconcile s else (ok [], s)
    handle_event (host_heartbeat _) s =
        if same s.status.status_type deployed then (ok [], s) else reconcile s
    handle_event _ s = (ok [], s)

    unfoldable pub status : SecretScaler x → StatusInfo × SecretScaler x
    unfolding reconcile
    status s = let (_, t) = reconcile s in (t.status, t)

  unfoldable pub cleanup : SecretScaler x → Result (List Command) × SecretScaler x
  cleanup s = (ok (delete_config s.secret_name ∷ []), s)

  abbrev pub secret_scaler : (String → Result (Option x.SecretConfig)) → Scaler x (SecretScaler x)
  secret_scaler get_secret = record {
    id = λ s. s.id;
    name = λ s. x.secret_config_name s.secret_config;
    kind = λ s. "SecretScaler";
    status = status get_secret;
    update_config = λ _ s. (ok [], s);
    handle_event = handle_event get_secret;
    reconcile = reconcile get_secret;
    cleanup = cleanup;
  }
