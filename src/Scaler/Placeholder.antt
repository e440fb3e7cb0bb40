-- ===== src/Scaler/Placeholder.antt =====
-- `StatusScaler` of crates/wadm/src/scaler/statusscaler.rs: it reports a status and does nothing.
use wadm.Prelude.{String, [], ok}
use wadm.External.{External}
use wadm.Api.{StatusInfo}
use wadm.Scaler.{Scaler}

pub record StatusScaler : Type 0 where
  pub id : String
  pub kind : String
  pub name : String
  pub status : StatusInfo

abbrev pub status_scaler : {x : External} → Scaler x StatusScaler
status_scaler = record {
  id = λ s. s.id;
  name = λ s. s.name;
  kind = λ s. s.kind;
  status = λ s. (s.status, s);
  update_config = λ _ s. (ok [], s);
  handle_event = λ _ s. (ok [], s);
  reconcile = λ s. (ok [], s);
  cleanup = λ s. (ok [], s);
}
