-- ===== src/Server.antt =====
-- The API server: crates/wadm/src/server. A handler answers one request for one application of a
-- lattice; parsing the request and encoding the reply are the work of libraries.
pub mod Removal
pub mod Queries
pub mod Publish
pub mod Deploy
pub mod Promises
use wadm.Prelude.{
  ℕ, String, Bool, Option, none, some, List, Result, Message, ◌≡◌, ok, if◌then◌else◌, ◌==◌,
}
use wadm.Manifest.{Manifest}
use wadm.Model.{StoredManifest, get_current}

-- What a handler works with, for one account and lattice: `ModelStorage` of server/storage.rs and
-- `ManifestNotifier` of server/notifier.rs. A model comes with its revision.
pub record Environment (V σ : Type 0) : Type 0 where
  pub get : String → σ → Result (Option (StoredManifest V × ℕ))
  pub list : σ → Result (List (StoredManifest V))
  pub set : StoredManifest V → Option ℕ → σ → Result (Unit {0}) × σ
  pub delete : String → σ → Result (Unit {0}) × σ
  pub deployed : Manifest V → σ → Result (Unit {0}) × σ
  pub undeployed : String → σ → Result (Unit {0}) × σ

-- `send_error`, or `send_reply` with a response.
pub data Reply (R : Type 0) : Type 0 where
  error_reply : Message → Reply R
  response : R → Reply R

pub data GetResult : Type 0 where
  error success not_found : GetResult

pub data PutResult : Type 0 where
  error created new_version : PutResult

pub record PutModelResponse : Type 0 where
  pub result : PutResult
  pub total_versions : ℕ
  pub current_version : String
  pub message : Message
  pub name : String

pub data DeleteResult : Type 0 where
  deleted error noop : DeleteResult

pub data DeployResult : Type 0 where
  error acknowledged not_found : DeployResult

pub record GetModelResponse (V : Type 0) : Type 0 where
  pub result : GetResult
  pub message : Message
  pub manifest : Option (Manifest V)

pub record VersionInfo : Type 0 where
  pub version : String
  pub deployed : Bool

pub record VersionResponse : Type 0 where
  pub result : GetResult
  pub message : Message
  pub versions : List VersionInfo

pub record DeleteModelResponse : Type 0 where
  pub result : DeleteResult
  pub message : Message
  pub undeploy : Bool

pub record DeployModelResponse : Type 0 where
  pub result : DeployResult
  pub message : Message
  pub name : String
  pub version : Option String

-- `StoredManifest::name`; an empty history has none.
abbrev pub name_of : {V : Type 0} → StoredManifest V → Option String
name_of m = elim (get_current m) [ none ↦ none | some c ↦ some c.metadata.name ]
