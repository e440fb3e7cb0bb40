-- ===== src/Scaler.antt =====
-- The scalers: crates/wadm/src/scaler.
pub mod Spread
pub mod Config
pub mod Secret
pub mod Backoff
pub mod Manager
pub mod Daemon
pub mod Placeholder
pub mod Link
pub mod Provider
use wadm.Prelude.{String, List, Result}
use wadm.External.{External}
use wadm.Api.{StatusInfo}
use wadm.Command.{Command}
use wadm.Manifest.{TraitProperty}
use wadm.Event.{Event}

-- The trait `Scaler` of crates/wadm/src/scaler/mod.rs, for scalers whose state is an `S`: an
-- operation returns what the method returns, and the state that it leaves.
pub record Scaler (x : External) (S : Type 0) : Type 0 where
  pub id : S → String
  pub name : S → String
  pub kind : S → String
  pub status : S → StatusInfo × S
  pub update_config : TraitProperty x.Value → S → Result (List Command) × S
  pub handle_event : Event x → S → Result (List Command) × S
  pub reconcile : S → Result (List Command) × S
  pub cleanup : S → Result (List Command) × S
