-- ===== src/Scaler/Link.antt =====
-- `LinkScaler` of crates/wadm/src/scaler/spreadscaler/link.rs. `get_links` is what the lattice holds.
use wadm.Prelude.{
  String, Bool, true, false, ◌&&◌, ◌||◌, List, [], ◌∷◌, any, Result, ok, err, literal, format, str,
  if◌then◌else◌, ◌==◌,
}
use wadm.Prelude.Texts.{text_append}
use wadm.External.{External}
use wadm.Api.{StatusInfo, deployed, reconciling}
use wadm.Command.{Command, put_link, delete_link}
use wadm.Event.{
  Event, component_scaled, provider_health_check_passed, provider_health_check_status,
  linkdef_deleted, linkdef_set,
}
use wadm.Scaler.{Scaler}

pub record LinkScalerConfig : Type 0 where
  pub source_id : String
  pub target : String
  pub wit_namespace : String
  pub wit_package : String
  pub wit_interfaces : List String
  pub name : String
  pub lattice_id : String
  pub model_name : String
  pub source_config : List String
  pub target_config : List String

pub record LinkScaler : Type 0 where
  pub config : LinkScalerConfig
  pub id : String
  pub status : StatusInfo

abbrev pub link_scaler_name : LinkScalerConfig → String
link_scaler_name c = text_append c.source_id (
    text_append " -(" (
      text_append c.wit_namespace
        (text_append ":" (text_append c.wit_package (text_append ")-> " c.target)))))

abbrev pub is_end : LinkScalerConfig → String → Bool
is_end c id = id == c.source_id || id == c.target

abbrev pub deployed_now : LinkScaler → LinkScaler
deployed_now s = record s { status = record { status_type = deployed; message = literal "" } }

unfoldable pub reconcile_links : Bool → LinkScaler → Result (List Command) × LinkScaler
reconcile_links true s = (ok [], deployed_now s)
reconcile_links false s = (
  ok (
      put_link (record {
        source_id = s.config.source_id;
        target = s.config.target;
        name = s.config.name;
        wit_namespace = s.config.wit_namespace;
        wit_package = s.config.wit_package;
        interfaces = s.config.wit_interfaces;
        source_config = s.config.source_config;
        target_config = s.config.target_config;
        model_name = s.config.model_name;
      })
      ∷ []),
  record s {
    status = record {
      status_type = reconciling;
      message =
          format "Putting link definition between {} and {}"
            (str s.config.source_id ∷ str s.config.target ∷ []);
    };
  },
)

unfoldable pub cleanup : LinkScaler → Result (List Command) × LinkScaler
cleanup s = (
  ok (
      delete_link (record {
        model_name = s.config.model_name;
        source_id = s.config.source_id;
        link_name = s.config.name;
        wit_namespace = s.config.wit_namespace;
        wit_package = s.config.wit_package;
      })
      ∷ []),
  s,
)

module _ (x : External) where
  -- The namespace and the package of the link are not compared.
  unfoldable pub same_ends : LinkScalerConfig → x.Link → Bool
  same_ends c l =
      x.link_source_id l == c.source_id && x.link_target l == c.target && x.link_name l == c.name

  module _ (get_links : Result (List x.Link)) where
    unfoldable pub reconcile : LinkScaler → Result (List Command) × LinkScaler
    reconcile s = elim get_links [
      | err e ↦ (err e, s)
      | ok links ↦ reconcile_links (any (same_ends s.config) links) s
    ]

    unfoldable pub status : LinkScaler → StatusInfo × LinkScaler
    status s = let t = (reconcile s).1 in (t.status, t)

    abbrev pub reconcile_if : Bool → LinkScaler → Result (List Command) × LinkScaler
    reconcile_if b s = let reconciled = reconcile s in if b then reconciled else (ok [], s)

    unfoldable pub handle_event : Event x → LinkScaler → Result (List Command) × LinkScaler
    handle_event (component_scaled e) s = reconcile_if (is_end s.config e.component_id) s
    handle_event (provider_health_check_passed e) s = reconcile_if (is_end s.config e.provider_id) s
    handle_event (provider_health_check_status e) s = reconcile_if (is_end s.config e.provider_id) s
    handle_event (linkdef_deleted e) s =
        reconcile_if
          (e.source_id == s.config.source_id
            && e.name == s.config.name
            && e.wit_namespace == s.config.wit_namespace
            && e.wit_package == s.config.wit_package)
          s
    handle_event (linkdef_set l) s =
        if same_ends s.config l then (ok [], deployed_now s) else (ok [], s)
    handle_event _ s = (ok [], s)

    abbrev pub link_scaler : Scaler x LinkScaler
    link_scaler = record {
      id = λ s. s.id;
      name = λ s. link_scaler_name s.config;
      kind = λ s. "LinkScaler";
      status = status;
      update_config = λ _ s. reconcile s;
      handle_event = handle_event;
      reconcile = reconcile;
      cleanup = cleanup;
    }
