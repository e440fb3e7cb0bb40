-- ===== src/Event/Matching.antt =====
-- `evt_matches_expected` of crates/wadm/src/scaler/mod.rs, and the equality of annotations.
pub mod Equality
use wadm.Prelude.{
  String, Bool, false, ◌&&◌, Option, none, some, Map, lookup, ◌==◌, eqb, all, length,
}
use wadm.External.{External}
use wadm.Event.{
  Event, component_scaled, component_scale_failed, provider_started, provider_start_failed,
}

abbrev pub is_value : Option String → String → Bool
is_value none v = false
is_value (some w) v = w == v

-- `==` on BTreeMap<String, String>: as many entries, and each of one in the other.
unfoldable pub map_eq : Map String → Map String → Bool
map_eq a b = eqb (length a) (length b) && all (λ e. is_value (lookup e.0 b) e.1) a

unfoldable pub evt_matches_expected : {x : External} → Event x → Event x → Bool
evt_matches_expected (provider_started a) (provider_started b) =
    map_eq a.annotations b.annotations
    && a.image_ref == b.image_ref
    && a.provider_id == b.provider_id
    && a.host_id == b.host_id
evt_matches_expected (provider_start_failed a) (provider_start_failed b) =
    a.provider_id == b.provider_id && a.host_id == b.host_id && a.provider_ref == b.provider_ref
evt_matches_expected (component_scaled a) (component_scaled b) =
    map_eq a.annotations b.annotations
    && a.image_ref == b.image_ref
    && a.component_id == b.component_id
    && a.host_id == b.host_id
evt_matches_expected (component_scale_failed a) (component_scale_failed b) =
    map_eq a.annotations b.annotations
    && a.image_ref == b.image_ref
    && a.component_id == b.component_id
    && a.host_id == b.host_id
evt_matches_expected _ _ = false
