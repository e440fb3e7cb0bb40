-- ===== src/Worker/Consistency/Places.antt =====
-- Where components run and providers are hosted.
use wadm.Prelude.{String, Bool, false, Option, none, some, List, any, contains_key, ◌==◌}
use wadm.Event.{ProviderInfo}
use wadm.Storage.{Component, Provider}

-- The component has instances on the host.
abbrev pub runs_on : String → Option Component → Bool
runs_on host_id none = false
runs_on host_id (some c) = contains_key host_id c.instances

-- The provider has a status on the host.
abbrev pub hosted_on : String → Option Provider → Bool
hosted_on host_id none = false
hosted_on host_id (some p) = contains_key host_id p.hosts

abbrev pub listed : String → List ProviderInfo → Bool
listed id infos = any (λ i. i.provider_id == id) infos
