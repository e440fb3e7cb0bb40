-- ===== src/Api.antt =====
-- The status types of the API: crates/wadm-types/src/api.rs.
pub mod Status
use wadm.Prelude.{String, Bool, true, false, List, [], ◌∷◌, Message, if◌then◌else◌}

pub data StatusType : Type 0 where
  waiting undeployed reconciling deployed failed unhealthy : StatusType

-- the derived `==`
abbrev pub same : StatusType → StatusType → Bool
same waiting waiting = true
same undeployed undeployed = true
same reconciling reconciling = true
same deployed deployed = true
same failed failed = true
same unhealthy unhealthy = true
same _ _ = false

-- the match of `add`, its arms in order
abbrev combine : StatusType → StatusType → StatusType
combine failed _ = failed
combine _ failed = failed
combine undeployed _ = undeployed
combine _ undeployed = undeployed
combine waiting _ = waiting
combine _ waiting = waiting
combine reconciling _ = reconciling
combine _ reconciling = reconciling
combine unhealthy _ = unhealthy
combine _ unhealthy = unhealthy
combine deployed deployed = deployed

unfoldable pub add : StatusType → StatusType → StatusType
add a b = if same a b then a else combine a b

unfoldable pub fold_status : StatusType → List StatusType → StatusType
fold_status a [] = a
fold_status a (b ∷ bs) = fold_status (add a b) bs

-- `sum`: the first status seeds the fold, `undeployed` where there is none.
unfoldable pub sum_status : List StatusType → StatusType
unfolding fold_status
sum_status [] = undeployed
sum_status (a ∷ rest) = fold_status a rest

pub record StatusInfo : Type 0 where
  pub status_type : StatusType
  pub message : Message
