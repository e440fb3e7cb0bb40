-- ===== src/Manifest/Validation.antt =====
-- Validation of manifests: crates/wadm-types/src/validation.rs. A check is a function into the
-- failures that it finds.
pub mod Labels
pub mod Core
pub mod Checks
pub mod Dangling
pub mod Whole
use wadm.Prelude.{
  ℕ, String, Bool, true, false, Option, none, some, List, [], ◌∷◌, Map, lookup, contains, filter,
  is_empty, Message, literal, format, str, ◌==◌, if◌then◌else◌,
}
use wadm.Manifest.{latest_version}

pub data ValidationFailureLevel : Type 0 where
  warning error : ValidationFailureLevel

pub record ValidationFailure : Type 0 where
  pub level : ValidationFailureLevel
  pub msg : Message

abbrev pub is_error : ValidationFailure → Bool
is_error f = elim f.level [ error ↦ true | warning ↦ false ]

abbrev pub is_warning : ValidationFailure → Bool
is_warning f = elim f.level [ error ↦ false | warning ↦ true ]

-- `ValidationOutput`
abbrev pub errors : List ValidationFailure → List ValidationFailure
errors = filter is_error

abbrev pub warnings : List ValidationFailure → List ValidationFailure
warnings = filter is_warning

unfoldable pub valid : List ValidationFailure → Bool
valid failures = is_empty (errors failures)

-- One failure, with its text.
abbrev pub fail : Message → List ValidationFailure
fail m = record { level = error; msg = m } ∷ []

abbrev pub warn : Message → List ValidationFailure
warn m = record { level = warning; msg = m } ∷ []

-- `KNOWN_INTERFACE_LOOKUP`
abbrev pub known_interfaces : Map (Map (List String))
known_interfaces =
    (
      "wrpc",
      ("blobstore", "blobstore" ∷ [])
          ∷ ("keyvalue", "atomics" ∷ "store" ∷ [])
          ∷ ("http", "incoming-handler" ∷ "outgoing-handler" ∷ [])
          ∷ [],
    )
    ∷ (
      "wasi",
      ("blobstore", "blobstore" ∷ [])
          ∷ ("config", "runtime" ∷ [])
          ∷ ("keyvalue", "atomics" ∷ "store" ∷ "batch" ∷ "watch" ∷ [])
          ∷ ("http", "incoming-handler" ∷ "outgoing-handler" ∷ [])
          ∷ ("logging", "logging" ∷ [])
          ∷ [],
    )
    ∷ ("wasmcloud", ("messaging", "consumer" ∷ "handler" ∷ []) ∷ [])
    ∷ []

-- A namespace that is not known may be a custom one.
unfoldable pub is_invalid_known_interface : String → String → String → List ValidationFailure
is_invalid_known_interface namespace package_name interface =
    let unrecognized : List ValidationFailure = warn (
      format "unrecognized interface [{}:{}/{}]"
        (str namespace ∷ str package_name ∷ str interface ∷ [])) in
    elim (lookup namespace known_interfaces) [
      | none ↦ []
      | some packages ↦ elim (lookup package_name packages) [
        | none ↦ unrecognized
        | some interfaces ↦ if contains interface interfaces then [] else unrecognized
      ]
    ]

-- `is_match` is the regular expression `^[-\w]+$`.
unfoldable pub validate_manifest_name : (String → Bool) → String → List ValidationFailure
validate_manifest_name is_match name =
    if is_match name
    then []
    else fail (
        format "manifest name [{}] is not allowed (should match regex [{}])"
          (str name ∷ str "^[-\\w]+$" ∷ []))

unfoldable pub validate_manifest_version : String → List ValidationFailure
validate_manifest_version version =
    if version == latest_version
    then fail (format "{} is not allowed in wadm" (str latest_version ∷ []))
    else []
