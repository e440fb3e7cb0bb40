-- ===== src/Examples/Publishing.antt =====
-- Examples for the handler `put_model`.
use wadm.Prelude.{
  String, ◌≡◌, refl, none, some, [], ◌∷◌, ok, lookup, insert, Message, format, str, ◌++◌,
}
use wadm.Manifest.Queries.{version, missing_shared_components, is_missing, provides}
use wadm.Manifest.Validation.{valid, validate_manifest_name, validate_manifest_version}
use wadm.Model.{current_version, add_version, add_entry, assign_version, get_current}
use wadm.Server.{response, error_reply, PutModelResponse}
use wadm.Prelude.Texts.{trim, trim_start, trim_end}
use wadm.Server.Publish.{
  first_error, deployed_shared_apps, put_message, put_response, store_put, put_added, put_version,
  put_validated, put_fetched, put_named, put_model,
}
use wadm.Server.Queries.{get_model}
use wadm.Server.Promises.Retrieval.{IsFetched, get_model-put_model}
use wadm.Server.Promises.Publishing.{IsAccepted, put_model-IsAccepted}
use wadm.Server.Promises.Refusal.{IsUntouched, put_model-IsUntouched}
use wadm.Examples.{texts}
use wadm.Examples.Validating.{is_word, linked, linked-validated}
use wadm.Examples.Serving.{Memory, memory, contents, memory-IsStore, version_of, history}

trim_spaces : trim "  hello world " ≡ "hello world"
unfolding trim trim_start trim_end
trim_spaces = refl

abbrev earlier : Memory
earlier = ("hello", history (some "v0") (version_of "v0" ∷ [])) ∷ []

abbrev later : Memory
later = ("hello", history (some "v0") (version_of "v0" ∷ ("v1", linked) ∷ [])) ∷ []

abbrev answer : PutModelResponse
unfolding current_version
answer =
    put_response "hello" (put_message {V = String} "hello" "v0" [])
      (history (some "v0") (version_of "v0" ∷ ("v1", linked) ∷ []))

put_fetched_hello :
    put_fetched texts is_word memory
      (ok (some (history (some "v0") (version_of "v0" ∷ []), 1)))
      "v9"
      linked
      "hello"
      earlier
    ≡ some (response answer, later)
unfolding put_validated put_version put_added store_put first_error deployed_shared_apps version
    add_version add_entry assign_version missing_shared_components is_missing provides
    current_version get_current lookup insert put_fetched
put_fetched_hello = rw (linked-validated, put_fetched) refl

put_hello : put_model texts is_word memory "v9" (ok linked) earlier ≡ some (response answer, later)
unfolding put_model put_named trim trim_start trim_end version validate_manifest_name
    validate_manifest_version valid lookup
put_hello = put_fetched_hello

put_model-IsAccepted_example :
    IsAccepted texts is_word memory contents memory-IsStore "v9" linked earlier later answer
put_model-IsAccepted_example =
    put_model-IsAccepted texts is_word memory contents memory-IsStore "v9" linked earlier later
      answer put_hello

get_model-put_model_example :
    IsFetched linked (get_model memory (ok (some "v1")) "hello" later)
    × IsFetched linked (get_model memory (ok none) "hello" later)
unfolding answer assign_version lookup
get_model-put_model_example =
    get_model-put_model texts is_word memory contents memory-IsStore "v9" linked earlier later
      answer _ put_hello refl

abbrev refusal : Message
refusal =
    format "invalid manifest version, errors: {:#?}" []
    ++ format "{} is not allowed in wadm" (str "latest" ∷ [])

put_latest :
    put_model texts is_word memory "v9" (ok (version_of "latest").1) earlier
    ≡ some (error_reply refusal, earlier)
unfolding put_model version validate_manifest_version lookup
put_latest = refl

put_model-IsUntouched_example : IsUntouched texts is_word memory earlier earlier
put_model-IsUntouched_example =
    put_model-IsUntouched texts is_word memory "v9" (ok (version_of "latest").1) earlier earlier
      refusal put_latest
