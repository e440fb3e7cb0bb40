-- ===== src/Prelude/Texts.antt =====
-- Trimming: `str::trim`, and the same for a formatted text. Appending.
use Prim.Native.Char.{code}
use Prim.Native.Nat.{ℕ}
use Prim.Native.String.{String}
use mathlib.Core.Bool.{Bool, true, false, ◌||◌, ◌&&◌}
use mathlib.Core.List.{[], ◌∷◌}
use wadm.Prelude.Tests.{leb, eqb, if◌then◌else◌}
use wadm.Prelude.Lists.{is_empty}
use wadm.Prelude.Results.{Fmt, Message}
use text.Mathlib.Text.{◌==◌}

-- `char::is_whitespace`: the code points with the property White_Space
abbrev pub is_whitespace : ℕ → Bool
is_whitespace c =
    leb 9 c && leb c 13
    || eqb c 32
    || eqb c 133
    || eqb c 160
    || eqb c 5760
    || leb 8192 c && leb c 8202
    || eqb c 8232
    || eqb c 8233
    || eqb c 8239
    || eqb c 8287
    || eqb c 12288

-- `str::trim`
unfoldable pub trim_start : String → String
trim_start String.[] = String.[]
trim_start (String.◌∷◌ c s) =
    let rest = trim_start s in if is_whitespace (code c) then rest else String.◌∷◌ c s

unfoldable pub trim_end : String → String
trim_end String.[] = String.[]
trim_end (String.◌∷◌ c s) = elim (trim_end s) [
  | String.[] ↦ if is_whitespace (code c) then String.[] else String.◌∷◌ c String.[]
  | String.◌∷◌ d t ↦ String.◌∷◌ c (String.◌∷◌ d t)
]

unfoldable pub trim : String → String
trim s = trim_end (trim_start s)

-- The text of a format is trimmed at the ends; a format with arguments is not blank.
abbrev is_blank : Fmt → Bool
is_blank f = is_empty f.args && f.format == ""

unfoldable pub trim_message_start : Message → Message
trim_message_start [] = []
trim_message_start (f ∷ fs) =
    let rest = trim_message_start fs in
    let g = record f { format = trim_start f.format } in if is_blank g then rest else g ∷ fs

unfoldable pub trim_message_end : Message → Message
trim_message_end [] = []
trim_message_end (f ∷ fs) = elim (trim_message_end fs) [
  | g ∷ gs ↦ f ∷ g ∷ gs
  | [] ↦ let g = record f { format = trim_end f.format } in if is_blank g then [] else g ∷ []
]

unfoldable pub trim_message : Message → Message
trim_message m = trim_message_end (trim_message_start m)

abbrev pub text_append : String → String → String
text_append String.[] t = t
text_append (String.◌∷◌ c s) t = String.◌∷◌ c (text_append s t)

-- `str::text_starts_with` at a literal, which is the first argument
abbrev pub text_starts_with : String → String → Bool
text_starts_with String.[] t = true
text_starts_with (String.◌∷◌ c s) String.[] = false
text_starts_with (String.◌∷◌ c s) (String.◌∷◌ d t) = eqb (code c) (code d) && text_starts_with s t
