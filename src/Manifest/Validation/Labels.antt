-- ===== src/Manifest/Validation/Labels.antt =====
-- OAM labels: `valid_oam_label` of crates/wadm-types/src/validation.rs. A text is the list of the
-- codes of its characters.
use Prim.Native.Char.{code}
use wadm.Prelude.{
  ℕ, ◌+◌, ◌≤◌, String, ◌≡◌, ◌↔◌, refl, arith, Bool, true, false, ◌&&◌, ◌||◌, Option, none, some,
  List, [], ◌∷◌, ltb, leb, eqb, if◌then◌else◌, all, is_empty, length, head?, last?, All, all-All,
}

abbrev pub codes : String → List ℕ
codes String.[] = []
codes (String.◌∷◌ c s) = code c ∷ codes s

-- `str::len`: the bytes of the UTF-8
abbrev pub bytes : ℕ → ℕ
bytes c = if ltb c 128 then 1 else if ltb c 2048 then 2 else if ltb c 65536 then 3 else 4

abbrev pub byte_len : List ℕ → ℕ
byte_len [] = 0
byte_len (c ∷ cs) = bytes c + byte_len cs

abbrev pub is_ascii_alphabetic : ℕ → Bool
is_ascii_alphabetic c = leb 65 c && leb c 90 || leb 97 c && leb c 122

abbrev pub is_ascii_alphanumeric : ℕ → Bool
is_ascii_alphanumeric c = is_ascii_alphabetic c || leb 48 c && leb c 57

abbrev pub starts_with : (ℕ → Bool) → List ℕ → Bool
starts_with p cs = elim (head? cs) [ none ↦ false | some c ↦ p c ]

abbrev pub ends_with : (ℕ → Bool) → List ℕ → Bool
ends_with p cs = elim (last? cs) [ none ↦ false | some c ↦ p c ]

-- alphanumeric characters and hyphens
abbrev pub is_dns_char : ℕ → Bool
is_dns_char c = is_ascii_alphanumeric c || eqb c 45

-- also underscores and periods
abbrev pub is_label_char : ℕ → Bool
is_label_char c = is_ascii_alphanumeric c || eqb c 45 || eqb c 95 || eqb c 46

unfoldable pub is_valid_label_name : List ℕ → Bool
is_valid_label_name name =
    if is_empty name || ltb 63 (byte_len name)
    then false
    else starts_with is_ascii_alphanumeric name
      && ends_with is_ascii_alphanumeric name
      && all is_label_char name

-- `split` and `split_once` at a character
abbrev attach : ℕ → List (List ℕ) → List (List ℕ)
attach c [] = (c ∷ []) ∷ []
attach c (p ∷ ps) = (c ∷ p) ∷ ps

unfoldable pub split : ℕ → List ℕ → List (List ℕ)
split sep [] = [] ∷ []
split sep (c ∷ cs) = let rest = split sep cs in if eqb c sep then [] ∷ rest else attach c rest

unfoldable pub split_once : ℕ → List ℕ → Option (List ℕ × List ℕ)
split_once sep [] = none
split_once sep (c ∷ cs) =
    let rest = split_once sep cs in
    if eqb c sep then some ([], cs) else elim rest [ none ↦ none | some p ↦ some (c ∷ p.0, p.1) ]

abbrev pub is_dns_part : List ℕ → Bool
is_dns_part part =
    if is_empty part
    then false
    else leb (byte_len part) 63
      && starts_with is_ascii_alphabetic part
      && ends_with is_ascii_alphanumeric part
      && all is_dns_char part

unfoldable pub is_valid_dns_subdomain : List ℕ → Bool
unfolding split
is_valid_dns_subdomain s =
    if is_empty s || ltb 253 (byte_len s) then false else all is_dns_part (split 46 s)

-- The value of a label is not looked at.
unfoldable pub valid_oam_label : String × String → Bool
unfolding split_once is_valid_label_name is_valid_dns_subdomain
valid_oam_label (key, value) = elim (split_once 47 (codes key)) [
  | some p ↦ is_valid_dns_subdomain p.0 && is_valid_label_name p.1
  | none ↦ is_valid_label_name (codes key)
]

-- What the name part of a label is to look like.
pub record IsLabelName (name : List ℕ) : Type 0 where
  pub some_character : 1 ≤ length name
  pub short : length name ≤ 63
  pub first : starts_with is_ascii_alphanumeric name ≡ true
  pub last : ends_with is_ascii_alphanumeric name ≡ true
  pub allowed : All (λ c. is_label_char c ≡ true) name

byte_len_ascii : (cs : List ℕ) → all is_label_char cs ≡ true → byte_len cs ≡ length cs
byte_len_ascii [] h = refl
byte_len_ascii (c ∷ cs) h = ground (arith, byte_len_ascii cs)

-- The name part of a label is valid exactly when it has 1 to 63 characters, all of them
-- alphanumeric, hyphens, underscores or periods, and the first and the last alphanumeric.
pub is_valid_label_name_iff : (name : List ℕ) → (is_valid_label_name name ≡ true) ↔ IsLabelName name
unfolding is_valid_label_name
is_valid_label_name_iff name =
    let (to, from) = all-All is_label_char name in
    (
      λ h. record {
        some_character = ground arith;
        short = ground (arith, byte_len_ascii name);
        first = ground arith;
        last = ground arith;
        allowed = to (ground arith);
      },
      λ r. ground (
        arith,
        r.some_character,
        r.short,
        r.first,
        r.last,
        from r.allowed,
        byte_len_ascii name (from r.allowed),
      ),
    )
