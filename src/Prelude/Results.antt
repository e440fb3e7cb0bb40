-- ===== src/Prelude/Results.antt =====
-- Fallible code, and the texts that the program formats.
use Prim.Native.Nat.{ℕ}
use Prim.Native.String.{String}
use mathlib.Core.Path.{◌≡◌, refl}
use mathlib.Core.Logic.{◌⊎◌, inl, inr}
use mathlib.Core.List.{List, [], ◌∷◌, ◌++◌}

-- anyhow::Result: an error is a text.
pub data Result {ℓ} (A : Type ℓ) : Type ℓ where
  ok : A → Result A
  err : String → Result A

infixl 5 ◌>>=◌
abbrev pub ◌>>=◌ {ℓ κ} : {A : Type ℓ} {B : Type κ} → Result A → (A → Result B) → Result B
ok a >>= f = f a
err e >>= f = err e

-- The arguments of `format!`.
pub data Arg : Type 0 where
  str : String → Arg
  num : ℕ → Arg
  strs : List String → Arg

-- A formatted text is kept as its format and the arguments; `Message` is a concatenation of such.
pub record Fmt : Type 0 where
  pub format : String
  pub args : List Arg

abbrev pub Message : Type 0
Message = List Fmt

abbrev pub literal : String → Message
literal s = record { format = s; args = [] } ∷ []

abbrev pub format : String → List Arg → Message
format s args = record { format = s; args = args } ∷ []

-- `.join(separator)`
abbrev pub join : String → List Message → Message
join sep [] = []
join sep (m ∷ []) = m
join sep (m ∷ n ∷ ms) = m ++ literal sep ++ join sep (n ∷ ms)

pub Result-cases {ℓ} :
    {A : Type ℓ} (r : Result A) → ((a : A) × (r ≡ ok a)) ⊎ ((e : String) × (r ≡ err e))
Result-cases (ok a) = inl (a, refl)
Result-cases (err e) = inr (e, refl)
