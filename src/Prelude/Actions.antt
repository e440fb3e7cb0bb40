-- ===== src/Prelude/Actions.antt =====
-- Actions on a state that may fail. What was written before a failure stays written, so the state
-- comes back beside the error too.
use mathlib.Core.Path.{◌≡◌, refl, ap, subst}
use wadm.Prelude.Results.{Result, ok, err}

abbrev pub Action : Type 0 → Type 0 → Type 0
Action σ A = σ → Result A × σ

module _ {σ A : Type 0} where
  abbrev pub pure : A → Action σ A
  pure a s = (ok a, s)

  -- A read.
  abbrev pub gets : (σ → Result A) → Action σ A
  gets f s = (f s, s)

  -- Whenever the action succeeds, its result and the state after it are related so.
  pub record Ensures (r : Result A × σ) (Q : A → σ → Type 0) : Type 0 where
    pub at : (a : A) (t : σ) → r ≡ (ok a, t) → Q a t

  pub Ensures-imp :
      {P : A → σ → Type 0} (r : Result A × σ) (Q : A → σ → Type 0)
      → Ensures r P
      → ((a : A) (t : σ) → P a t → Q a t)
      → Ensures r Q
  Ensures-imp r Q h k = record { at = λ a t e. k a t (h.at a t e) }

  pub Ensures-pure : (a : A) (s : σ) (Q : A → σ → Type 0) → Q a s → Ensures (pure a s) Q
  Ensures-pure a s Q h = record {
    at = λ b t e.
        let p : a ≡ b = cc in let q : s ≡ t = cc in subst (λ t. Q b t) q (subst (λ a. Q a s) p h);
  }

  pub Ensures-gets :
      (f : σ → Result A) (s : σ) (Q : A → σ → Type 0)
      → ((a : A) → f s ≡ ok a → Q a s)
      → Ensures (gets f s) Q
  Ensures-gets f s Q h = record {
    at = λ a t e. let q : s ≡ t = cc in subst (λ t. Q a t) q (h a (ap (λ r. r.0) e));
  }

module _ {σ A B : Type 0} where
  abbrev pub resume : Result A → (A → Action σ B) → Action σ B
  resume (ok a) f s = f a s
  resume (err e) f s = (err e, s)

  infixl 5 ◌>>=◌ ◌>>◌
  unfoldable pub ◌>>=◌ : Action σ A → (A → Action σ B) → Action σ B
  ◌>>=◌ m f s = let (r, t) = m s in resume r f t

  abbrev pub ◌>>◌ : Action σ A → Action σ B → Action σ B
  m >> n = m >>= λ _. n

  Ensures-resume :
      (r : Result A) (f : A → Action σ B) (s : σ) (Q : B → σ → Type 0)
      → ((a : A) → r ≡ ok a → Ensures (f a s) Q)
      → Ensures (resume r f s) Q
  Ensures-resume (ok a) f s Q h = h a refl
  Ensures-resume (err e) f s Q h = record { at = λ b t k. cc }

  pub Ensures-bind :
      {P : A → σ → Type 0} (m : Action σ A) (f : A → Action σ B) (s : σ) (Q : B → σ → Type 0)
      → Ensures (m s) P
      → ((a : A) (t : σ) → P a t → Ensures (f a t) Q)
      → Ensures ((m >>= f) s) Q
  unfolding ◌>>=◌
  Ensures-bind m f s Q h k =
      Ensures-resume (m s).0 f (m s).1 Q (λ a e. k a (m s).1 (h.at a (m s).1 (λ i. (e i, (m s).1))))

  -- A read whose result is used.
  pub Ensures-read :
      (g : σ → Result A) (f : A → Action σ B) (s : σ) (Q : B → σ → Type 0)
      → ((a : A) → g s ≡ ok a → Ensures (f a s) Q)
      → Ensures ((gets g >>= f) s) Q
  unfolding ◌>>=◌
  Ensures-read g f s Q h = Ensures-resume (g s) f s Q h
