-- ===== src/Prelude/Runs.antt =====
-- What a run of a method ends with, whether it returns or raises.
use mathlib.Core.Path.{◌≡◌, ap}
use oneiroi.Prelude.Effects.{Result, ok, err, Exec, pure, gets, modify, continue, ◌>>=◌}

-- `P` of the returned value and the state after, or `R` of the exception and this state.
abbrev pub Ended : {E S A : Type 0} → (A → S → Type 0) → (E → S → Type 0) → Result E A × S → Type 0
Ended P R (ok a, t) = P a t
Ended P R (err e, t) = R e t

-- From a state that satisfies `I`, every run of the method ends so.
pub record Runs {E S A : Type 0} (I : S → Type 0) (P : A → S → Type 0) (R : E → S → Type 0)
    (m : Exec E S A) : Type 0 where
  pub from : (s : S) → I s → Ended P R (m s)

module _ {E S : Type 0} where
  pub Runs-pure :
      {A : Type 0} (I : S → Type 0) (P : A → S → Type 0) (R : E → S → Type 0) (a : A)
      → ((s : S) → I s → P a s)
      → Runs I P R (pure {E = E} {S = S} a)
  unfolding pure
  Runs-pure I P R a h = record { from = h }

  pub Runs-gets :
      {A : Type 0} (I : S → Type 0) (R : E → S → Type 0) (f : S → A)
      → Runs I (λ a. I) R (gets {E = E} f)
  unfolding gets
  Runs-gets I R f = record { from = λ s h. h }

  pub Runs-modify :
      (I J : S → Type 0) (R : E → S → Type 0) (f : S → S)
      → ((s : S) → I s → J (f s))
      → Runs I (λ u. J) R (modify {E = E} f)
  unfolding modify
  Runs-modify I J R f h = record { from = h }

module _ {E S A B : Type 0} where
  continue-Ended :
      (Q : A → S → Type 0) (P : B → S → Type 0) (R : E → S → Type 0) (f : A → Exec E S B)
      → ((a : A) → Runs (Q a) P R (f a))
      → (r : Result E A × S) → Ended Q R r
      → Ended P R (continue r.0 f r.1)
  continue-Ended Q P R f hf (ok a, t) h = (hf a).from t h
  continue-Ended Q P R f hf (err e, t) h = h

  pub Runs-bind :
      (I : S → Type 0) (Q : A → S → Type 0) (P : B → S → Type 0) (R : E → S → Type 0)
      (m : Exec E S A) (f : A → Exec E S B)
      → Runs I Q R m
      → ((a : A) → Runs (Q a) P R (f a))
      → Runs I P R (m >>= f)
  unfolding ◌>>=◌
  Runs-bind I Q P R m f hm hf = record {
    from = λ s i. continue-Ended Q P R f hf (m s) (hm.from s i);
  }

module _ {E S A : Type 0} where
  Ended-both :
      (P Q : A → S → Type 0) (R : E → S → Type 0) (r : Result E A × S)
      → Ended P R r
      → Ended Q R r
      → Ended (λ a t. P a t × Q a t) R r
  Ended-both P Q R (ok a, t) h k = (h, k)
  Ended-both P Q R (err e, t) h k = h

  -- two promises of one method, the second of which needs nothing
  pub Runs-both :
      (I : S → Type 0) (P Q : A → S → Type 0) (R : E → S → Type 0) (m : Exec E S A)
      → Runs I P R m
      → Runs (λ t. Unit) Q R m
      → Runs I (λ a t. P a t × Q a t) R m
  Runs-both I P Q R m h k = record {
    from = λ s i. Ended-both P Q R (m s) (h.from s i) (k.from s tt);
  }

  -- a run that cannot raise, and whose value is known
  pub Ended-ok :
      (b : A) (Q : S → Type 0) (r : Result E A × S)
      → Ended (λ a t. (a ≡ b) × Q t) (λ e t. ⊥) r
      → (r.0 ≡ ok b) × Q r.1
  Ended-ok b Q (ok a, t) h = (ap ok h.0, h.1)
  Ended-ok b Q (err e, t) h = absurd h
