-- ===== src/Prelude/Returns.antt =====
-- Methods that cannot raise: every run of the action returns a value that satisfies `P`.
use mathlib.Core.Path.{◌≡◌}
use native.Mathlib.Omega.{arith}
use oneiroi.Prelude.Effects.{
  Result, ok, err, Exec, pure, gets, zoom, modify, continue, ◌>>=◌, Keeps,
}

abbrev pub Returned : {E A : Type 0} → (A → Type 0) → Result E A → Type 0
Returned P (ok a) = P a
Returned P (err e) = ⊥

pub record Returns {E S A : Type 0} (P : A → Type 0) (m : Exec E S A) : Type 0 where
  pub on : (s : S) → Returned P (m s).0

-- The value that a run returned satisfies `P`.
pub Returned-ok :
    {E A : Type 0} (P : A → Type 0) (r : Result E A) (a : A) → Returned P r → r ≡ ok a → P a
Returned-ok P (ok b) a h q = ground (arith, h)
Returned-ok P (err e) a h q = ground (arith, h)

module _ {E S A : Type 0} where
  pub Returns-pure : (P : A → Type 0) (a : A) → P a → Returns P (pure {E = E} {S = S} a)
  unfolding pure
  Returns-pure P a h = record { on = λ s. h }

  pub Returns-gets : (f : S → A) → Returns (λ _. Unit) (gets {E = E} f)
  unfolding gets
  Returns-gets f = record { on = λ s. tt }

  pub Returns-zoom : (f : S → A × S) → Returns (λ _. Unit) (zoom {E = E} f)
  unfolding zoom
  Returns-zoom f = record { on = λ s. tt }

module _ {E S : Type 0} where
  pub Returns-modify : (f : S → S) → Returns (λ _. Unit) (modify {E = E} f)
  unfolding modify
  Returns-modify f = record { on = λ s. tt }

module _ {E S A B : Type 0} where
  continue-Returns :
      (Q : A → Type 0) (P : B → Type 0) (f : A → Exec E S B)
      → ((a : A) → Q a → Returns P (f a))
      → (r : Result E A × S) → Returned Q r.0
      → Returned P (continue r.0 f r.1).0
  continue-Returns Q P f hf (ok a, t) h = (hf a h).on t
  continue-Returns Q P f hf (err e, t) h = h

  pub Returns-bind :
      (Q : A → Type 0) (P : B → Type 0) (m : Exec E S A) (f : A → Exec E S B)
      → Returns Q m
      → ((a : A) → Q a → Returns P (f a))
      → Returns P (m >>= f)
  unfolding ◌>>=◌
  Returns-bind Q P m f hm hf = record { on = λ s. continue-Returns Q P f hf (m s) (hm.on s) }

  -- a step whose value does not matter
  pub Returns-step :
      (P : B → Type 0) (m : Exec E S A) (f : A → Exec E S B)
      → Returns (λ _. Unit) m
      → ((a : A) → Returns P (f a))
      → Returns P (m >>= f)
  Returns-step P m f hm hf = Returns-bind (λ _. Unit) P m f hm (λ a u. hf a)

-- From a state that satisfies `I` the action returns a value that `P` holds of with the state after.
pub record Ensures {E S A : Type 0} (I : S → Type 0) (P : A → S → Type 0) (m : Exec E S A)
    : Type 0 where
  pub from : (s : S) → I s → Returned (λ a. P a (m s).1) (m s).0

module _ {E S A : Type 0} where
  kept :
      (I : S → Type 0) (Q : A → Type 0) (r : Result E A) (s : S)
      → I s
      → Returned Q r
      → Returned (λ a. Q a × I s) r
  kept I Q (ok a) s i q = (q, i)
  kept I Q (err e) s i q = q

  pub Ensures-Keeps :
      (I : S → Type 0) (Q : A → Type 0) (m : Exec E S A)
      → Returns Q m
      → Keeps I m
      → Ensures I (λ a s. Q a × I s) m
  Ensures-Keeps I Q m r k = record { from = λ s i. kept I Q (m s).0 (m s).1 (k.after s i) (r.on s) }

module _ {E S A B : Type 0} where
  continue-Ensures :
      (I : S → Type 0) (Q : A → Type 0) (P : B → S → Type 0) (f : A → Exec E S B)
      → ((a : A) → Q a → Ensures I P (f a))
      → (r : Result E A × S) → Returned (λ a. Q a × I r.1) r.0
      → Returned (λ b. P b (continue r.0 f r.1).1) (continue r.0 f r.1).0
  continue-Ensures I Q P f hf (ok a, t) h = (hf a h.0).from t h.1
  continue-Ensures I Q P f hf (err e, t) h = h

  pub Ensures-bind :
      (I : S → Type 0) (Q : A → Type 0) (P : B → S → Type 0) (m : Exec E S A) (f : A → Exec E S B)
      → Returns Q m
      → Keeps I m
      → ((a : A) → Q a → Ensures I P (f a))
      → Ensures I P (m >>= f)
  unfolding ◌>>=◌
  Ensures-bind I Q P m f r k hf = record {
    from = λ s i. continue-Ensures I Q P f hf (m s) ((Ensures-Keeps I Q m r k).from s i);
  }
