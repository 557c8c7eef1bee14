-- ===== src/Prelude/Effects.antt =====
-- Methods that mutate an object and may raise. What was written before a raise stays written, so
-- the state comes back beside the error too. The actions are shut: `◌>>=◌` opens them all.
use mathlib.Core.Path.{◌≡◌, refl, ap, ◌∙◌}
use mathlib.Core.Bool.{Bool, true, false}
use mathlib.Core.Option.{Option, none, some}
use oneiroi.Prelude.Tests.{if◌then◌else◌}

pub data Result {ℓ} (E A : Type ℓ) : Type ℓ where
  ok : A → Result E A
  err : E → Result E A

abbrev pub Exec {ℓ} : Type ℓ → Type ℓ → Type ℓ → Type ℓ
Exec E S A = S → Result E A × S

module _ {ℓ} {E S A : Type ℓ} where
  unfoldable pub pure : A → Exec E S A
  pure a s = (ok a, s)

  pub raise : E → Exec E S A
  raise e s = (err e, s)

  unfoldable pub gets : (S → A) → Exec E S A
  gets f s = (ok (f s), s)

  -- a pure function that may raise
  pub lift : Result E A → Exec E S A
  lift r s = (r, s)

  -- a method of a part of the object
  unfoldable pub zoom : (S → A × S) → Exec E S A
  zoom f s = (ok (f s).0, (f s).1)

  -- `raise` where a lookup missed.
  pub require : Option A → E → Exec E S A
  require none e s = (err e, s)
  require (some a) e s = (ok a, s)

module _ {E S : Type 0} where
  unfoldable pub modify : (S → S) → Exec E S Unit
  modify f s = (ok tt, f s)

  -- `if b: raise e`
  pub raise_if : Bool → E → Exec E S Unit
  raise_if true e s = (err e, s)
  raise_if false e s = (ok tt, s)

module _ {ℓ} {E S A B : Type ℓ} where
  abbrev pub continue : Result E A → (A → Exec E S B) → Exec E S B
  continue (ok a) f s = f a s
  continue (err e) f s = (err e, s)

  infixl 10 ◌>>=◌ ◌>>◌
  unfoldable pub ◌>>=◌ : Exec E S A → (A → Exec E S B) → Exec E S B
  unfolding pure raise gets lift zoom require modify raise_if
  ◌>>=◌ m f s = continue (m s).0 f (m s).1

  abbrev pub ◌>>◌ : Exec E S A → Exec E S B → Exec E S B
  m >> n = m >>= λ _. n

-- a run whose first step returned
module _ {ℓ} {E S A B : Type ℓ} where
  pub bind-ok :
      (m : Exec E S A) (f : A → Exec E S B) (s : S) (a : A)
      → (m s).0 ≡ ok a
      → (m >>= f) s ≡ f a (m s).1
  unfolding ◌>>=◌
  bind-ok m f s a q = ap (λ r. continue r f (m s).1) q

module _ {E S A : Type 0} where
  abbrev pub on_error : Result E A → (E → Exec E S A) → Exec E S A
  on_error (ok a) h s = (ok a, s)
  on_error (err e) h s = h e s

  -- `try: m; except Exception as e: h(e)`
  abbrev pub recover : Exec E S A → (E → Exec E S A) → Exec E S A
  recover m h s = on_error (m s).0 h (m s).1

  then_raised : (r : Result E A) (e : E) (s : S) → (continue r (λ _. raise {A = A} e) s).1 ≡ s
  unfolding raise
  then_raised (ok a) e s = refl
  then_raised (err f) e s = refl

  -- `except Exception as e: g(e); raise` leaves the state of the handler
  pub recover-raise :
      (m : Exec E S A) (g : E → Exec E S A) (e : E) (s : S)
      → (m s).0 ≡ err e
      → (recover m (λ f. g f >> raise f) s).1 ≡ (g e (m s).1).1
  unfolding ◌>>=◌
  recover-raise m g e s q =
      ap (λ r. (on_error r (λ f. g f >> raise f) (m s).1).1) q
      ∙ then_raised (g e (m s).1).0 e (g e (m s).1).1

-- An action keeps `P`, whether it returns or raises.
pub record Keeps {ℓ} {E S A : Type ℓ} (P : S → Type ℓ) (m : Exec E S A) : Type ℓ where
  pub after : (s : S) → P s → P (m s).1

module _ {ℓ} {E S A : Type ℓ} {P : S → Type ℓ} where
  pub Keeps-pure : (a : A) → Keeps P (pure {E = E} a)
  unfolding pure
  Keeps-pure a = record { after = λ t i. i }

  pub Keeps-raise : (e : E) → Keeps P (raise {A = A} e)
  unfolding raise
  Keeps-raise e = record { after = λ t i. i }

  pub Keeps-gets : (f : S → A) → Keeps P (gets {E = E} f)
  unfolding gets
  Keeps-gets f = record { after = λ t i. i }

  pub Keeps-require : (o : Option A) (e : E) → Keeps P (require o e)
  unfolding require
  Keeps-require none e = record { after = λ t i. i }
  Keeps-require (some a) e = record { after = λ t i. i }

  pub Keeps-lift : (r : Result E A) → Keeps P (lift r)
  unfolding lift
  Keeps-lift r = record { after = λ t i. i }

  pub Keeps-zoom : (f : S → A × S) → ((s : S) → P s → P (f s).1) → Keeps P (zoom {E = E} f)
  unfolding zoom
  Keeps-zoom f k = record { after = k }

  pub Keeps-if :
      (b : Bool) (m n : Exec E S A) → Keeps P m → Keeps P n → Keeps P (if b then m else n)
  Keeps-if true m n km kn = km
  Keeps-if false m n km kn = kn

module _ {E S : Type 0} {P : S → Type 0} where
  pub Keeps-raise_if : (b : Bool) (e : E) → Keeps P (raise_if b e)
  unfolding raise_if
  Keeps-raise_if true e = record { after = λ t i. i }
  Keeps-raise_if false e = record { after = λ t i. i }

  pub Keeps-modify : (f : S → S) → ((s : S) → P s → P (f s)) → Keeps P (modify {E = E} f)
  unfolding modify
  Keeps-modify f k = record { after = k }

module _ {ℓ} {E S A B : Type ℓ} {P : S → Type ℓ} where
  continue_keeps :
      (r : Result E A) (f : A → Exec E S B)
      → ((a : A) → Keeps P (f a))
      → (s : S) → P s
      → P (continue r f s).1
  continue_keeps (ok a) f k s h = (k a).after s h
  continue_keeps (err e) f k s h = h

  pub Keeps-bind :
      (m : Exec E S A) (f : A → Exec E S B)
      → Keeps P m
      → ((a : A) → Keeps P (f a))
      → Keeps P (m >>= f)
  unfolding ◌>>=◌
  Keeps-bind m f km kf = record {
    after = λ s h. continue_keeps (m s).0 f kf (m s).1 (km.after s h);
  }

module _ {E S A : Type 0} {P : S → Type 0} where
  on_error_keeps :
      (r : Result E A) (h : E → Exec E S A)
      → ((e : E) → Keeps P (h e))
      → (s : S) → P s
      → P (on_error r h s).1
  on_error_keeps (ok a) h k s i = i
  on_error_keeps (err e) h k s i = (k e).after s i

  pub Keeps-recover :
      (m : Exec E S A) (h : E → Exec E S A)
      → Keeps P m
      → ((e : E) → Keeps P (h e))
      → Keeps P (recover m h)
  Keeps-recover m h km kh = record {
    after = λ s i. on_error_keeps (m s).0 h kh (m s).1 (km.after s i);
  }

pub ruleset keeps_rules = (
  Keeps-pure, Keeps-raise, Keeps-gets, Keeps-lift, Keeps-require, Keeps-if, Keeps-raise_if,
  Keeps-bind,
)
