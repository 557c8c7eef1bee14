-- ===== src/Prelude/Keys.antt =====
-- Equality as an interface: one `==` for numbers, texts, pairs and optional values.
use Prim.Native.Nat.{ℕ, zero, suc}
use Prim.Native.String.{String, compare}
use mathlib.Core.Path.{◌≡◌, sym, ap, ◌∙◌}
use mathlib.Core.Logic.{◌↔◌, ◌≢◌}
use mathlib.Core.Bool.{Bool, true, false, ◌&&◌, ◌||◌}
use mathlib.Core.Option.{Option, none, some}
use mathlib.Core.List.{List, [], ◌∷◌}
use native.Mathlib.Omega.{arith}
use text.Mathlib.Text.{◌==◌ as str_beq, is_lt}
use text.Mathlib.TextEquality.{eq_iff}
use oneiroi.Prelude.Tests.{nat_beq, nat_beq_iff}

pub record Eq {ℓ} (A : Type ℓ) : Type ℓ where
  pub beq : A → A → Bool
  pub beq_iff : (x y : A) → (beq x y ≡ true) ↔ (x ≡ y)

abbrev pub pair_beq {ℓ} : {A B : Type ℓ} ⦃a : Eq A⦄ ⦃b : Eq B⦄ → A × B → A × B → Bool
pair_beq ⦃a⦄ ⦃b⦄ (x, y) (x', y') = a.beq x x' && b.beq y y'

pub pair_beq_iff {ℓ} :
    {A B : Type ℓ} ⦃a : Eq A⦄ ⦃b : Eq B⦄ (p q : A × B) → (pair_beq p q ≡ true) ↔ (p ≡ q)
pair_beq_iff ⦃a⦄ ⦃b⦄ (x, y) (x', y') = ground (arith, a.beq_iff x x', b.beq_iff y y')

instance abbrev pub pair_eq {ℓ} : {A B : Type ℓ} ⦃a : Eq A⦄ ⦃b : Eq B⦄ → Eq (A × B)
pair_eq = record { beq = pair_beq; beq_iff = pair_beq_iff }

abbrev pub option_beq {ℓ} : {A : Type ℓ} ⦃a : Eq A⦄ → Option A → Option A → Bool
option_beq none none = true
option_beq ⦃a⦄ (some x) (some y) = a.beq x y
option_beq _ _ = false

pub option_beq_iff {ℓ} :
    {A : Type ℓ} ⦃a : Eq A⦄ (p q : Option A) → (option_beq p q ≡ true) ↔ (p ≡ q)
option_beq_iff none none = ground arith
option_beq_iff ⦃a⦄ (some x) (some y) = ground (arith, a.beq_iff x y)
option_beq_iff none (some y) = ground arith
option_beq_iff (some x) none = ground arith

instance abbrev pub option_eq {ℓ} : {A : Type ℓ} ⦃a : Eq A⦄ → Eq (Option A)
option_eq = record { beq = option_beq; beq_iff = option_beq_iff }

instance abbrev pub string_eq : Eq String
string_eq = record { beq = str_beq; beq_iff = eq_iff }

-- numbers
instance abbrev pub nat_eq : Eq ℕ
nat_eq = record { beq = nat_beq; beq_iff = nat_beq_iff }

-- the source's `==`
abbrev pub ◌==◌ {ℓ} : {A : Type ℓ} ⦃e : Eq A⦄ → A → A → Bool
◌==◌ ⦃e⦄ = e.beq

infix 50 ◌==◌
-- texts that the test tells apart
pub strings_differ : (a b : String) → (a == b) ≡ false → a ≢ b
strings_differ a b h = λ q. ground (arith, h, eq_iff a b, q)

-- Python's `a in xs`.
abbrev pub elem {ℓ} : {A : Type ℓ} ⦃e : Eq A⦄ → A → List A → Bool
elem a [] = false
elem ⦃e⦄ a (x ∷ xs) = e.beq x a || elem a xs

-- Python's `<` on texts: by code points.
abbrev pub str_ltb : String → String → Bool
str_ltb s t = is_lt (compare s t)

-- Equality of an enumeration: every value has a number, and the numbering can be undone.
module _ {ℓ} {A : Type ℓ} (code : A → ℕ) (decode : ℕ → A)
    (law : (a : A) → decode (code a) ≡ a) where
  pub code_iff : (a b : A) → (nat_beq (code a) (code b) ≡ true) ↔ (a ≡ b)
  code_iff a b = (
    λ h. sym (law a) ∙ ap decode ((nat_beq_iff (code a) (code b)).0 h) ∙ law b,
    λ h. (nat_beq_iff (code a) (code b)).1 (ap code h),
  )

  abbrev pub enum_eq : Eq A
  enum_eq = record { beq = λ a b. nat_beq (code a) (code b); beq_iff = code_iff }

-- The value at a place of a list, to undo a numbering.
abbrev pub nth {ℓ} : {A : Type ℓ} → A → List A → ℕ → A
nth d [] n = d
nth d (x ∷ xs) zero = x
nth d (x ∷ xs) (suc n) = nth d xs n

-- Python's truth of an optional text: present and not empty.
abbrev pub truthy : Option String → Option String
truthy none = none
truthy (some s) = some_if (str_beq s "") s
  where
    some_if : Bool → String → Option String
    some_if true s = none
    some_if false s = some s
