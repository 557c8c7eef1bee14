-- ===== src/Prelude/Members.antt =====
-- Membership by a Boolean test, and lists without repetition.
use Prim.Native.Nat.{ℕ, zero, suc}
use mathlib.Core.Path.{◌≡◌, refl}
use mathlib.Core.Bool.{Bool, true, false}
use mathlib.Core.List.{List, [], ◌∷◌}
use native.Mathlib.Omega.{arith}
use oneiroi.Prelude.Keys.{Eq, elem}
use oneiroi.Prelude.Lists.{take, filter, All}

-- Every filtered element passes the test, and a prefix keeps what holds of all.
module _ {ℓ} {A : Type ℓ} where
  pub All-filter : (p : A → Bool) (xs : List A) → All (λ x. p x ≡ true) (filter p xs)
  All-filter p [] = tt
  All-filter p (x ∷ xs) = ground (arith, All-filter p xs)

  pub All-take {κ} : (P : A → Type κ) (n : ℕ) (xs : List A) → All P xs → All P (take n xs)
  All-take P zero xs h = tt
  All-take P (suc n) [] h = tt
  All-take P (suc n) (x ∷ xs) h = (h.0, All-take P n xs h.1)

module _ {ℓ} {A : Type ℓ} ⦃e : Eq A⦄ where
  abbrev pub IsUnique : List A → Type ℓ
  IsUnique [] = Unit
  IsUnique (x ∷ xs) = (elem x xs ≡ false) × IsUnique xs

  pub elem-take : (j : A) (n : ℕ) (xs : List A) → elem j xs ≡ false → elem j (take n xs) ≡ false
  elem-take j zero xs h = refl
  elem-take j (suc n) [] h = refl
  elem-take j (suc n) (x ∷ xs) h = ground (arith, elem-take j n xs)

  pub elem-filter :
      (p : A → Bool) (j : A) (xs : List A) → elem j xs ≡ false → elem j (filter p xs) ≡ false
  elem-filter p j [] h = refl
  elem-filter p j (x ∷ xs) h = ground (arith, elem-filter p j xs)

  -- What fails the test is not among the filtered.
  pub elem-filter_failing :
      (p : A → Bool) (j : A) (xs : List A) → p j ≡ false → elem j (filter p xs) ≡ false
  elem-filter_failing p j [] h = refl
  elem-filter_failing p j (x ∷ xs) h = ground (arith, elem-filter_failing p j xs, e.beq_iff x j)

  pub filter-IsUnique : (p : A → Bool) (xs : List A) → IsUnique xs → IsUnique (filter p xs)
  filter-IsUnique p [] h = tt
  filter-IsUnique p (x ∷ xs) h = ground (arith, filter-IsUnique p xs h.1, elem-filter p x xs)

  pub take-IsUnique : (n : ℕ) (xs : List A) → IsUnique xs → IsUnique (take n xs)
  take-IsUnique zero xs h = tt
  take-IsUnique (suc n) [] h = tt
  take-IsUnique (suc n) (x ∷ xs) h = ground (arith, take-IsUnique n xs h.1, elem-take x n xs)
