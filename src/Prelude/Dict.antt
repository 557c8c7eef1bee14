-- ===== src/Prelude/Dict.antt =====
-- Python's `dict`: entries in insertion order; a write to a present key keeps its place.
use Prim.Native.Nat.{◌≤◌, ◌+◌}
use oneiroi.Prelude.Lists.{count}
use mathlib.Core.Path.{◌≡◌, refl}
use mathlib.Core.Option.{Option, none, some}
use mathlib.Core.List.{List, [], ◌∷◌, map}
use mathlib.Core.Bool.{Bool, false}
use native.Mathlib.Omega.{arith}
use oneiroi.Prelude.Tests.{if◌then◌else◌}
use oneiroi.Prelude.Keys.{Eq, ◌==◌, elem}

abbrev pub Dict {ℓ} : Type ℓ → Type ℓ → Type ℓ
Dict K V = List (K × V)

module _ {ℓ} {K V : Type ℓ} where
  abbrev pub values : Dict K V → List V
  values d = map (λ e. e.1) d

  abbrev pub keys : Dict K V → List K
  keys d = map (λ e. e.0) d

module _ {ℓ} {K V : Type ℓ} ⦃e : Eq K⦄ where
  unfoldable pub get : K → Dict K V → Option V
  get k [] = none
  get k ((j, v) ∷ d) = if j == k then some v else get k d

  unfoldable pub put : K → V → Dict K V → Dict K V
  put k v [] = (k, v) ∷ []
  put k v ((j, w) ∷ d) = if j == k then (k, v) ∷ d else (j, w) ∷ put k v d

  -- `d.pop(k, None)`
  unfoldable pub pop : K → Dict K V → Dict K V
  pop k [] = []
  pop k ((j, w) ∷ d) = let rest = pop k d in if j == k then rest else (j, w) ∷ rest

  pub get-put :
      (k j : K) (v : V) (d : Dict K V) → get j (put k v d) ≡ (if k == j then some v else get j d)
  unfolding get put
  get-put k j v [] = refl
  get-put k j v ((i, w) ∷ d) =
      ground (arith, e.beq_iff k j, e.beq_iff i k, e.beq_iff i j, get-put k j v d)

  pub get-pop : (k j : K) (d : Dict K V) → get j (pop k d) ≡ (if k == j then none else get j d)
  unfolding get pop
  get-pop k j [] = ground arith
  get-pop k j ((i, w) ∷ d) =
      ground (arith, e.beq_iff k j, e.beq_iff i k, e.beq_iff i j, get-pop k j d)

module _ {ℓ} {K V : Type ℓ} ⦃e : Eq K⦄ where
  pub get-put_self : (k : K) (v : V) (d : Dict K V) → get k (put k v d) ≡ some v
  get-put_self k v d = rw (get-put k k v d, (e.beq_iff k k).1 refl)

  -- a value that is written back changes nothing
  pub put-get : (k : K) (v : V) (d : Dict K V) → get k d ≡ some v → put k v d ≡ d
  unfolding get put
  put-get k v [] h = ground (arith, h)
  put-get k v ((i, w) ∷ d) h = ground (arith, h, e.beq_iff i k, put-get k v d)

-- What a lookup shows after the entries that satisfy `p` are gone.
abbrev pub drop_if {ℓ} : {V : Type ℓ} → (V → Bool) → Option V → Option V
drop_if p none = none
drop_if p (some v) = if p v then none else some v

abbrev pub holds {ℓ} : {V : Type ℓ} → (V → Bool) → Option V → Bool
holds p none = false
holds p (some v) = p v

module _ {ℓ} {K V : Type ℓ} ⦃e : Eq K⦄ where
  -- Every key stands once, as in a `dict`.
  abbrev pub IsDistinct : Dict K V → Type ℓ
  IsDistinct [] = Unit
  IsDistinct ((k, v) ∷ d) = (get k d ≡ none) × IsDistinct d

  -- `[k for k, v in d.items() if p(v)]`
  unfoldable pub keys_where : (V → Bool) → Dict K V → List K
  keys_where p [] = []
  keys_where p ((k, v) ∷ d) = let rest = keys_where p d in if p v then k ∷ rest else rest

  -- `for k in ks: del d[k]`
  unfoldable pub pop_all : List K → Dict K V → Dict K V
  pop_all [] d = d
  pop_all (k ∷ ks) d = pop_all ks (pop k d)

  -- `d.update(...)`
  unfoldable pub put_all : List (K × V) → Dict K V → Dict K V
  put_all [] d = d
  put_all ((k, v) ∷ es) d = put_all es (put k v d)

  pub put-IsDistinct : (k : K) (v : V) (d : Dict K V) → IsDistinct d → IsDistinct (put k v d)
  unfolding put get
  put-IsDistinct k v [] h = (refl, tt)
  put-IsDistinct k v ((j, w) ∷ d) h =
      ground (arith, e.beq_iff j k, e.beq_iff k j, put-IsDistinct k v d h.1, get-put k j v d)

  pub pop-IsDistinct : (k : K) (d : Dict K V) → IsDistinct d → IsDistinct (pop k d)
  unfolding pop
  pop-IsDistinct k [] h = tt
  pop-IsDistinct k ((j, w) ∷ d) h =
      ground (arith, e.beq_iff j k, e.beq_iff k j, pop-IsDistinct k d h.1, get-pop k j d)

  pub pop_all-IsDistinct : (ks : List K) (d : Dict K V) → IsDistinct d → IsDistinct (pop_all ks d)
  unfolding pop_all
  pop_all-IsDistinct [] d h = h
  pop_all-IsDistinct (k ∷ ks) d h = pop_all-IsDistinct ks (pop k d) (pop-IsDistinct k d h)

  pub put_all-IsDistinct :
      (es : List (K × V)) (d : Dict K V) → IsDistinct d → IsDistinct (put_all es d)
  unfolding put_all
  put_all-IsDistinct [] d h = h
  put_all-IsDistinct ((k, v) ∷ es) d h = put_all-IsDistinct es (put k v d) (put-IsDistinct k v d h)

  pub get-pop_all :
      (j : K) (ks : List K) (d : Dict K V)
      → get j (pop_all ks d) ≡ (if elem j ks then none else get j d)
  unfolding pop_all
  get-pop_all j [] d = refl
  get-pop_all j (k ∷ ks) d = ground (arith, get-pop_all j ks (pop k d), get-pop k j d)

  pub elem-keys_where :
      (p : V → Bool) (j : K) (d : Dict K V)
      → IsDistinct d
      → elem j (keys_where p d) ≡ holds p (get j d)
  unfolding keys_where get
  elem-keys_where p j [] h = refl
  elem-keys_where p j ((k, v) ∷ d) h = ground (arith, elem-keys_where p j d h.1, e.beq_iff k j)

  -- The entries that satisfy `p` are gone, and no other.
  pub get-pop_where :
      (p : V → Bool) (j : K) (d : Dict K V)
      → IsDistinct d
      → get j (pop_all (keys_where p d) d) ≡ drop_if p (get j d)
  get-pop_where p j d h = ground (arith, get-pop_all j (keys_where p d) d, elem-keys_where p j d h)

  pub pop-put : (k : K) (v : V) (d : Dict K V) → pop k (put k v d) ≡ pop k d
  unfolding pop put
  pop-put k v [] = ground (arith, e.beq_iff k k)
  pop-put k v ((j, w) ∷ d) = ground (arith, e.beq_iff k k, e.beq_iff j k, pop-put k v d)

  pub pop_absent : (k : K) (d : Dict K V) → get k d ≡ none → pop k d ≡ d
  unfolding pop get
  pop_absent k [] h = refl
  pop_absent k ((j, w) ∷ d) h = ground (arith, h, pop_absent k d)

  -- Without one key, a count of the values loses at most one.
  pub count-pop :
      (p : V → Bool) (k : K) (d : Dict K V)
      → IsDistinct d
      → count p (values d) ≤ count p (values (pop k d)) + 1
  unfolding pop get
  count-pop p k [] h = omega arith
  count-pop p k ((j, w) ∷ d) h =
      ground (arith, e.beq_iff j k, count-pop p k d h.1, pop_absent k d, h.0)

-- The laws by which clients compute.
pub ruleset dict_laws = (get-put, get-pop, get-pop_all)
