-- ===== src/Compute/Plan.antt =====
-- `allocated_gpu_count` and `profile_plan_for_count` of compute.py.
use oneiroi.Prelude.{
  ℕ, zero, suc, ◌+◌, ◌≤◌, ◌<◌, ◌≡◌, refl, ap, sym, ◌⊎◌, inl, inr, min, Bool, true, not, ◌&&◌, ◌||◌,
  arith, ltb, ltb→lt, Bool-cases, if◌then◌else◌,
}
use oneiroi.Prelude.Int.{ℤ, pos, negsuc, pos_part}
use oneiroi.Prelude.Effects.{Result, ok, err}
use oneiroi.Failure.{Failure, value_error}
use oneiroi.Compute.{ProfilePlan, max_gpu_count, total}

-- `n < k`
abbrev pub less : ℤ → ℕ → Bool
less (pos n) k = ltb n k
less (negsuc n) k = true

unfoldable pub allocated_gpu_count : ℤ → ℤ → Bool → Result Failure ℕ
allocated_gpu_count (negsuc n) eligible_count allow_partial =
    err (value_error "requested GPU count must be between 1 and 4")
allocated_gpu_count (pos requested) eligible_count allow_partial =
    if ltb requested 1 || ltb max_gpu_count requested
    then err (value_error "requested GPU count must be between 1 and 4")
    else if not allow_partial && less eligible_count requested
    then ok 0
    else ok (min (min requested (pos_part eligible_count)) max_gpu_count)

-- the entries of `plans`
unfoldable pub plans : ℕ → ProfilePlan
plans zero = record { fast = 0; hq = 0 }
plans (suc zero) = record { fast = 1; hq = 0 }
plans (suc (suc zero)) = record { fast = 1; hq = 1 }
plans (suc (suc (suc zero))) = record { fast = 2; hq = 1 }
plans (suc (suc (suc (suc n)))) = record { fast = 2; hq = 2 }

unfoldable pub profile_plan_for_count : ℤ → Result Failure ProfilePlan
unfolding plans
profile_plan_for_count (negsuc n) = err (value_error "allocated GPU count must be between 0 and 4")
profile_plan_for_count (pos count) =
    if ltb max_gpu_count count
    then err (value_error "allocated GPU count must be between 0 and 4")
    else ok (plans count)

-- A request between 1 and 4 is answered. The number is the whole request when enough GPUs are
-- eligible; otherwise it is the eligible ones under `allow_partial`, where a negative count of them
-- is none, and none without it.
pub allocated_gpu_count_exact :
    (requested : ℕ) (eligible_count : ℤ) (allow_partial : Bool)
    → 1 ≤ requested
    → requested ≤ max_gpu_count
    → allocated_gpu_count (pos requested) eligible_count allow_partial
      ≡ ok (
          if less eligible_count requested
          then (if allow_partial then pos_part eligible_count else 0)
          else requested)
unfolding allocated_gpu_count
allocated_gpu_count_exact r (pos e) p lo hi = ground arith
allocated_gpu_count_exact r (negsuc e) p lo hi = ground arith

plans_balanced :
    (n : ℕ)
    → n ≤ max_gpu_count
    → (total (plans n) ≡ n) × ((plans n).hq ≤ (plans n).fast) × ((plans n).fast ≤ (plans n).hq + 1)
unfolding plans total
plans_balanced zero h = omega arith
plans_balanced (suc zero) h = omega arith
plans_balanced (suc (suc zero)) h = omega arith
plans_balanced (suc (suc (suc zero))) h = omega arith
plans_balanced (suc (suc (suc (suc zero)))) h = omega arith
plans_balanced (suc (suc (suc (suc (suc n))))) h = absurd (omega arith)

-- negative, or more than 4
abbrev pub IsOutOfRange : ℤ → Type 0
IsOutOfRange (pos n) = max_gpu_count < n
IsOutOfRange (negsuc n) = Unit

-- A plan is given exactly for the counts from 0 to 4. It assigns every GPU to one profile, and it is
-- balanced: as many fast slots as HQ slots, or one more.
pub profile_plan_for_count_balanced :
    (n : ℤ)
    → ((p : ProfilePlan) × (profile_plan_for_count n ≡ ok p)
        × (n ≡ pos (total p))
        × (p.hq ≤ p.fast)
        × (p.fast ≤ p.hq + 1)
        × (total p ≤ max_gpu_count))
      ⊎ ((profile_plan_for_count n
            ≡ err (value_error "allocated GPU count must be between 0 and 4"))
          × IsOutOfRange n)
unfolding profile_plan_for_count
profile_plan_for_count_balanced (negsuc n) = inr (refl, tt)
profile_plan_for_count_balanced (pos n) = elim (Bool-cases (ltb max_gpu_count n)) [
  | inl over ↦ inr (rw over refl, ltb→lt _ _ over)
  | inr fits ↦
      let h : n ≤ max_gpu_count = ground arith in
      let b = plans_balanced n h in
      inl (plans n, rw fits refl, ap pos (sym b.0), b.1, b.2, omega (arith, b.0, h))
]
