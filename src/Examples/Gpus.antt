-- ===== src/Examples/Gpus.antt =====
-- Leases on two GPUs, at concrete values.
use oneiroi.Prelude.{
  ℕ, ◌+◌, ◌⊎◌, ◌≡◌, ◌≢◌, ◌≤◌, refl, String, true, Option, some, [], ◌∷◌, All, IsUnique, map, length,
  elem, string_eq, arith, ltb, min, if◌then◌else◌, strings_differ, not, ◌&&◌,
}
use oneiroi.Prelude.Dict.{get, IsDistinct, holds, drop_if}
use oneiroi.Prelude.Int.{pos, pos_part}
use oneiroi.Prelude.Effects.{ok, err}
use oneiroi.Failure.{value_error}
use oneiroi.Compute.{max_gpu_count, ProfilePlan, total}
use oneiroi.Compute.Plan.{
  profile_plan_for_count, profile_plan_for_count_balanced, allocated_gpu_count,
  allocated_gpu_count_exact, less, IsOutOfRange,
}
use oneiroi.Leases.{
  Lease, LeaseStore, is_held_by, acquire, renew_session, release_gpu, release_session, step,
  acquires, granted_lease,
}
use oneiroi.Leases.View.{live, renewed_entry, first_some, lease_among}
use oneiroi.Leases.Exclusion.{other_session_kept}
use oneiroi.Leases.Grants.{free, IsGranted, acquire_lem, renew_session_lem, release_exact}

-- GPU a belongs to one session until 100, GPU b to another until 10.
abbrev lease_a : Lease
lease_a = granted_lease "a" "one" "t-a" 100

abbrev lease_b : Lease
lease_b = granted_lease "b" "two" "t-b" 10

abbrev store : LeaseStore
store = ("a", lease_a) ∷ ("b", lease_b) ∷ []

abbrev tokens : ℕ → String
tokens n = "t"

store-IsDistinct : IsDistinct store
unfolding get
store-IsDistinct = (refl, (refl, tt))

abbrev session_one : Option String
session_one = some "one"

abbrev session_two : Option String
session_two = some "two"

two_differs_one : session_two ≢ session_one
two_differs_one = λ q. ground (arith, strings_differ "two" "one" refl, q)

a-holder : get "a" store ≡ some lease_a
unfolding get
a-holder = refl

other_session_kept_example :
    get "a" (step 50 (acquires ("a" ∷ "b" ∷ []) 2 "two" 60 true tokens) store) ≡ some lease_a
other_session_kept_example =
    other_session_kept 50 (acquires ("a" ∷ "b" ∷ []) 2 "two" 60 true tokens) store "a" lease_a
      store-IsDistinct a-holder (omega arith) two_differs_one

acquire_lem_example :
    let r = acquire ("a" ∷ "b" ∷ []) 2 "three" 60 true 50 tokens store in
    (length r.0 ≡ (
      if not true && ltb (free 50 store ("a" ∷ "b" ∷ [])) 2
      then 0
      else min 2 (free 50 store ("a" ∷ "b" ∷ []))))
    × IsUnique (map (λ l. l.gpu_id) r.0)
    × All (IsGranted ("a" ∷ "b" ∷ []) 50 60 "three" store r.1) r.0
    × ((j : String) → get j r.1 ≡ first_some (lease_among j r.0) (live 50 store j))
acquire_lem_example =
    acquire_lem ("a" ∷ "b" ∷ []) 2 "three" 60 true 50 tokens store store-IsDistinct
      (refl, (refl, tt))

renew_session_lem_example :
    let r = renew_session "one" 60 50 store in
    (get "a" r.1 ≡ renewed_entry "one" (50 + 60) "a" (live 50 store "a") (live 50 store "a"))
    × (elem "a" r.0 ≡ holds (is_held_by "one") (live 50 store "a"))
renew_session_lem_example = renew_session_lem "one" 60 50 store "a" store-IsDistinct

release_exact_example :
    ((release_gpu "a" "one" store).0 ≡ holds (is_held_by "one") (get "a" store))
    × (get "a" (release_gpu "a" "one" store).1 ≡ (
        if string_eq.beq "a" "a"
        then drop_if (is_held_by "one") (get "a" store)
        else get "a" store))
    × (get "a" (release_session "one" store).1 ≡ drop_if (is_held_by "one") (get "a" store))
    × (elem "a" (release_session "one" store).0 ≡ holds (is_held_by "one") (get "a" store))
release_exact_example = release_exact "a" "one" store "a" store-IsDistinct

allocated_gpu_count_exact_example :
    allocated_gpu_count (pos 3) (pos 2) true
    ≡ ok (if less (pos 2) 3 then (if true then pos_part (pos 2) else 0) else 3)
allocated_gpu_count_exact_example =
    allocated_gpu_count_exact 3 (pos 2) true (omega arith) (omega arith)

profile_plan_for_count_balanced_example :
    ((p : ProfilePlan) × (profile_plan_for_count (pos 3) ≡ ok p)
      × (pos 3 ≡ pos (total p))
      × (p.hq ≤ p.fast)
      × (p.fast ≤ p.hq + 1)
      × (total p ≤ max_gpu_count))
    ⊎ ((profile_plan_for_count (pos 3)
          ≡ err (value_error "allocated GPU count must be between 0 and 4"))
        × IsOutOfRange (pos 3))
profile_plan_for_count_balanced_example = profile_plan_for_count_balanced (pos 3)
