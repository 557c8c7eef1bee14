-- ===== src/Scheduler/Candidates.antt =====
-- Which slot `reserve` of job_scheduler.py chooses.
use oneiroi.Prelude.{
  ◌≡◌, String, Bool, true, false, ◌&&◌, nat_eq, any, find, is_some, Bool-cases, Option, none, some,
  List, [], ◌∷◌, ◌==◌, string_eq, option_eq, elem, inl, inr, arith, filter, All, sort_by, insert_by,
}
use oneiroi.Compute.{
  GpuState, ProfileTier, ComputeSlot, ComputeSessionSnapshot, gpu_state_eq, tier_eq,
}
use oneiroi.Scheduler.{JobScheduler, candidates, is_candidate, first, slot_before}

-- the first element of a sorted filter passes the test
All-insert_by :
    (lt : ComputeSlot → ComputeSlot → Bool) (P : ComputeSlot → Type 0) (a : ComputeSlot)
    (slots : List ComputeSlot)
    → P a
    → All P slots
    → All P (insert_by lt a slots)
All-insert_by lt P a [] p h = (p, tt)
All-insert_by lt P a (slot ∷ slots) p h = ground (arith, All-insert_by lt P a slots p h.1)

All-sort_by :
    (lt : ComputeSlot → ComputeSlot → Bool) (P : ComputeSlot → Type 0) (slots : List ComputeSlot)
    → All P slots
    → All P (sort_by lt slots)
All-sort_by lt P [] h = tt
All-sort_by lt P (slot ∷ slots) h =
    All-insert_by lt P slot (sort_by lt slots) h.0 (All-sort_by lt P slots h.1)

-- `P` holds of the chosen slot, if there is one
abbrev pub WhenSome : {A : Type 0} → (A → Type 0) → Option A → Type 0
WhenSome P none = Unit
WhenSome P (some a) = P a

first_candidate :
    (P : ComputeSlot → Type 0) (slots : List ComputeSlot) → All P slots → WhenSome P (first slots)
first_candidate P [] h = tt
first_candidate P (slot ∷ slots) h = h.0

-- The slot is the one of these values, has the profile and is READY.
abbrev pub is_ready_slot : ProfileTier → ComputeSlot → ComputeSlot → Bool
is_ready_slot profile slot x =
    x.id == slot.id
    && x.gpu_id == slot.gpu_id
    && x.physical_index == slot.physical_index
    && x.profile == some profile
    && x.state == GpuState.ready

-- a candidate that is a slot of the session
abbrev pub IsChosen : ProfileTier → List String → List ComputeSlot → ComputeSlot → Type 0
IsChosen profile busy slots slot =
    (elem slot.id busy ≡ false) × (any (is_ready_slot profile slot) slots ≡ true)

module _ (profile : ProfileTier) (busy : List String) where
  IsChosen-later :
      (a : ComputeSlot) (slots chosen : List ComputeSlot)
      → All (IsChosen profile busy slots) chosen
      → All (IsChosen profile busy (a ∷ slots)) chosen
  IsChosen-later a slots [] h = tt
  IsChosen-later a slots (slot ∷ chosen) h =
      ((h.0.0, ground (arith, h.0.1)), IsChosen-later a slots chosen h.1)

  IsChosen-first :
      (slot : ComputeSlot) (slots : List ComputeSlot)
      → is_candidate profile busy slot ≡ true
      → IsChosen profile busy (slot ∷ slots) slot
  IsChosen-first slot slots h = (
    ground (arith, h),
    ground (
      arith,
      h,
      string_eq.beq_iff slot.id slot.id,
      string_eq.beq_iff slot.gpu_id slot.gpu_id,
      nat_eq.beq_iff slot.physical_index slot.physical_index,
    ),
  )

  filter-IsChosen :
      (slots : List ComputeSlot)
      → All (IsChosen profile busy slots) (filter (is_candidate profile busy) slots)
  filter-IsChosen [] = tt
  filter-IsChosen (slot ∷ slots) =
      let rest = IsChosen-later slot slots _ (filter-IsChosen slots) in
      elim (Bool-cases (is_candidate profile busy slot)) [
        | inl e ↦ rw e (IsChosen-first slot slots e, rest)
        | inr e ↦ rw e rest
      ]

pub candidate_lem :
    (profile : ProfileTier) (session : ComputeSessionSnapshot) (s : JobScheduler)
    → WhenSome (IsChosen profile s.busy_slots session.slots) (first (candidates profile session s))
candidate_lem profile session s = first_candidate _ _ (
    All-sort_by slot_before _ (filter (is_candidate profile s.busy_slots) session.slots)
      (filter-IsChosen profile s.busy_slots session.slots))

-- a slot that the session has is found by its identifier
pub found_slot :
    (profile : ProfileTier) (slot : ComputeSlot) (slots : List ComputeSlot)
    → any (is_ready_slot profile slot) slots ≡ true
    → is_some (find (λ x. x.id == slot.id) slots) ≡ true
found_slot profile slot [] h = ground (arith, h)
found_slot profile slot (x ∷ slots) h = ground (arith, h, found_slot profile slot slots)
