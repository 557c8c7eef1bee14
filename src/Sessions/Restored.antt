-- ===== src/Sessions/Restored.antt =====
-- What a session is after a restart.
use oneiroi.Prelude.{
  ◌≡◌, refl, sym, subst, String, Bool, true, not, ◌||◌, some, List, [], ◌∷◌, string_eq, arith, all,
  any, map, is_some, if◌then◌else◌, Option, elem, false, ap, All, IsUnique,
}
use oneiroi.Prelude.Dict.{Dict, get, put, get-put, get-put_self}
use oneiroi.Prelude.Effects.{ok, ◌>>=◌}
use oneiroi.Prelude.Runs.{Runs, Runs-pure, Runs-gets, Runs-modify, Runs-bind, Runs-both, Ended-ok}
use oneiroi.Failure.{Failure}
use oneiroi.Compute.{ComputeSlot, ComputeSessionSnapshot, ComputeSessionState, gpu_state_eq}
use oneiroi.Leases.{Lease, active}
use oneiroi.Sessions.{Clock, ComputeSessionService}
use oneiroi.Sessions.Upkeep.{
  restore_sessions, restore, restore_from, start_if, load_active, restored_session, held_token,
  has_lost, is_idle, error_slot,
}

-- The slot is idle, or the session holds the lease of its GPU.
abbrev pub is_backed : Dict String Lease → String → ComputeSlot → Bool
is_backed leases session_id slot = is_idle slot || is_some (held_token leases session_id slot)

restored_slots :
    (leases : Dict String Lease) (session_id : String) (slots : List ComputeSlot)
    → all (is_backed leases session_id) (
        map
          (λ slot.
            if has_lost leases session_id slot then error_slot "GPU_LEASE_LOST" slot else slot)
          slots)
      ≡ true
restored_slots leases session_id [] = refl
restored_slots leases session_id (slot ∷ slots) =
    ground (arith, restored_slots leases session_id slots)

lost_unless_backed :
    (leases : Dict String Lease) (session_id : String) (slots : List ComputeSlot)
    → any (has_lost leases session_id) slots ≡ not (all (is_backed leases session_id) slots)
lost_unless_backed leases session_id [] = refl
lost_unless_backed leases session_id (slot ∷ slots) =
    ground (arith, lost_unless_backed leases session_id slots)

-- What a restart makes of a saved session, as it is found in the service: the slots that are not
-- backed are in error, and then so is the session.
abbrev pub IsRestored :
    Dict String Lease → ComputeSessionSnapshot → Option ComputeSessionSnapshot → Type 0
IsRestored leases saved found =
    (session : ComputeSessionSnapshot) × (found ≡ some session)
    × (session.slots
        ≡ map
            (λ slot.
              if is_backed leases saved.id slot then slot else error_slot "GPU_LEASE_LOST" slot)
            saved.slots)
    × (all (is_backed leases saved.id) session.slots ≡ true)
    × (session.state ≡ (
        if all (is_backed leases saved.id) saved.slots
        then saved.state
        else ComputeSessionState.failed))
    × (session.error_code ≡ (
        if all (is_backed leases saved.id) saved.slots
        then saved.error_code
        else some "GPU_LEASE_LOST"))

kept_or_lost :
    (leases : Dict String Lease) (session_id : String) (slots : List ComputeSlot)
    → map
        (λ slot. if has_lost leases session_id slot then error_slot "GPU_LEASE_LOST" slot else slot)
        slots
      ≡ map
          (λ slot.
            if is_backed leases session_id slot then slot else error_slot "GPU_LEASE_LOST" slot)
          slots
kept_or_lost leases session_id [] = refl
kept_or_lost leases session_id (slot ∷ slots) = ground (arith, kept_or_lost leases session_id slots)

restored_session-IsRestored :
    (leases : Dict String Lease) (saved : ComputeSessionSnapshot)
    (found : Option ComputeSessionSnapshot)
    → found ≡ some (restored_session leases saved)
    → IsRestored leases saved found
restored_session-IsRestored leases saved found q =
    let h = lost_unless_backed leases saved.id saved.slots in
    (
      restored_session leases saved,
      q,
      kept_or_lost leases saved.id saved.slots,
      restored_slots leases saved.id saved.slots,
      ground (arith, h),
      ground (arith, h),
    )

abbrev At : String → Option ComputeSessionSnapshot → ComputeSessionService → Type 0
At j x t = get j t.sessions ≡ x

abbrev Raises : Failure → ComputeSessionService → Type 0
Raises e t = ⊥

abbrev ids : List ComputeSessionSnapshot → List String
ids saved = map (λ session. session.id) saved

module _ (clock : Clock) (leases : Dict String Lease) where
  start_if-At :
      (j : String) (x : Option ComputeSessionSnapshot) (b : Bool) (session_id : String)
      → Runs (At j x) (λ u. At j x) Raises (start_if b session_id)
  start_if-At j x true session_id = Runs-modify _ _ _ _ λ s h. h
  start_if-At j x false session_id = Runs-pure _ _ _ _ λ s h. h

  -- sessions that are not restored keep their entry, and the identifiers are returned
  kept :
      (j : String) (x : Option ComputeSessionSnapshot) (saved : List ComputeSessionSnapshot)
      → elem j (ids saved) ≡ false
      → Runs
          (At j x)
          (λ r t. (r ≡ ids saved) × At j x t)
          Raises
          (restore_sessions clock leases saved)
  unfolding restore_sessions
  kept j x [] n = Runs-pure _ _ _ [] λ t h. (refl, h)
  kept j x (session ∷ rest) n =
      Runs-bind _ (λ u. At j x) _ _ _ _ (Runs-modify (At j x) (At j x) _ _ λ t h. other t h)
        λ u1.
          Runs-bind _ (λ u. At j x) _ _ _ _ (Runs-modify _ _ _ _ λ t h. h)
            λ u2.
              Runs-bind _ (λ b. At j x) _ _ _ _ (Runs-gets _ _ _)
                λ with_tokens.
                  Runs-bind _ (λ u. At j x) _ _ _ _ (start_if-At j x with_tokens session.id)
                    λ u3.
                      Runs-bind _ (λ u. At j x) _ _ _ _ (Runs-modify _ _ _ _ λ t h. h)
                        λ u4.
                          Runs-bind _ (λ r t. (r ≡ ids rest) × At j x t) _ _ _ _
                            (kept j x rest (ground (arith, n)))
                            λ r. Runs-pure _ _ _ _ λ t h. (ap (λ is. session.id ∷ is) h.0, h.1)
    where
      other :
          (t : ComputeSessionService)
          → At j x t
          → get j (put session.id (restored_session leases session) t.sessions) ≡ x
      other t h = ground (
        arith,
        n,
        h,
        get-put session.id j (restored_session leases session) t.sessions,
        string_eq.beq_iff session.id j,
      )

  abbrev Stored : ComputeSessionSnapshot → ComputeSessionService → Type 0
  Stored session t = At session.id (some (restored_session leases session)) t

  stored :
      (saved : List ComputeSessionSnapshot)
      → IsUnique (ids saved)
      → Runs
          (λ t. Unit)
          (λ r t. (r ≡ ids saved) × All (λ session. Stored session t) saved)
          Raises
          (restore_sessions clock leases saved)
  unfolding restore_sessions
  stored [] u = Runs-pure _ _ _ [] λ t h. (refl, tt)
  stored (session ∷ rest) u =
      Runs-bind _ (λ v. Stored session) _ _ _ _
        (Runs-modify (λ t. Unit) (Stored session) _ _
          λ t h. get-put_self session.id (restored_session leases session) t.sessions)
        λ u1.
          Runs-bind _ (λ v. Stored session) _ _ _ _ (Runs-modify _ _ _ _ λ t h. h)
            λ u2.
              Runs-bind _ (λ b. Stored session) _ _ _ _ (Runs-gets _ _ _)
                λ with_tokens.
                  Runs-bind _ (λ v. Stored session) _ _ _ _ (start_if-At _ _ with_tokens session.id)
                    λ u3.
                      Runs-bind _ (λ v. Stored session) _ _ _ _ (Runs-modify _ _ _ _ λ t h. h)
                        λ u4.
                          Runs-bind _
                            (λ r t.
                              ((r ≡ ids rest) × Stored session t)
                              × ((r ≡ ids rest) × All (λ x. Stored x t) rest))
                            _ _ _ _
                            (Runs-both _ _ _ _ _
                              (kept session.id (some (restored_session leases session)) rest u.0)
                              (stored rest u.1))
                            λ r.
                              Runs-pure _ _ _ _
                                λ t h. (ap (λ is. session.id ∷ is) h.0.0, (h.0.1, h.1.1))

all-IsRestored :
    (leases : Dict String Lease) (saved : List ComputeSessionSnapshot) (t : ComputeSessionService)
    → All (λ x. get x.id t.sessions ≡ some (restored_session leases x)) saved
    → All (λ x. IsRestored leases x (get x.id t.sessions)) saved
all-IsRestored leases [] t h = tt
all-IsRestored leases (x ∷ saved) t h = (
  restored_session-IsRestored leases x (get x.id t.sessions) h.0,
  all-IsRestored leases saved t h.1,
)

-- With a repository whose unreleased sessions have different identifiers, a restart returns their
-- identifiers, and stores each of these sessions in the service as follows. With the live leases of
-- the time, every slot is empty, in error, or on a GPU whose lease the session holds; the slots that
-- were so before are as they were, and the others are in error with GPU_LEASE_LOST. If all slots
-- were so before, the session keeps its state and its error code; otherwise it is failed, with the
-- code GPU_LEASE_LOST.
pub restore-IsRestored :
    (clock : Clock) (s : ComputeSessionService) (items : Dict String ComputeSessionSnapshot)
    → s.state_repository ≡ some items
    → IsUnique (map (λ x. x.id) (load_active items))
    → let r = restore clock s in
      (r.0 ≡ ok (map (λ x. x.id) (load_active items)))
      × All
          (λ x. IsRestored (active clock.monotonic s.leases).0 x (get x.id r.1.sessions))
          (load_active items)
unfolding restore ◌>>=◌
restore-IsRestored clock s items q u =
    let leases = (active clock.monotonic s.leases).0 in
    let saved = load_active items in
    let after =
      restore_sessions clock leases saved
        (record s { leases = (active clock.monotonic s.leases).1 }) in
    let h =
      Ended-ok (ids saved)
        (λ t. All (λ x. get x.id t.sessions ≡ some (restored_session leases x)) saved) after
        ((stored clock leases saved u).from _ tt) in
    subst
      (λ r. (r.0 ≡ ok (ids saved)) × All (λ x. IsRestored leases x (get x.id r.1.sessions)) saved)
      (sym (ap (λ o. restore_from clock o s) q)) (h.0, all-IsRestored leases saved after.1 h.1)
