-- ===== src/Sessions/Loaded.antt =====
-- What loading the slots of a session comes to.
use oneiroi.Prelude.{
  ℕ, ◌+◌, ◌≡◌, ◌≢◌, ◌↔◌, ◌⊎◌, ◌≤◌, refl, sym, ap, Bool, true, ◌||◌, List, [], ◌∷◌, ◌++◌, ◌==◌,
  arith, all, count, length, all-append, count-append, length-append, append_nil, append_assoc,
  if◌then◌else◌,
}
use oneiroi.Prelude.Effects.{◌>>=◌}
use oneiroi.Prelude.Returns.{
  Returns, Returns-pure, Returns-gets, Returns-modify, Returns-bind, Returns-step,
}
use oneiroi.Compute.{
  GpuState, ComputeSlot, ComputeSessionSnapshot, ComputeSessionState, gpu_state_eq,
}
use oneiroi.Sessions.{Clock, emit_slot, emit_snapshot}
use oneiroi.Sessions.Create.{LoadResult, loaded, failed}
use oneiroi.Sessions.Loading.{
  Backend, with_slots, starting, settle_slot, load_slots, load_session, loading_session, is_ready,
  Outcome, all_ready, partly_ready, none_ready, conclude, outcome,
}

abbrev pub is_error : ComputeSlot → Bool
is_error slot = slot.state == GpuState.error

abbrev pub is_settled : ComputeSlot → Bool
is_settled slot = is_ready slot || is_error slot

pub Returns-emit_slot :
    (session : ComputeSessionSnapshot) (slot : ComputeSlot) (clock : Clock)
    → Returns (λ _. Unit) (emit_slot session slot clock)
unfolding emit_slot ◌>>=◌
Returns-emit_slot session slot clock = record { on = λ s. tt }

-- The slot ends ready, or in error and counted as a failure.
abbrev IsSettlement : ComputeSlot × Bool → Type 0
IsSettlement (slot, has_failed) = (is_settled slot ≡ true) × (is_error slot ≡ has_failed)

settle_slot-Returns :
    (session : ComputeSessionSnapshot) (slot : ComputeSlot) (result : LoadResult)
    → Returns IsSettlement (settle_slot session slot result)
unfolding settle_slot ◌>>=◌
settle_slot-Returns session slot (loaded hash) = record { on = λ s. (refl, refl) }
settle_slot-Returns session slot (failed message) = record { on = λ s. (refl, refl) }

-- What the loop makes of the session: the slots alone change, each of them is settled, and the
-- failures are the slots in error.
abbrev pub IsLoaded : ComputeSessionSnapshot → ℕ → ComputeSessionSnapshot × ℕ → Type 0
IsLoaded session n (final, failures) =
    (final ≡ with_slots session final.slots)
    × (length final.slots ≡ n)
    × (all is_settled final.slots ≡ true)
    × (count is_error final.slots ≡ failures)

settled_append :
    (done : List ComputeSlot) (slot : ComputeSlot) (has_failed : Bool)
    → all is_settled done ≡ true
    → IsSettlement (slot, has_failed)
    → (all is_settled (done ++ slot ∷ []) ≡ true)
      × (count is_error (done ++ slot ∷ [])
          ≡ (if has_failed then count is_error done + 1 else count is_error done))
settled_append done slot b h k =
    ground (arith, all-append is_settled done (slot ∷ []), count-append is_error done (slot ∷ []))

pub load_slots-Returns :
    (backend : Backend) (clock : Clock) (session : ComputeSessionSnapshot) (done : List ComputeSlot)
    (failures : ℕ) (rest : List ComputeSlot) (n : ℕ)
    → session.slots ≡ done ++ rest
    → length done + length rest ≡ n
    → all is_settled done ≡ true
    → count is_error done ≡ failures
    → Returns (IsLoaded session n) (load_slots backend clock session done failures rest)
unfolding load_slots
load_slots-Returns backend clock session done failures [] n q l a c =
    Returns-pure (IsLoaded session n) (session, failures)
      (
        refl,
        ground (arith, q, append_nil done),
        ground (arith, q, append_nil done),
        ground (arith, q, append_nil done),
      )
load_slots-Returns backend clock session done failures (slot ∷ rest) n q l a c =
    Returns-step _ _ _ (Returns-modify _) λ u1.
      Returns-step _ _ _ (Returns-emit_slot _ _ clock) λ u2.
        Returns-step _ _ _ (Returns-gets _) λ token.
          Returns-bind IsSettlement _ _ _
            (settle_slot-Returns (with_slots session (done ++ starting slot ∷ rest)) (starting slot)
              _)
            λ settled k. Returns-step _ _ _ (Returns-modify _) λ u3.
              Returns-step _ _ _ (Returns-emit_slot _ _ clock) λ u4.
                load_slots-Returns backend clock (with_slots session (done ++ settled.0 ∷ rest))
                  (done ++ settled.0 ∷ []) (if settled.1 then failures + 1 else failures) rest n
                  (sym (append_assoc done (settled.0 ∷ []) rest))
                  (omega (arith, length-append done (settled.0 ∷ []), l))
                  (settled_append done settled.0 settled.1 a k).0
                  (ground (arith, (settled_append done settled.0 settled.1 a k).1, c))

ready_or_error :
    (slots : List ComputeSlot)
    → all is_settled slots ≡ true
    → count is_ready slots + count is_error slots ≡ length slots
ready_or_error [] h = refl
ready_or_error (slot ∷ slots) h = ground (
  arith,
  ready_or_error slots,
  gpu_state_eq.beq_iff slot.state GpuState.ready,
  gpu_state_eq.beq_iff slot.state GpuState.error,
)

-- What a loaded session of `n` slots reports, when `requested` GPUs were asked for.
abbrev pub IsReported : ℕ → ℕ → ComputeSessionSnapshot → Type 0
IsReported n requested final =
    (length final.slots ≡ n)
    × (all is_settled final.slots ≡ true)
    × ((final.state ≡ ComputeSessionState.ready)
        ↔ ((count is_error final.slots ≡ 0) × (n ≡ requested)))
    × ((final.state ≡ ComputeSessionState.failed) ↔ (count is_error final.slots ≡ n))
    × ((final.state ≡ ComputeSessionState.degraded)
        ↔ ((count is_ready final.slots ≢ 0) × ((count is_error final.slots ≢ 0) ⊎ (n ≢ requested))))

reported :
    (o : Outcome) (session : ComputeSessionSnapshot) (failures : ℕ) (clock : Clock)
    (n requested : ℕ)
    → outcome session ≡ o
    → all is_settled session.slots ≡ true
    → length session.slots ≡ n
    → session.requested_gpu_count ≡ requested
    → 1 ≤ requested
    → Returns (IsReported n requested) (conclude o session failures clock)
unfolding conclude ◌>>=◌ emit_snapshot
reported all_ready session failures clock n requested q a l e r = record {
  on = λ s. (
    l,
    a,
    ground (arith, ready_or_error session.slots a, q, l, e, r),
    ground (arith, ready_or_error session.slots a, q, l, e, r),
    ground (arith, ready_or_error session.slots a, q, l, e, r),
  );
}
reported partly_ready session failures clock n requested q a l e r = record {
  on = λ s. (
    l,
    a,
    ground (arith, ready_or_error session.slots a, q, l, e, r),
    ground (arith, ready_or_error session.slots a, q, l, e, r),
    ground (arith, ready_or_error session.slots a, q, l, e, r),
  );
}
reported none_ready session failures clock n requested q a l e r = record {
  on = λ s. (
    l,
    a,
    ground (arith, ready_or_error session.slots a, q, l, e, r),
    ground (arith, ready_or_error session.slots a, q, l, e, r),
    ground (arith, ready_or_error session.slots a, q, l, e, r),
  );
}

-- Loading the slots of a session never raises, whatever the backend answers and even if a token is
-- missing, and gives the session back with as many slots, each ready or in error. For a request of
-- at least one GPU, the session is then ready exactly if no slot is in error and there are as many
-- as were requested, failed exactly if all are in error, and degraded exactly if one is ready and
-- one is in error or the number is not the requested one.
pub load_session_lem :
    (backend : Backend) (clock : Clock) (session : ComputeSessionSnapshot)
    → 1 ≤ session.requested_gpu_count
    → Returns
        (IsReported (length session.slots) session.requested_gpu_count)
        (load_session backend clock session)
unfolding load_session
load_session_lem backend clock session r = Returns-step _ _ _ (Returns-modify _) λ u.
    Returns-bind (IsLoaded (loading_session session) (length session.slots)) _ _ _
      (load_slots-Returns backend clock (loading_session session) [] 0 session.slots
        (length session.slots) refl (omega arith) refl refl)
      λ result h.
        reported (outcome result.0) result.0 result.1 clock (length session.slots)
          session.requested_gpu_count refl h.2 h.1 (ap (λ x. x.requested_gpu_count) h.0) r
