-- ===== src/Sessions/Released.antt =====
-- What releasing a session comes to.
use oneiroi.Prelude.{
  ℕ, ◌≡◌, ◌≢◌, ◌⊎◌, inl, inr, refl, sym, ap, subst, String, Bool, true, false, not, ◌&&◌, none,
  some, [], ◌==◌, string_eq, arith, all, length,
}
use oneiroi.Prelude.Dict.{get, put, holds, get-pop, get-put_self, IsDistinct}
use oneiroi.Prelude.Effects.{◌>>=◌}
use oneiroi.Prelude.Runs.{Ended, Runs, Runs-bind}
use oneiroi.Failure.{Failure}
use oneiroi.Compute.{
  ComputeSessionSnapshot, ComputeSessionState, ComputeSessionRelease, gpu_state_eq,
  session_state_eq,
}
use oneiroi.Leases.{is_held_by}
use oneiroi.Leases.Grants.{release_exact}
use oneiroi.Sessions.{get_session, Clock, ComputeSessionService, emit_snapshot}
use oneiroi.Sessions.Release.{
  Unloading, end_release, release_open, releasing_session, draining_session, release,
  needs_confirmation,
}
use oneiroi.Sessions.Unloaded.{
  is_empty, is_unloaded, IsUnloaded, IsReleasing, IsInterrupted, unload_slots-Runs,
}

-- How a release of a session of `n` slots ends: the session, and the service after it.
abbrev pub IsReleased : String → ℕ → ComputeSessionSnapshot → ComputeSessionService → Type 0
IsReleased session_id n final s =
    (length final.slots ≡ n)
    × (all is_unloaded final.slots ≡ true)
    × (((final.state ≡ ComputeSessionState.released)
          × (all is_empty final.slots ≡ true)
          × ((j : String) → holds (is_held_by session_id) (get j s.leases) ≡ false)
          × (get session_id s.lease_tasks ≡ none)
          × (get session_id s.last_activity ≡ none))
        ⊎ ((final.state ≡ ComputeSessionState.failed)
            × (all is_empty final.slots ≡ false)
            × (final.error_code ≡ some "GPU_MEMORY_NOT_RELEASED")))

module _ (unload : Unloading) (clock : Clock) (s : ComputeSessionService)
    (d : IsDistinct s.leases) where
  abbrev Broken : String → Failure → ComputeSessionService → Type 0
  Broken session_id e t = IsInterrupted unload session_id s e t

  end_release-Runs :
      (session : ComputeSessionSnapshot) (flag : Bool)
      → all is_unloaded session.slots ≡ true
      → all is_empty session.slots ≡ flag
      → Runs
          (IsReleasing session.id s)
          (IsReleased session.id (length session.slots))
          (Broken session.id)
          (end_release session clock flag)
  unfolding end_release ◌>>=◌ emit_snapshot
  end_release-Runs session true a q = record {
    from = λ t h. (
      refl,
      a,
      inl (
        refl,
        q,
        λ j. ground (
          arith,
          (release_exact session.id session.id t.leases j
              (subst (λ l. IsDistinct l) (sym h.1) d)).2,
        ),
        ground (
          arith,
          get-pop session.id session.id t.lease_tasks,
          string_eq.beq_iff session.id session.id,
        ),
        ground (
          arith,
          get-pop session.id session.id t.last_activity,
          string_eq.beq_iff session.id session.id,
        ),
      ),
    );
  }
  end_release-Runs session false a q = record { from = λ t h. (refl, a, inr (refl, q, refl)) }

  -- the result of the loop has the session's identifier and length
  IsUnloaded-ended :
      (session : ComputeSessionSnapshot) (n : ℕ) (result : ComputeSessionSnapshot × Bool)
      → Runs
          (λ t. IsUnloaded session n result × IsReleasing session.id s t)
          (IsReleased session.id n)
          (Broken session.id)
          (end_release result.0 clock result.1)
  IsUnloaded-ended session n (final, flag) = record {
    from = λ t h.
        subst (λ i. Ended (IsReleased i n) (Broken i) (end_release final clock flag t))
          (ap (λ x. x.id) h.0.0)
          (subst
            (λ m. Ended (IsReleased final.id m) (Broken final.id) (end_release final clock flag t))
            h.0.1
            ((end_release-Runs final flag h.0.2 h.0.3).from t
              (subst (λ i. IsReleasing i s t) (sym (ap (λ x. x.id) h.0.0)) h.1)));
  }

  release_open-Ended :
      (session : ComputeSessionSnapshot)
      → Ended
          (IsReleased session.id (length session.slots))
          (Broken session.id)
          (release_open unload clock session false s)
  unfolding release_open ◌>>=◌ emit_snapshot
  release_open-Ended session =
      (Runs-bind (IsReleasing session.id s)
          (λ result t.
            IsUnloaded (releasing_session session) (length session.slots) result
            × IsReleasing session.id s t)
          (IsReleased session.id (length session.slots)) (Broken session.id) _ _
          (unload_slots-Runs unload session.id s clock (releasing_session session) [] true
            session.slots (length session.slots) refl refl refl (omega arith) refl refl)
          (IsUnloaded-ended (releasing_session session) (length session.slots))).from
        _
        (
          ground (
            arith,
            get-put_self session.id (releasing_session session)
                (put session.id (draining_session session) s.sessions),
          ),
          refl,
          refl,
        )

is_not : (a b : ComputeSessionState) → a ≢ b → (a == b) ≡ false
is_not a b h = ground (arith, h, session_state_eq.beq_iff a b)

-- Take a release, by the owner, of a session that is not yet released, confirmed where the policy
-- wants it, with one lease for each GPU in the store. If it returns, it kept the number of slots and
-- left each of them empty or in error: either all slots are empty and the session is released, no
-- GPU has a lease of it, its renewal task is gone and its activity is forgotten; or not all are
-- empty and the session is failed, with the code GPU_MEMORY_NOT_RELEASED. If it raises, then the
-- exception is one that the backend raises for some slot and token, the stored session is left
-- RELEASING, and the leases and the renewal tasks are those from before.
pub release_lem :
    (unload : Unloading) (clock : Clock) (owner_id session_id : String)
    (payload : ComputeSessionRelease) (s : ComputeSessionService) (session : ComputeSessionSnapshot)
    → IsDistinct s.leases
    → get session_id s.sessions ≡ some session
    → session.owner_id ≡ owner_id
    → (needs_confirmation payload.policy && not payload.confirmed) ≡ false
    → session.state ≢ ComputeSessionState.released
    → Ended
        (IsReleased session.id (length session.slots))
        (IsInterrupted unload session.id s)
        (release unload clock owner_id session_id payload s)
unfolding release get_session ◌>>=◌
release_lem unload clock owner_id session_id payload s session d g o c r =
    rw
      (
        g,
        (string_eq.beq_iff session.owner_id owner_id).1 o,
        c,
        is_not session.state ComputeSessionState.released r,
      )
      (release_open-Ended unload clock s d session)
