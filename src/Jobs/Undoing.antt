-- ===== src/Jobs/Undoing.antt =====
-- A dispatch that the dispatcher refuses is undone before the error is passed on.
use oneiroi.Prelude.{
  ◌≡◌, refl, sym, subst, ap, ◌∙◌, String, false, none, some, string_eq, arith, elem,
}
use oneiroi.Prelude.Dict.{get, put, get-put_self, get-pop}
use oneiroi.Prelude.Effects.{ok, err, modify, ◌>>=◌, bind-ok}
use oneiroi.Failure.{Failure}
use oneiroi.Scheduler.{JobScheduler, SlotReservation, reserve, release, release_in, within}
use oneiroi.Compute.{GpuState, gpu_state_eq}
use oneiroi.Scheduler.Slots.{IsKeyed, slot_in, state_of, state_of-release, elem-release}
use oneiroi.Scheduler.Reservation.{reserved_lem}
use oneiroi.Sessions.{touch, persist}
use oneiroi.Studio.{StoredJob}
use oneiroi.Studio.Repository.{add_attempt, add_event, update_job, get_job}
use oneiroi.Jobs.{World, JobService, InputPaths, in_repository, in_scheduler, event, write}
use oneiroi.Jobs.Dispatch.{assigned, assign_and_dispatch, after_dispatch, new_attempt}
use oneiroi.Jobs.Steps.{event_jobs, after_dispatch_jobs}
use oneiroi.Jobs.Endings.{SameRest, event-Same}

-- a release never raises
release_ok :
    (w : World) (reservation : SlotReservation) (s : JobScheduler)
    → (release w.clock reservation s).0 ≡ ok tt
unfolding release release_in within touch persist ◌>>=◌
release_ok w reservation s = ground arith

event_ok :
    (w : World) (job : StoredJob) (event_type : String) (s : JobService)
    → get job.response.id s.repository.jobs ≡ some job
    → (event w job event_type s).0 ≡ ok tt
unfolding event in_repository add_event get_job ◌>>=◌
event_ok w job event_type s h = ground (arith, h, string_eq.beq_iff job.owner_id job.owner_id)

-- What a failed dispatch leaves of the slot, the reservation and the tasks.
abbrev pub IsUndone : String → SlotReservation → JobService → JobService → Type 0
IsUndone job_id reservation s t =
    (elem reservation.slot_id t.scheduler.busy_slots ≡ false)
    × (state_of (slot_in reservation.session_id reservation.slot_id t.scheduler)
        ≡ some GpuState.ready)
    × (get job_id t.reservations ≡ none)
    × (t.tasks ≡ s.tasks)

undo_lem :
    (w : World) (job : StoredJob) (reservation : SlotReservation) (paths : InputPaths)
    (failure : Failure) (s : JobService)
    → IsKeyed reservation.session_id s.scheduler
    → state_of (slot_in reservation.session_id reservation.slot_id s.scheduler) ≡ some GpuState.busy
    → let r = after_dispatch w job reservation paths (some failure) s in
      (r.0 ≡ err failure) × IsUndone job.response.id reservation s r.1
unfolding after_dispatch in_scheduler modify ◌>>=◌
undo_lem w job reservation paths failure s k b = ground (
  arith,
  release_ok w reservation s.scheduler,
  elem-release w.clock reservation reservation.slot_id s.scheduler,
  state_of-release w.clock reservation s.scheduler k b,
  string_eq.beq_iff reservation.slot_id reservation.slot_id,
  string_eq.beq_iff job.response.id job.response.id,
  get-pop job.response.id job.response.id s.reservations,
)

module _ (w : World) (queued : StoredJob) (paths : InputPaths) (s : JobService)
    (reservation : SlotReservation) where
  abbrev prepared : JobScheduler → JobService
  prepared t = record s {
    scheduler = t;
    reservations = put queued.response.id reservation s.reservations;
    repository =
        (add_attempt (new_attempt w (assigned queued reservation w.now) reservation)
          (update_job (assigned queued reservation w.now) s.repository).1).1;
  }

  abbrev announced : JobScheduler → JobService
  announced t = (event w (assigned queued reservation w.now) "job.assigned" (prepared t)).1

  assign_steps :
      (t : JobScheduler)
      → reserve w.clock queued.owner_id queued.response.compute_session_id
          queued.response.draft.profile s.scheduler
        ≡ (ok reservation, t)
      → assign_and_dispatch w queued paths s
        ≡ after_dispatch w
            (assigned queued reservation w.now)
            reservation
            paths
            (w.undelivered reservation (assigned queued reservation w.now).response paths)
            (announced t)
  unfolding assign_and_dispatch in_repository in_scheduler write update_job add_attempt ◌>>=◌
  assign_steps t q =
      rw (ap (λ r. r.0) q, ap (λ r. r.1) q)
        (bind-ok (event w (assigned queued reservation w.now) "job.assigned") _ (prepared t) tt (
          event_ok w (assigned queued reservation w.now) "job.assigned" (prepared t) (
            get-put_self queued.response.id (assigned queued reservation w.now) s.repository.jobs)))

  pub assign_undelivered :
      (t : JobScheduler) (failure : Failure)
      → reserve w.clock queued.owner_id queued.response.compute_session_id
          queued.response.draft.profile s.scheduler
        ≡ (ok reservation, t)
      → w.undelivered reservation (assigned queued reservation w.now).response paths ≡ some failure
      → let r = assign_and_dispatch w queued paths s in
        (r.0 ≡ err failure)
        × IsUndone queued.response.id reservation s r.1
        × (get queued.response.id r.1.repository.jobs ≡ some (assigned queued reservation w.now))
  unfolding add_attempt update_job modify ◌>>=◌
  assign_undelivered t failure q d =
      subst
        (λ r.
          (r.0 ≡ err failure)
          × IsUndone queued.response.id reservation s r.1
          × (get queued.response.id r.1.repository.jobs ≡ some (assigned queued reservation w.now)))
        (sym (
          assign_steps t q
          ∙ ap
              (λ a.
                after_dispatch w (assigned queued reservation w.now) reservation paths a
                  (announced t))
              d))
        (u.0, (u.1.0, u.1.1, u.1.2, u.1.3 ∙ same.1), stored)
    where
      job : StoredJob
      job = assigned queued reservation w.now

      same : SameRest (prepared t) (announced t)
      same =
          (event-Same (prepared t) w job "job.assigned").after (prepared t) (refl, refl, refl, refl)

      reserved :
          IsKeyed reservation.session_id t
          × (state_of (slot_in reservation.session_id reservation.slot_id t) ≡ some GpuState.busy)
      reserved =
          reserved_lem w.clock queued.owner_id queued.response.compute_session_id
            queued.response.draft.profile s.scheduler t reservation q

      u :
          ((after_dispatch w job reservation paths (some failure) (announced t)).0 ≡ err failure)
          × IsUndone queued.response.id reservation
              (announced t)
              (after_dispatch w job reservation paths (some failure) (announced t)).1
      u =
          undo_lem w job reservation paths failure (announced t)
            (subst (IsKeyed reservation.session_id) (sym same.3) reserved.0)
            (ap (λ c. state_of (slot_in reservation.session_id reservation.slot_id c)) same.3
              ∙ reserved.1)

      stored :
          get queued.response.id
            (after_dispatch w job reservation paths (some failure) (announced t)).1.repository.jobs
          ≡ some job
      stored =
          (after_dispatch_jobs (λ d. get queued.response.id d ≡ some job) w job reservation paths
              (some failure)).after
            (announced t)
            ((event_jobs (λ d. get queued.response.id d ≡ some job) w job "job.assigned").after
              (prepared t) (get-put_self queued.response.id job s.repository.jobs))
