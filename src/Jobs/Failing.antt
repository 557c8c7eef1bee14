-- ===== src/Jobs/Failing.antt =====
-- What a dispatch that fails leaves behind.
use oneiroi.Prelude.{
  ◌≡◌, refl, sym, subst, ap, ◌∙◌, String, Bool, true, false, some, string_eq, or_else, elem,
}
use oneiroi.Prelude.Dict.{Dict, get, get-put_self}
use oneiroi.Prelude.Effects.{ok, err, ◌>>=◌, recover-raise, Keeps, Keeps-bind, Keeps-pure}
use oneiroi.Failure.{Failure}
use oneiroi.Scheduler.{JobScheduler, SlotReservation, reserve}
use oneiroi.Scheduler.Slots.{slot_in, state_of}
use oneiroi.Studio.{StoredJob, is_terminal}
use oneiroi.Studio.Repository.{update_job}
use oneiroi.Jobs.{
  current, World, JobService, InputPaths, in_repository, write, message_of, plain_ending,
}
use oneiroi.Jobs.Dispatch.{
  mark_dispatch_failed, mark_failed, dispatch_failed, dispatch_or_fail, assigned,
  assign_and_dispatch,
}
use oneiroi.Jobs.Steps.{event_jobs, finish_attempt_jobs}
use oneiroi.Jobs.Endings.{Same, SameRest, event-Same, write-Same, finish_attempt-Same}
use oneiroi.Jobs.Undoing.{IsUndone, assign_undelivered}

-- the writes that mark a job as failed
module _ (w : World) (now : StoredJob) (message : String) (s : JobService) where
  abbrev failed : StoredJob
  failed = dispatch_failed now message w.now

  mark_failed_stored :
      get now.response.id (mark_failed w now message false s).1.repository.jobs ≡ some failed
  unfolding mark_failed write in_repository update_job ◌>>=◌
  mark_failed_stored =
      (Keeps-bind _ _ (event_jobs IsFailed w failed "job.failed") λ u.
          finish_attempt_jobs IsFailed w failed
            (plain_ending "failed" (some "DISPATCH_FAILED"))).after
        (write failed s).1 (get-put_self now.response.id failed s.repository.jobs)
    where
      IsFailed : Dict String StoredJob → Type 0
      IsFailed d = get now.response.id d ≡ some failed

  mark_failed_rest : (ended : Bool) → SameRest s (mark_failed w now message ended s).1
  unfolding mark_failed
  mark_failed_rest ended = (marks ended).after s (refl, refl, refl, refl)
    where
      marks : (ended : Bool) → Keeps (Same s) (mark_failed w now message ended)
      marks true = Keeps-pure tt
      marks false = Keeps-bind _ _ (write-Same s failed) λ u1.
          Keeps-bind _ _ (event-Same s w failed "job.failed")
            λ u2. finish_attempt-Same s w failed (plain_ending "failed" (some "DISPATCH_FAILED"))

-- whether or not the job has ended, marking it writes to the repository alone
pub mark_rest :
    (w : World) (job : StoredJob) (exc : Failure) (s : JobService)
    → SameRest s (mark_dispatch_failed w job exc s).1
unfolding mark_dispatch_failed ◌>>=◌
mark_rest w job exc s =
    mark_failed_rest w (current job s) (message_of exc) s
      (is_terminal (current job s).response.stage)

-- the job that the dictionary has is marked
mark_current :
    (w : World) (job now : StoredJob) (exc : Failure) (s : JobService)
    → get job.response.id s.repository.jobs ≡ some now
    → is_terminal now.response.stage ≡ false
    → mark_dispatch_failed w job exc s ≡ mark_failed w now (message_of exc) false s
unfolding mark_dispatch_failed ◌>>=◌
mark_current w job now exc s h e =
    ap
      (λ o.
        mark_failed w (or_else o job) (message_of exc) (is_terminal (or_else o job).response.stage)
          s)
      h
    ∙ ap (λ b. mark_failed w now (message_of exc) b s) e

-- If the scheduler reserves a slot for a queued job and the dispatcher raises: afterwards the slot is
-- READY and not among the busy ones, the job has no reservation, no task was started, and the job is
-- stored as FAILED with the error DISPATCH_FAILED and the message of what was raised.
pub dispatch_undelivered :
    (w : World) (queued : StoredJob) (paths : InputPaths) (s : JobService)
    (reservation : SlotReservation) (t : JobScheduler) (failure : Failure)
    → reserve w.clock queued.owner_id queued.response.compute_session_id
        queued.response.draft.profile s.scheduler
      ≡ (ok reservation, t)
    → w.undelivered reservation (assigned queued reservation w.now).response paths ≡ some failure
    → let r = dispatch_or_fail w queued paths s in
      IsUndone queued.response.id reservation s r.1
      × (get queued.response.id r.1.repository.jobs
          ≡ some (dispatch_failed (assigned queued reservation w.now) (message_of failure) w.now))
unfolding dispatch_or_fail
dispatch_undelivered w queued paths s reservation t failure q d =
    subst
      (λ x.
        IsUndone queued.response.id reservation s x
        × (get queued.response.id x.repository.jobs ≡ some (dispatch_failed job message w.now)))
      (sym (
        recover-raise (assign_and_dispatch w queued paths) (mark_dispatch_failed w queued) failure s
          run.0
        ∙ ap (λ r. r.1) (mark_current w queued job failure after run.2 refl)))
      (
        (
          ap (λ c. elem reservation.slot_id c.busy_slots) rest.3 ∙ run.1.0,
          ap (λ c. state_of (slot_in reservation.session_id reservation.slot_id c)) rest.3
              ∙ run.1.1,
          ap (λ d. get queued.response.id d) rest.0 ∙ run.1.2,
          rest.1 ∙ run.1.3,
        ),
        mark_failed_stored w job message after,
      )
  where
    job : StoredJob
    job = assigned queued reservation w.now

    message : String
    message = message_of failure

    after : JobService
    after = (assign_and_dispatch w queued paths s).1

    run :
        ((assign_and_dispatch w queued paths s).0 ≡ err failure)
        × IsUndone queued.response.id reservation s after
        × (get queued.response.id after.repository.jobs ≡ some job)
    run = assign_undelivered w queued paths s reservation t failure q d

    rest : SameRest after (mark_failed w job message false after).1
    rest = mark_failed_rest w job message after false
