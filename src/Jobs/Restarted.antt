-- ===== src/Jobs/Restarted.antt =====
-- What a restart does with the slot of a job.
use oneiroi.Prelude.{
  ◌≡◌, refl, ap, subst, sym, ◌∙◌, String, Bool, true, false, Option, none, some, List, [], ◌∷◌,
  ◌==◌, string_eq, find, elem, arith,
}
use oneiroi.Prelude.Dict.{get, put, get-put_self}
use oneiroi.Prelude.Effects.{
  Exec, Result, ok, err, pure, modify, ◌>>=◌, ◌>>◌, Keeps, Keeps-bind, Keeps-modify, Keeps-pure,
  continue, on_error, keeps_rules,
}
use oneiroi.Failure.{Failure}
use oneiroi.Compute.{ComputeSlot, ComputeSessionSnapshot}
use oneiroi.Sessions.{get_session, fencing_token, persist}
use oneiroi.Scheduler.{JobScheduler, SlotReservation, restore, within, slot_of}
use oneiroi.Studio.{StoredJob, GpuAssignment, GenerationDraft}
use oneiroi.Studio.Repository.{StudioRepository}
use oneiroi.Jobs.{
  Action, World, JobService, Execution, in_scheduler, in_repository, input_path,
  input_paths_from_draft,
}
use oneiroi.Jobs.Dispatch.{start_task, mark_dispatch_failed}
use oneiroi.Jobs.Failing.{mark_rest}
use oneiroi.Jobs.Restart.{restore_job, restore_or_fail, again_if, is_cancel_requested}

-- The slot is busy, and the job holds it.
abbrev pub IsHeld : String → SlotReservation → JobService → Type 0
IsHeld job_id reservation t =
    (elem reservation.slot_id t.scheduler.busy_slots ≡ true)
    × (get job_id t.reservations ≡ some reservation)

module _ (job_id : String) (reservation : SlotReservation) where
  abbrev Held : JobService → Type 0
  Held = IsHeld job_id reservation

  in_repository-Held :
      {A : Type 0} (m : Exec Failure StudioRepository A) → Keeps Held (in_repository m)
  unfolding in_repository
  in_repository-Held m = record { after = λ s h. h }

  input_path-Held :
      (owner_id : String) (asset_id : Option String) → Keeps Held (input_path owner_id asset_id)
  unfolding input_path
  input_path-Held owner_id none = Keeps-pure none
  input_path-Held owner_id (some asset_id) = search (keeps_rules, in_repository-Held) depth 10

  input_paths-Held :
      (owner_id : String) (draft : GenerationDraft)
      → Keeps Held (input_paths_from_draft owner_id draft)
  unfolding input_paths_from_draft
  input_paths-Held owner_id draft = search (keeps_rules, input_path-Held) depth 10

  again_if-Held : (again : Bool) (id : String) → Keeps Held (again_if again id)
  again_if-Held true id = Keeps-modify _ λ s h. h
  again_if-Held false id = Keeps-pure tt

  start_task-Held : (execution : Execution) → Keeps Held (start_task execution)
  start_task-Held execution = Keeps-modify _ λ s h. h

-- What a restart finds of a job: its session, the GPU it ran on, the slot and the slot's token.
abbrev pub IsFound :
    StoredJob → ComputeSessionSnapshot → GpuAssignment → ComputeSlot → String → JobService → Type 0
IsFound stored session gpu slot token s =
    (get session.id s.scheduler.sessions.sessions ≡ some session)
    × (stored.response.compute_session_id ≡ session.id)
    × (stored.owner_id ≡ session.owner_id)
    × (stored.response.gpu ≡ some gpu)
    × (find (λ (item : ComputeSlot). item.gpu_id == gpu.id) session.slots ≡ some slot)
    × (slot_of slot.id session ≡ some slot)
    × (get slot.id s.scheduler.sessions.fencing_tokens ≡ some token)

abbrev pub restored_reservation :
    StoredJob → ComputeSessionSnapshot → ComputeSlot → String → SlotReservation
restored_reservation stored session slot token = record {
  session_id = session.id;
  slot_id = slot.id;
  gpu_id = slot.gpu_id;
  physical_index = slot.physical_index;
  profile = stored.response.draft.profile;
  fencing_token = token;
}

module _ (stored : StoredJob) (session : ComputeSessionSnapshot) (gpu : GpuAssignment)
    (slot : ComputeSlot) (token : String) (s : JobService)
    (found : IsFound stored session gpu slot token s) where
  abbrev reservation : SlotReservation
  reservation = restored_reservation stored session slot token

  session_lem :
      (get_session stored.owner_id stored.response.compute_session_id s.scheduler.sessions)
      ≡ (ok session, s.scheduler.sessions)
  unfolding get_session ◌>>=◌
  session_lem = ground (arith, found, string_eq.beq_iff session.owner_id stored.owner_id)

  token_lem : fencing_token slot.id s.scheduler.sessions ≡ (ok token, s.scheduler.sessions)
  unfolding fencing_token ◌>>=◌
  token_lem = ground (arith, found)

  restore_lem :
      let r = restore reservation s.scheduler in
      (r.0 ≡ ok tt) × (elem slot.id r.1.busy_slots ≡ true)
  unfolding restore within persist ◌>>=◌
  restore_lem = ground (arith, found, string_eq.beq_iff slot.id slot.id)

  abbrev tail : Action Unit
  tail = do
    again_if (is_cancel_requested stored.response.stage) stored.response.id
    input_paths ← input_paths_from_draft stored.owner_id stored.response.draft
    start_task (record {
      job_id = stored.response.id;
      reservation = reservation;
      input_paths = input_paths;
    })

  tail-Held : Keeps (Held stored.response.id reservation) tail
  tail-Held =
      Keeps-bind _ _
        (again_if-Held stored.response.id reservation (is_cancel_requested stored.response.stage)
          stored.response.id)
        λ u.
          Keeps-bind _ _
            (input_paths-Held stored.response.id reservation stored.owner_id stored.response.draft)
            λ paths. start_task-Held stored.response.id reservation _

  abbrev held : JobService
  held = record s {
    scheduler = (restore reservation s.scheduler).1;
    reservations = put stored.response.id reservation s.reservations;
  }

  steps : restore_job stored s ≡ tail held
  unfolding restore_job in_scheduler within modify ◌>>=◌
  steps = rw (session_lem, found.3, found.4, token_lem, restore_lem.0) refl

  restore_job-Held : IsHeld stored.response.id reservation (restore_job stored s).1
  restore_job-Held =
      subst (λ r. IsHeld stored.response.id reservation r.1) (sym steps)
        (tail-Held.after held
          (restore_lem.1, get-put_self stored.response.id reservation s.reservations))

-- marking a job as failed gives nothing back
mark-Held :
    (job_id : String) (reservation : SlotReservation) (w : World) (stored : StoredJob)
    (exc : Failure)
    → Keeps (IsHeld job_id reservation) (mark_dispatch_failed w stored exc)
mark-Held job_id reservation w stored exc = record {
  after = λ s h.
      let same = mark_rest w stored exc s in
      (
        ap (λ (c : JobScheduler). elem reservation.slot_id c.busy_slots) same.3 ∙ h.0,
        ap (get job_id) same.0 ∙ h.1,
      );
}

-- Let a restart find the session of a job that had not ended, its GPU, the slot of this GPU and the
-- slot's token. Then the slot is busy and the job holds its reservation afterwards, whether the job
-- runs again or could not be restored and is marked as failed.
pub restore_or_fail-IsHeld :
    (w : World) (stored : StoredJob) (session : ComputeSessionSnapshot) (gpu : GpuAssignment)
    (slot : ComputeSlot) (token : String) (s : JobService)
    → IsFound stored session gpu slot token s
    → IsHeld stored.response.id
        (restored_reservation stored session slot token)
        (restore_or_fail w stored s).1
unfolding restore_or_fail pure ◌>>=◌
restore_or_fail-IsHeld w stored session gpu slot token s found =
    ended (restore_job stored s).0 (restore_job stored s).1
      (restore_job-Held stored session gpu slot token s found)
  where
    P : JobService → Type 0
    P = IsHeld stored.response.id (restored_reservation stored session slot token)

    handler : Failure → Action (List String)
    handler exc = do mark_dispatch_failed w stored exc; pure []

    handler-Held : (exc : Failure) → Keeps P (handler exc)
    handler-Held exc =
        Keeps-bind _ _ (mark-Held stored.response.id _ w stored exc) λ u. Keeps-pure []

    ended :
        (r : Result Failure Unit) (t : JobService)
        → P t
        → P
            (let x : Result Failure (List String) × JobService =
                continue r (λ u. pure (stored.response.id ∷ [])) t in
              on_error x.0 handler x.1).1
    ended (ok u) t h = h
    ended (err exc) t h = (handler-Held exc).after t h
