-- ===== src/Jobs/Bounds.antt =====
-- No request takes an account over its limit of active jobs.
use oneiroi.Prelude.{
  ◌≡◌, subst, sym, ◌≤◌, ◌<◌, ◌+◌, refl, ℕ, String, none, string_eq, arith, leb-false→lt,
}
use oneiroi.Prelude.Dict.{IsDistinct, get, put, count-pop, pop_absent}
use oneiroi.Prelude.Effects.{
  Result, ok, err, pure, gets, ◌>>=◌, Keeps, Keeps-bind, continue, ◌>>◌, keeps_rules,
}
use oneiroi.Failure.{Failure}
use oneiroi.Sessions.{get_session}
use oneiroi.Scheduler.{within}
use oneiroi.Studio.{JobResponse, StoredJob}
use oneiroi.Studio.Repository.{
  count_active_jobs, is_active_for, get_conversation, get_asset, create_job,
}
use oneiroi.Jobs.{
  Action, JobService, World, in_repository, in_scheduler, input_paths_from_draft, input_path, event,
  current, InputPaths,
}
use oneiroi.Jobs.Steps.{event_jobs}
use oneiroi.Jobs.Dispatch.{dispatch_or_fail}
use oneiroi.Jobs.Requests.{queued_job, JobCreate, check_limits, admit, create}
use oneiroi.Jobs.Room.{HasRoom, Room, put-HasRoom, dispatch_or_fail_room}

-- the checks write nothing
admit_lem :
    (owner_id : String) (payload : JobCreate) (s : JobService) → (admit owner_id payload s).1 ≡ s
unfolding admit check_limits in_repository in_scheduler within get_session get_conversation
    input_paths_from_draft input_path get_asset ◌>>=◌
admit_lem owner_id payload s = ground arith

-- The jobs of the account that have not ended.
abbrev pub active_jobs : String → JobService → ℕ
active_jobs owner_id s = count_active_jobs owner_id none s.repository

-- what a request does after it was admitted
abbrev after_admission : World → String → JobCreate → InputPaths → Action JobResponse
after_admission w owner_id payload paths = do
  let stored = queued_job w owner_id payload
  in_repository (create_job stored)
  event w stored "job.queued"
  dispatch_or_fail w stored paths
  created ← gets (current stored)
  pure created.response

create_job_room :
    (key owner_id : String) (n : ℕ) (job : StoredJob)
    → job.response.id ≡ key
    → Keeps (Room owner_id key n) (in_repository (create_job job))
unfolding create_job in_repository ◌>>=◌
create_job_room key owner_id n job q = record {
  after = λ s h.
      subst (λ k. HasRoom owner_id k n (put job.response.id job s.repository.jobs)) q
        (put-HasRoom owner_id n job s.repository.jobs
          (subst (λ k. HasRoom owner_id k n s.repository.jobs) (sym q) h));
}

after_admission_room :
    (w : World) (owner_id : String) (n : ℕ) (payload : JobCreate) (paths : InputPaths)
    → Keeps (Room owner_id w.job_id n) (after_admission w owner_id payload paths)
after_admission_room w owner_id n payload paths =
    Keeps-bind _ _ (create_job_room w.job_id owner_id n (queued_job w owner_id payload) refl) λ u1.
      Keeps-bind _ _
        (event_jobs (HasRoom owner_id w.job_id n) w (queued_job w owner_id payload) "job.queued")
        λ u2.
          Keeps-bind _ _
            (dispatch_or_fail_room owner_id w.job_id n w (queued_job w owner_id payload) paths refl)
            λ u3. search keeps_rules

bound :
    (owner_id key : String) (n : ℕ) (s : JobService)
    → Room owner_id key n s
    → active_jobs owner_id s ≤ n + 1
unfolding count_active_jobs
bound owner_id key n s h =
    ground (arith, h.2, count-pop (is_active_for owner_id none) key s.repository.jobs h.0)

start :
    (owner_id key : String) (n : ℕ) (s : JobService)
    → IsDistinct s.repository.jobs
    → get key s.repository.jobs ≡ none
    → active_jobs owner_id s ≤ n
    → Room owner_id key n s
unfolding count_active_jobs
start owner_id key n s d f l =
    (d, ground (arith, f), ground (arith, f, l, pop_absent key s.repository.jobs f))

below :
    (owner_id : String) (payload : JobCreate) (s : JobService) (paths : InputPaths)
    → (admit owner_id payload s).0 ≡ ok paths
    → active_jobs owner_id s < s.max_active_per_owner
unfolding admit check_limits in_repository in_scheduler within get_session get_conversation ◌>>=◌
below owner_id payload s paths q =
    ground (arith, q, leb-false→lt s.max_active_per_owner (active_jobs owner_id s))

module _ (w : World) (owner_id : String) (payload : JobCreate) (s : JobService)
    (distinct : IsDistinct s.repository.jobs) (fresh : get w.job_id s.repository.jobs ≡ none)
    (within_limit : active_jobs owner_id s ≤ s.max_active_per_owner) where
  continued :
      (r : Result Failure InputPaths)
      → (admit owner_id payload s).0 ≡ r
      → active_jobs owner_id (continue r (after_admission w owner_id payload) s).1
        ≤ s.max_active_per_owner
  continued (err e) q = within_limit
  continued (ok paths) q = omega (
    arith,
    below owner_id payload s paths q,
    bound owner_id w.job_id (active_jobs owner_id s) (after_admission w owner_id payload paths s).1
        ((after_admission_room w owner_id (active_jobs owner_id s) payload paths).after s
          (start owner_id w.job_id (active_jobs owner_id s) s distinct fresh (omega arith))),
  )

-- Let the repository have one entry for each job, and none under the identifier of the new one. A
-- request leaves an account that is within its limit of active jobs within the limit, whether it
-- succeeds, is refused or fails.
pub create_bounded :
    (w : World) (owner_id : String) (payload : JobCreate) (s : JobService)
    → IsDistinct s.repository.jobs
    → get w.job_id s.repository.jobs ≡ none
    → active_jobs owner_id s ≤ s.max_active_per_owner
    → active_jobs owner_id (create w owner_id payload s).1 ≤ s.max_active_per_owner
unfolding create ◌>>=◌
create_bounded w owner_id payload s d f l =
    subst
      (λ t.
        active_jobs owner_id
          (continue (admit owner_id payload s).0 (after_admission w owner_id payload) t).1
        ≤ s.max_active_per_owner)
      (sym (admit_lem owner_id payload s))
      (continued w owner_id payload s d f l (admit owner_id payload s).0 refl)
