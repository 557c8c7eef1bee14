-- ===== src/Jobs/Room.antt =====
-- What the steps of a dispatch keep of the jobs of the repository: the other jobs of an account.
use oneiroi.Prelude.{
  ◌≡◌, subst, sym, ◌∙◌, ◌≤◌, refl, ℕ, String, Bool, true, false, Option, none, some, string_eq,
  arith, count, or_else,
}
use oneiroi.Prelude.Dict.{
  Dict, IsDistinct, get, put, pop, values, pop-put, get-put_self, put-IsDistinct,
}
use oneiroi.Prelude.Effects.{
  gets, ◌>>=◌, Keeps, Keeps-bind, Keeps-raise, Keeps-recover, keeps_rules,
}
use oneiroi.Failure.{Failure}
use oneiroi.Studio.{StoredJob}
use oneiroi.Studio.Repository.{is_active_for, update_job}
use oneiroi.Jobs.{JobService, World, in_repository, write, current, message_of, InputPaths}
use oneiroi.Jobs.Steps.{
  event_jobs, attempt_jobs, finish_attempt_jobs, modify_jobs, after_dispatch_jobs,
  Keeps-in_scheduler,
}
use oneiroi.Jobs.Dispatch.{
  mark_failed, mark_dispatch_failed, assign_and_dispatch, dispatch_or_fail, assigned,
}

-- The key is the job's own, and the other jobs leave `n` places to the owner.
abbrev IsOwnKey : String → Option StoredJob → Type 0
IsOwnKey key none = Unit
IsOwnKey key (some job) = job.response.id ≡ key

abbrev pub HasRoom : String → String → ℕ → Dict String StoredJob → Type 0
HasRoom owner_id key n jobs =
    IsDistinct jobs
    × IsOwnKey key (get key jobs)
    × (count (is_active_for owner_id none) (values (pop key jobs)) ≤ n)

pub put-HasRoom :
    (owner_id : String) (n : ℕ) (job : StoredJob) (jobs : Dict String StoredJob)
    → HasRoom owner_id job.response.id n jobs
    → HasRoom owner_id job.response.id n (put job.response.id job jobs)
put-HasRoom owner_id n job jobs h = (
  put-IsDistinct job.response.id job jobs h.0,
  ground (arith, get-put_self job.response.id job jobs),
  ground (arith, pop-put job.response.id job jobs, h.2),
)

module _ (owner_id key : String) (n : ℕ) where
  abbrev pub Room : JobService → Type 0
  Room s = HasRoom owner_id key n s.repository.jobs

  abbrev Here : Dict String StoredJob → Type 0
  Here = HasRoom owner_id key n

  write_room : (job : StoredJob) → job.response.id ≡ key → Keeps Room (write job)
  unfolding write in_repository update_job ◌>>=◌
  write_room job q = record {
    after = λ s h.
        subst (λ k. HasRoom owner_id k n (put job.response.id job s.repository.jobs)) q
          (put-HasRoom owner_id n job s.repository.jobs
            (subst (λ k. HasRoom owner_id k n s.repository.jobs) (sym q) h));
  }

  own_id :
      (job : StoredJob) (s : JobService)
      → job.response.id ≡ key
      → Room s
      → (current job s).response.id ≡ key
  own_id job s q h =
      go job q (get job.response.id s.repository.jobs)
        (subst (λ k. IsOwnKey k (get k s.repository.jobs)) (sym q) h.1)
    where
      go :
          (job : StoredJob)
          → job.response.id ≡ key
          → (found : Option StoredJob) → IsOwnKey job.response.id found
          → (or_else found job).response.id ≡ key
      go job q none h = q
      go job q (some found) h = h ∙ q

  mark_failed_room :
      (w : World) (job : StoredJob) (message : String) (ended : Bool)
      → job.response.id ≡ key
      → Keeps Room (mark_failed w job message ended)
  unfolding mark_failed
  mark_failed_room w job message true q = search keeps_rules
  mark_failed_room w job message false q =
      search (keeps_rules, write_room, event_jobs Here, finish_attempt_jobs Here, q) depth 12

  mark_dispatch_failed_room :
      (w : World) (job : StoredJob) (exc : Failure)
      → job.response.id ≡ key
      → Keeps Room (mark_dispatch_failed w job exc)
  unfolding mark_dispatch_failed gets ◌>>=◌
  mark_dispatch_failed_room w job exc q = record {
    after =
        λ s h. (mark_failed_room w (current job s) (message_of exc) _ (own_id job s q h)).after s h;
  }

  assign_and_dispatch_room :
      (w : World) (job : StoredJob) (paths : InputPaths)
      → job.response.id ≡ key
      → Keeps Room (assign_and_dispatch w job paths)
  unfolding assign_and_dispatch
  assign_and_dispatch_room w job paths q = Keeps-bind _ _ (Keeps-in_scheduler _ _) λ reservation.
      Keeps-bind _ _ (modify_jobs Here _ λ s. refl) λ u1.
        Keeps-bind _ _ (write_room (assigned job reservation w.now) q) λ u2.
          Keeps-bind _ _ (attempt_jobs Here _) λ u3.
            Keeps-bind _ _ (event_jobs Here w (assigned job reservation w.now) _)
              λ u4. after_dispatch_jobs Here w (assigned job reservation w.now) reservation paths _

  pub dispatch_or_fail_room :
      (w : World) (job : StoredJob) (paths : InputPaths)
      → job.response.id ≡ key
      → Keeps Room (dispatch_or_fail w job paths)
  unfolding dispatch_or_fail
  dispatch_or_fail_room w job paths q =
      Keeps-recover _ _ (assign_and_dispatch_room w job paths q)
        λ exc. Keeps-bind _ _ (mark_dispatch_failed_room w job exc q) λ u. Keeps-raise exc
