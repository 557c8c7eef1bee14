-- ===== src/Runner/Finality.antt =====
-- What the loop of a slot does after a job that was cancelled.
use oneiroi.Prelude.{
  ◌≡◌, refl, ap, ◌∙◌, String, true, false, ◌&&◌, none, List, [], ◌∷◌, ◌++◌, ◌==◌, string_eq,
  option_eq, arith, is_some,
}
use oneiroi.Prelude.Effects.{err}
use oneiroi.Compute.{GpuState, gpu_state_eq}
use oneiroi.Runner.{cancelled_error}
use oneiroi.Runner.Work.{JobRun, run_job, await_end}
use oneiroi.Runner.Runtime.{Runner, JobEvent}
use oneiroi.Runner.Slot.{
  JobEntry, publish_all, loop_goes_on, conclude, all_events, run_entry_job, handle_entry,
  handle_entries,
}

unread : (entry : JobEntry) (s : Runner) → s.job_loop ≡ false → handle_entry entry s ≡ s
unfolding handle_entry
unread entry s h = rw h refl

stopped_lem :
    (entries : List JobEntry) (s : Runner) → s.job_loop ≡ false → handle_entries entries s ≡ s
unfolding handle_entries
stopped_lem [] s h = refl
stopped_lem (entry ∷ entries) s h =
    ap (handle_entries entries) (unread entry s h) ∙ stopped_lem entries s h

publish_all_rest :
    (job_id : String) (events : List JobEvent) (s : Runner)
    → ((publish_all job_id events s).job_loop ≡ s.job_loop)
      × ((publish_all job_id events s).supervisor ≡ s.supervisor)
publish_all_rest job_id [] s = (refl, refl)
publish_all_rest job_id (event ∷ events) s =
    publish_all_rest job_id events (record s { job_events = s.job_events ++ (job_id, event) ∷ [] })

-- A ready runner, and an entry that it takes, whose worker says that the job was cancelled, which
-- is then published.
abbrev pub IsCancelled : JobEntry → Runner → Type 0
IsCancelled entry s =
    (s.job_loop ≡ true)
    × ((entry.fencing_token == s.current_fencing_token) ≡ true)
    × (entry.request_raises ≡ none)
    × (entry.send_raises ≡ none)
    × (entry.last_raises ≡ none)
    × ((s.supervisor.state == GpuState.ready
          && s.supervisor.connection
          && is_some s.supervisor.process
          && entry.alive)
        ≡ true)
    × ((await_end entry.escaped entry.messages).result ≡ err cancelled_error)

conclude_rest :
    (entry : JobEntry) (run : JobRun) (s : Runner)
    → ((conclude entry run s).job_loop ≡ loop_goes_on entry.last_raises run.result)
      × ((conclude entry run s).supervisor ≡ s.supervisor)
unfolding conclude
conclude_rest entry run s =
    publish_all_rest entry.job_id (all_events entry run)
      (record s { job_loop = loop_goes_on entry.last_raises run.result })

cancelled_state :
    (entry : JobEntry) (s : Runner)
    → IsCancelled entry s
    → ((handle_entry entry s).job_loop ≡ false)
      × ((handle_entry entry s).supervisor.state ≡ GpuState.ready)
unfolding handle_entry run_entry_job run_job
cancelled_state entry s h =
    let after = (run_job entry.escaped entry.send_raises entry.alive entry.messages s.supervisor) in
    ground (arith, h, conclude_rest entry after.0 (record s { supervisor = after.1 }))

-- Let a ready runner with a live process take an entry with its token, whose worker says that the
-- job was cancelled, and let no request, sending or last publication raise. Afterwards the slot is ready again, but the loop of its jobs has ended: every
-- later entry is left unread.
pub cancelled_stops :
    (entry : JobEntry) (entries : List JobEntry) (s : Runner)
    → IsCancelled entry s
    → let t = handle_entry entry s in
      (t.supervisor.state ≡ GpuState.ready) × (handle_entries entries t ≡ t)
cancelled_stops entry entries s h = (state.1, stopped_lem entries (handle_entry entry s) state.0)
  where
    state :
        ((handle_entry entry s).job_loop ≡ false)
        × ((handle_entry entry s).supervisor.state ≡ GpuState.ready)
    state = cancelled_state entry s h
