-- ===== src/Jobs/Executor.antt =====
-- services/gateway/src/oneiroi_gateway/services/job_execution.py, `RedisJobExecutor`: the loop that
-- reads the events of a job from its stream. What a read gives, and when, is outside; so is the file
-- that passes a cancellation on to the worker.
use Prim.Native.String.{◌++◌ as str_append}
use oneiroi.Prelude.{
  ℕ, zero, suc, ◌+◌, ◌≡◌, refl, subst, ◌≤◌, ◌<◌, String, Bool, true, false, Option, none, some,
  List, [], ◌∷◌, or_else, truthy, leb, if◌then◌else◌, arith,
}
use oneiroi.Prelude.Effects.{Result, ok, err, pure, raise, lift, ◌>>=◌, ◌>>◌, continue}
use oneiroi.Failure.{Failure, runtime_error}
use oneiroi.Studio.{StoredJob}
use oneiroi.Jobs.{Action, World, JobService}
use oneiroi.Jobs.Tasks.{Details, JobExecutionResult, Outcome, returned, cancelled, execution_event}
use oneiroi.Runner.Work.{GenerationResult}

-- An event of the job's stream.
pub data StreamEvent : Type 0 where
  progress : (phase : String) → (progress : ℕ) → Details → StreamEvent
  succeeded : GenerationResult → StreamEvent
  was_cancelled : StreamEvent
  failed : (code message : Option String) → StreamEvent
  other : StreamEvent

-- One turn of the loop: the reading of the clock, and the events that the read gives.
pub record Turn : Type 0 where
  pub now : ℕ
  pub events : List StreamEvent

abbrev pub execution_result : GenerationResult → JobExecutionResult
execution_result result = record {
  output_path = result.output_path;
  manifest_path = result.manifest_path;
  warm_start = result.warm_start;
  worker_pid = some result.worker_pid;
  peak_vram_mib = some result.peak_vram_mib;
  elapsed_seconds = some result.elapsed_seconds;
}

-- `payload.get(...) or ...`
abbrev pub runner_failure : Option String → Option String → Failure
runner_failure code message =
    let shown = or_else (truthy code) "INFERENCE_FAILED" in
    runtime_error (str_append shown (str_append ": " (or_else (truthy message) shown)))

-- a result outside the job's directory raises
abbrev pub checked : Option Failure → GenerationResult → Result Failure (Option Outcome)
checked none result = ok (some (returned (execution_result result)))
checked (some failure) result = err failure

-- the inner loop; `none` is that it goes on
unfoldable pub handle_events :
    World
    → StoredJob
    → (GenerationResult → Option Failure)
    → List StreamEvent
    → Action (Option Outcome)
handle_events w job escaped [] = pure none
handle_events w job escaped (progress phase n details ∷ events) = do
  execution_event w job phase n details
  handle_events w job escaped events
handle_events w job escaped (succeeded result ∷ events) = lift (checked (escaped result) result)
handle_events w job escaped (was_cancelled ∷ events) = pure (some cancelled)
handle_events w job escaped (failed code message ∷ events) = raise (runner_failure code message)
handle_events w job escaped (other ∷ events) = handle_events w job escaped events

abbrev pub go_on : Action (Option Outcome) → Option Outcome → Action (Option Outcome)
go_on next none = next
go_on next (some outcome) = pure (some outcome)

-- `RedisJobExecutor.execute` from turn `n`; `none` is that the fuel ran out
unfoldable pub execute :
    World
    → StoredJob
    → (GenerationResult → Option Failure)
    → (deadline : ℕ) → (ℕ → Turn)
    → (fuel : ℕ) → (n : ℕ) → Action (Option Outcome)
unfolding handle_events
execute w job escaped deadline turns zero n = pure none
execute w job escaped deadline turns (suc fuel) n =
    let rest = execute w job escaped deadline turns fuel (suc n) in
    let turn = do found ← handle_events w job escaped (turns n).events; go_on rest found
    in if leb deadline (turns n).now then raise (runtime_error "RUNNER_JOB_TIMEOUT") else turn

-- The executor returned, was cancelled, or raised.
abbrev pub IsSettled : Result Failure (Option Outcome) → Type 0
IsSettled (ok none) = ⊥
IsSettled (ok (some outcome)) = Unit
IsSettled (err failure) = Unit

-- one turn settles the job, or the turns after it do
turn_lem :
    (next : Action (Option Outcome)) (r : Result Failure (Option Outcome)) (t : JobService)
    → IsSettled (next t).0
    → IsSettled (continue r (go_on next) t).0
unfolding pure
turn_lem next (ok none) t h = h
turn_lem next (ok (some outcome)) t h = tt
turn_lem next (err failure) t h = tt

raised_lem : (failure : Failure) (s : JobService) → IsSettled (raise failure s).0
unfolding ◌>>=◌
raised_lem failure s = tt

late_lem :
    (deadline : ℕ) (turns : ℕ → Turn) (n : ℕ)
    → deadline ≤ (turns (n + 0)).now
    → leb deadline (turns n).now ≡ true
late_lem deadline turns n h =
    let q : n + 0 ≡ n = omega arith in
    let l : deadline ≤ (turns n).now = subst (λ m. deadline ≤ (turns m).now) q h in
    ground (arith, l)

module _ (deadline : ℕ) (turns : ℕ → Turn) (fuel n : ℕ) (turn : Action (Option Outcome))
    (s : JobService)
    (settles : (k : ℕ) → deadline ≤ (turns (suc n + k)).now → k < fuel → IsSettled (turn s).0) where
  by_clock :
      (late : Bool)
      → leb deadline (turns n).now ≡ late
      → (k : ℕ) → deadline ≤ (turns (n + k)).now
      → k < suc fuel
      → IsSettled ((if late then raise (runtime_error "RUNNER_JOB_TIMEOUT") else turn) s).0
  by_clock true q k h l = raised_lem (runtime_error "RUNNER_JOB_TIMEOUT") s
  by_clock false q zero h l = ground (arith, q, late_lem deadline turns n h)
  by_clock false q (suc k) h l =
      let p : n + suc k ≡ suc n + k = omega arith in
      settles k (subst (λ m. deadline ≤ (turns m).now) p h) (omega (arith, l))

-- Whatever the stream gives: if the clock reaches the deadline at some turn from `n` on, then with
-- fuel for the turns up to it the executor returns, is cancelled or raises; it never waits for ever.
pub execute-IsSettled :
    (w : World) (job : StoredJob) (escaped : GenerationResult → Option Failure) (deadline : ℕ)
    (turns : ℕ → Turn) (fuel n k : ℕ) (s : JobService)
    → deadline ≤ (turns (n + k)).now
    → k < fuel
    → IsSettled (execute w job escaped deadline turns fuel n s).0
unfolding execute ◌>>=◌
execute-IsSettled w job escaped deadline turns zero n k s h l = ground (arith, l)
execute-IsSettled w job escaped deadline turns (suc fuel) n k s h l =
    let r = handle_events w job escaped (turns n).events s in
    by_clock deadline turns fuel n _ s
      (λ j g m.
        turn_lem (execute w job escaped deadline turns fuel (suc n)) r.0 r.1
          (execute-IsSettled w job escaped deadline turns fuel (suc n) j r.1 g m))
      (leb deadline (turns n).now) refl k h l
