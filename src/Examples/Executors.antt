-- ===== src/Examples/Executors.antt =====
-- The executor of a job whose runner only ever reports progress.
use oneiroi.Prelude.{ℕ, ◌*◌, false, none, some, [], ◌∷◌, arith}
use oneiroi.Failure.{runtime_error}
use oneiroi.Jobs.Executor.{Turn, StreamEvent, execute, IsSettled, execute-IsSettled}
use oneiroi.Examples.Jobs.{world, running, jobs}

-- a turn takes 10, and reports progress
abbrev turns : ℕ → Turn
turns n = record {
  now = n * 10;
  events =
      StreamEvent.progress "diffusion" 70 (record { current_step = none; total_steps = none }) ∷ [];
}

execute-IsSettled_example :
    IsSettled
      (execute world running (λ result. some (runtime_error "escaped")) 30 turns 4 0 (jobs false)).0
execute-IsSettled_example =
    execute-IsSettled world running (λ result. some (runtime_error "escaped")) 30 turns 4 0 3
      (jobs false) (omega arith) (omega arith)
