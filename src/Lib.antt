-- ===== src/Lib.antt =====
-- Oneiroi Studio: the gateway that shares a few GPUs between the sessions of its users and runs an
-- agent for them. This library models the parts that decide who may do what.
--
-- The parts and their files (paths from the repository's root):
--   * packages/python/common/src/oneiroi_common/compute.py: the contracts of GPUs, slots and
--     sessions in Compute, `allocated_gpu_count` and `profile_plan_for_count` in Compute/Plan.
--   * services/gateway/src/oneiroi_gateway/redis/leases.py, `InMemoryLeaseStore`: Leases. Lookups
--     after each call are in Leases/View, proofs in Leases/Exclusion and Leases/Grants.
--   * services/gateway/src/oneiroi_gateway/services/session_events.py: Events, Events/Stream.
--   * services/gateway/src/oneiroi_gateway/services/compute_sessions.py, `ComputeSessionService`:
--     Sessions holds the state, Sessions/Selection, Create, Loading and Requests the method `create`,
--     Sessions/Release `release`, Sessions/Upkeep `restore`, `reconcile_stale_gpus` and `close`, and
--     Sessions/Renewal one round of `_renew_lease_loop`. Proofs are in Sessions/Loaded, Unloaded,
--     Released and Restored. The service calls the lease store, the event log and the state repository.
--   * services/gateway/src/oneiroi_gateway/services/job_scheduler.py: Scheduler, which works on the
--     session service; proofs in Scheduler/Slots, Candidates, Reservation and RoundTrip.
--   * packages/python/common/src/oneiroi_common/jobs.py and studio.py: Studio;
--     services/gateway/src/oneiroi_gateway/repositories/studio.py, `InMemoryStudioRepository`:
--     Studio/Repository, its calls as one step in Studio/Calls, proofs in Studio/Tenancy and
--     Studio/Listing.
--   * services/gateway/src/oneiroi_gateway/redis/leases.py, `RedisLeaseStore`: Leases/Redis, over a
--     server given by its commands and their laws. What each script shows is in Leases/RedisView; the
--     refinement of the store in memory is in Leases/RedisAcquire, RedisGrants and Refinement.
--   * services/gateway/src/oneiroi_gateway/services/capabilities.py: Compute/Capabilities.
--   * services/gateway/src/oneiroi_gateway/services/job_service.py, `JobService`: Jobs holds the state,
--     Jobs/Dispatch the assignment of a job, Jobs/Requests `create`, `cancel` and `retry`, Jobs/Tasks
--     what `_execute` does around the executor, Jobs/Restart `restore_inflight`. It calls the scheduler
--     and the studio repository. Proofs are in Jobs/Steps, Limits, Room, Bounds, Endings, Cancelling,
--     Retrying, Undoing, Failing and Restarted. Jobs/Executor is the loop of `RedisJobExecutor` in
--     job_execution.py beside it.
--   * workers/runner/src/oneiroi_runner/supervisor.py, `ModelWorkerSupervisor`: Runner/Supervisor and
--     Runner/Work, proofs in Runner/Release; redis_runtime.py beside it, `RedisRunnerRuntime`:
--     Runner/Runtime and Runner/Handlers for commands, Runner/Slot for jobs and Runner/Frames for the
--     frames of a draft, proofs in Runner/Commands and Runner/Finality. A runner calls its supervisor.
--   * packages/python/common/src/oneiroi_common/agent.py: Agent;
--     services/gateway/src/oneiroi_gateway/repositories/agent.py, `InMemoryAgentRepository`:
--     Agent/State, Runs, Leases, Tools and Approvals, with all calls as one step in Agent/Calls.
--     Proofs are in the other files of Agent.
--   * Prelude: lists, dictionaries, tests, and methods as state passing with errors. Failure: the
--     exceptions. Examples: concrete runs.
--
-- A method keeps its name. It takes the state and gives a result or an error together with the
-- state after it: what was written before a raise stays written. A Python object that several hold
-- is the entry of its dictionary, and each change is written there. A method under a lock is one
-- step; elsewhere a method is its sequence of writes, and other methods between its waits are not
-- modelled.
--
-- Arguments stand for what lies outside: clocks, `uuid4`, hashes, and the answers of a backend. Times
-- are ℕ. JSON that is passed on, paths and `float` values that are not computed with are texts.
-- The loops are over finite lists and need no fuel, but for two: the digits of a number in
-- Prelude/Decimal, where the number itself is enough, and the turns of an executor in Jobs/Executor,
-- where those up to its deadline are enough. The plans know counts up to 4.
--
-- The Redis server is a parameter: a record of commands, with the laws of Redis that the lease store
-- relies on. A dispatcher, an executor, a worker process and its pipe are given by what they answer or
-- raise; a list of messages ends where nothing comes in time. So are the unloading of a slot and the
-- check of the memory of a GPU, each of which may raise.
--
-- The results that a runner stores for its commands have a lifetime of a day in Redis; in the model
-- they stay. What a runner publishes is taken not to raise, but for the last event of a job. The
-- reports of progress of a job that does not succeed may follow its last event, and how many do is an
-- argument.
--
-- Not modelled: the SQL stores, whose steps run on a server; the streams of Redis; the agent's runtime
-- and the artifact service; HTTP routes, the proxy and the web application.
pub mod Prelude
pub mod Failure
pub mod Compute
pub mod Leases
pub mod Events
pub mod Sessions
pub mod Scheduler
pub mod Studio
pub mod Jobs
pub mod Runner
pub mod Examples
pub mod Agent
