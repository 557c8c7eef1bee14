-- ===== src/Jobs/Limits.antt =====
-- `JobService.create` refuses a request over the limits before anything is written.
use oneiroi.Prelude.{
  ◌≡◌, String, Bool, true, ◌||◌, none, some, string_eq, arith, ltb, leb, if◌then◌else◌,
}
use oneiroi.Prelude.Dict.{get}
use oneiroi.Prelude.Effects.{err, ◌>>=◌}
use oneiroi.Studio.{ConversationResponse}
use oneiroi.Studio.Repository.{count_active_jobs, get_conversation}
use oneiroi.Jobs.{JobService, World, in_repository}
use oneiroi.Jobs.Requests.{JobCreate, check_limits, admit, create, busy_failure, limit_failure}

abbrev pub has_active_job : String → String → JobService → Bool
has_active_job owner_id conversation_id s =
    ltb 0 (count_active_jobs owner_id (some conversation_id) s.repository)

abbrev pub is_at_limit : String → JobService → Bool
is_at_limit owner_id s = leb s.max_active_per_owner (count_active_jobs owner_id none s.repository)

-- In a conversation of the owner, a request is refused if the conversation has a job of the owner
-- that has not ended, or else if the account has reached its limit; each refusal has its own error,
-- and leaves the state of the service as it was.
pub create_refused :
    (w : World) (owner_id : String) (payload : JobCreate) (s : JobService)
    (conversation : ConversationResponse)
    → get payload.conversation_id s.repository.conversations ≡ some (owner_id, conversation)
    → (has_active_job owner_id payload.conversation_id s || is_at_limit owner_id s) ≡ true
    → create w owner_id payload s ≡ (
      err (
          if has_active_job owner_id payload.conversation_id s
          then busy_failure
          else limit_failure s.max_active_per_owner),
      s,
    )
unfolding create admit check_limits in_repository get_conversation ◌>>=◌
create_refused w owner_id payload s conversation e full =
    ground (arith, e, string_eq.beq_iff owner_id owner_id)
