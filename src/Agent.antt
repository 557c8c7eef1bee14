-- ===== src/Agent.antt =====
-- packages/python/common/src/oneiroi_common/agent.py: the contracts of agent threads, runs, tool
-- calls and approvals. Times are ℕ; a `dict[str, Any]` that the code only passes on is its JSON
-- text.
pub mod State
pub mod Runs
pub mod Leases
pub mod Tools
pub mod Approvals
pub mod Calls
pub mod Fencing
pub mod Subjects
pub mod Trace
pub mod Numbering
pub mod Elsewhere
pub mod Statuses
pub mod Lifecycle
pub mod Decisions
pub mod Creation
use oneiroi.Prelude.{
  ℕ, String, Bool, true, false, Option, List, [], ◌∷◌, ◌≡◌, refl, Eq, enum_eq, nth,
}

abbrev pub Json : Type 0
Json = String

pub data AgentRunStatus : Type 0 where
  queued streaming waiting_approval executing_tool cancelling cancelled : AgentRunStatus
  completed failed expired recovering : AgentRunStatus

abbrev pub is_terminal : AgentRunStatus → Bool
is_terminal cancelled = true
is_terminal completed = true
is_terminal failed = true
is_terminal expired = true
is_terminal _ = false

pub data AgentToolCallStatus : Type 0 where
  proposed waiting_approval approved running succeeded failed rejected : AgentToolCallStatus
  expired : AgentToolCallStatus

pub data AgentApprovalStatus : Type 0 where
  pending approved rejected consumed expired : AgentApprovalStatus

pub data AgentToolRisk : Type 0 where
  read proposal write costly destructive : AgentToolRisk

pub data AgentThreadStatus : Type 0 where
  active archived : AgentThreadStatus

pub data AgentMessageRole : Type 0 where
  user assistant tool system_summary : AgentMessageRole

pub data AgentMessageStatus : Type 0 where
  streaming completed failed : AgentMessageStatus

pub record AgentMessageContent : Type 0 where
  pub text : String
  pub draft_proposal : Option Json
  pub rationale : List String
  pub warnings : List String

pub record AgentThreadResponse : Type 0 where
  pub id : String
  pub conversation_id : String
  pub status : AgentThreadStatus
  pub summary_text : Option String
  pub summary_cursor : ℕ
  pub prompt_version : String
  pub created_at : ℕ
  pub updated_at : ℕ

pub record AgentMessageResponse : Type 0 where
  pub id : String
  pub thread_id : String
  pub run_id : Option String
  pub sequence : ℕ
  pub role : AgentMessageRole
  pub content : AgentMessageContent
  pub status : AgentMessageStatus
  pub provider_item_id : Option String
  pub created_at : ℕ
  pub completed_at : Option ℕ

pub record AgentUsage : Type 0 where
  pub input_tokens : ℕ
  pub output_tokens : ℕ
  pub total_tokens : ℕ
  pub provider_requests : ℕ

pub record AgentRunResponse : Type 0 where
  pub id : String
  pub thread_id : String
  pub conversation_id : String
  pub status : AgentRunStatus
  pub model : String
  pub provider : String
  pub transport : String
  pub reasoning_effort : String
  pub prompt_version : String
  pub toolset_version : String
  pub input_snapshot : Json
  pub usage : AgentUsage
  pub provider_response_id : Option String
  pub error_code : Option String
  pub error_message : Option String
  pub output_message_id : Option String
  pub created_at : ℕ
  pub started_at : Option ℕ
  pub finished_at : Option ℕ

pub record AgentToolCallResponse : Type 0 where
  pub id : String
  pub run_id : String
  pub tool_name : String
  pub tool_version : String
  pub risk : AgentToolRisk
  pub arguments : Json
  pub arguments_hash : String
  pub status : AgentToolCallStatus
  pub result : Option Json
  pub resource_type : Option String
  pub resource_id : Option String
  pub error_code : Option String
  pub error_message : Option String
  pub created_at : ℕ
  pub started_at : Option ℕ
  pub finished_at : Option ℕ

pub record AgentApprovalResponse : Type 0 where
  pub id : String
  pub run_id : String
  pub tool_call_id : String
  pub arguments_hash : String
  pub status : AgentApprovalStatus
  pub estimated_cost : Option String
  pub expires_at : ℕ
  pub decided_at : Option ℕ
  pub consumed_at : Option ℕ

-- What the events of the repository carry: the caller's own payload, or the dump of the object
-- that changed.
pub data Payload : Type 0 where
  given : Json → Payload
  status : AgentRunStatus → Payload
  tool_call : AgentToolCallResponse → Payload
  approval : AgentApprovalResponse → Payload
  tool_call_approval : AgentToolCallResponse → AgentApprovalResponse → Payload

pub record AgentEventResponse : Type 0 where
  pub id : ℕ
  pub run_id : String
  pub thread_id : String
  pub event_type : String
  pub sequence : ℕ
  pub payload : Payload
  pub created_at : ℕ

abbrev pub run_code : AgentRunStatus → ℕ
run_code queued = 0
run_code streaming = 1
run_code waiting_approval = 2
run_code executing_tool = 3
run_code cancelling = 4
run_code cancelled = 5
run_code completed = 6
run_code failed = 7
run_code expired = 8
run_code recovering = 9

abbrev pub run_decode : ℕ → AgentRunStatus
run_decode = nth queued (
    queued ∷ streaming ∷ waiting_approval ∷ executing_tool ∷ cancelling ∷ cancelled ∷ completed
    ∷ failed ∷ expired ∷ recovering ∷ [])

pub run_decode-run_code : (s : AgentRunStatus) → run_decode (run_code s) ≡ s
run_decode-run_code queued = refl
run_decode-run_code streaming = refl
run_decode-run_code waiting_approval = refl
run_decode-run_code executing_tool = refl
run_decode-run_code cancelling = refl
run_decode-run_code cancelled = refl
run_decode-run_code completed = refl
run_decode-run_code failed = refl
run_decode-run_code expired = refl
run_decode-run_code recovering = refl

instance abbrev pub run_status_eq : Eq AgentRunStatus
run_status_eq = enum_eq run_code run_decode run_decode-run_code

abbrev pub tool_code : AgentToolCallStatus → ℕ
tool_code proposed = 0
tool_code waiting_approval = 1
tool_code approved = 2
tool_code running = 3
tool_code succeeded = 4
tool_code failed = 5
tool_code rejected = 6
tool_code expired = 7

abbrev pub tool_decode : ℕ → AgentToolCallStatus
tool_decode = nth proposed (
    proposed ∷ waiting_approval ∷ approved ∷ running ∷ succeeded ∷ failed ∷ rejected ∷ expired ∷ [])

pub tool_decode-tool_code : (s : AgentToolCallStatus) → tool_decode (tool_code s) ≡ s
tool_decode-tool_code proposed = refl
tool_decode-tool_code waiting_approval = refl
tool_decode-tool_code approved = refl
tool_decode-tool_code running = refl
tool_decode-tool_code succeeded = refl
tool_decode-tool_code failed = refl
tool_decode-tool_code rejected = refl
tool_decode-tool_code expired = refl

instance abbrev pub tool_status_eq : Eq AgentToolCallStatus
tool_status_eq = enum_eq tool_code tool_decode tool_decode-tool_code

abbrev pub approval_code : AgentApprovalStatus → ℕ
approval_code pending = 0
approval_code approved = 1
approval_code rejected = 2
approval_code consumed = 3
approval_code expired = 4

abbrev pub approval_decode : ℕ → AgentApprovalStatus
approval_decode = nth pending (pending ∷ approved ∷ rejected ∷ consumed ∷ expired ∷ [])

pub approval_decode-approval_code :
    (s : AgentApprovalStatus) → approval_decode (approval_code s) ≡ s
approval_decode-approval_code pending = refl
approval_decode-approval_code approved = refl
approval_decode-approval_code rejected = refl
approval_decode-approval_code consumed = refl
approval_decode-approval_code expired = refl

instance abbrev pub approval_status_eq : Eq AgentApprovalStatus
approval_status_eq = enum_eq approval_code approval_decode approval_decode-approval_code
