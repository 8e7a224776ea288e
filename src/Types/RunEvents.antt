-- ===== src/Types/RunEvents.antt =====
-- types.ts: the events of a run besides the observed tool calls, and the digest of a run. The identifiers of an event's parent, its free texts and
-- its time are not read here.
use agentskeptic.Prelude.{ℕ, Bool, Option, List}
use agentskeptic.Js.{Text, Number}
use agentskeptic.Events.{ToolObservedEvent}

pub data ModelTurnStatus : Type 0 where
  completed error aborted incomplete : ModelTurnStatus

pub data RetrievalStatus : Type 0 where
  ok empty error : RetrievalStatus

pub data ControlKind : Type 0 where
  branch loop interrupt gate run_completed : ControlKind

pub data ControlDecision : Type 0 where
  taken skipped : ControlDecision

pub record ModelTurnRunEvent : Type 0 where
  pub run_event_id : Text
  pub status : ModelTurnStatus

pub record RetrievalRunEvent : Type 0 where
  pub run_event_id : Text
  pub source : Text
  pub status : RetrievalStatus
  pub hit_count : Option Number

pub record ControlRunEvent : Type 0 where
  pub run_event_id : Text
  pub control_kind : ControlKind
  pub label : Option Text
  pub decision : Option ControlDecision

pub record ToolSkippedRunEvent : Type 0 where
  pub run_event_id : Text
  pub tool_id : Text
  pub reason : Text

-- The events other than an observed tool call have the schema version 2.
pub data RunEvent (P : Type 0) : Type 0 where
  tool_observed : ToolObservedEvent P → RunEvent P
  model_turn : ModelTurnRunEvent → RunEvent P
  retrieval : RetrievalRunEvent → RunEvent P
  control : ControlRunEvent → RunEvent P
  tool_skipped : ToolSkippedRunEvent → RunEvent P

-- `RunEvent["type"]`.
pub data RunEventType : Type 0 where
  tool_observed model_turn retrieval control tool_skipped : RunEventType

pub record VerificationRunContextLastEvent : Type 0 where
  pub ingest_index : ℕ
  pub type : RunEventType
  pub model_turn_status : Option ModelTurnStatus

pub record RetrievalSummary : Type 0 where
  pub ingest_index : ℕ
  pub run_event_id : Text
  pub source : Text
  pub status : RetrievalStatus
  pub hit_count : Option Number

pub record ControlSummary : Type 0 where
  pub ingest_index : ℕ
  pub run_event_id : Text
  pub control_kind : ControlKind
  pub decision : Option ControlDecision
  pub label : Option Text

pub record ModelTurnSummary : Type 0 where
  pub ingest_index : ℕ
  pub run_event_id : Text
  pub status : ModelTurnStatus

pub record ToolSkippedSummary : Type 0 where
  pub ingest_index : ℕ
  pub tool_id : Text
  pub reason : Text

-- The record by `String(seq)` is a list of pairs of a `seq` and its index.
pub record VerificationRunContext : Type 0 where
  pub max_wire_schema_version : ℕ
  pub retrieval_events : List RetrievalSummary
  pub control_events : List ControlSummary
  pub model_turn_events : List ModelTurnSummary
  pub tool_skipped_events : List ToolSkippedSummary
  pub tool_observed_ingest_index_by_seq : List (ℕ × ℕ)
  pub first_tool_observed_ingest_index : Option ℕ
  pub has_run_completed_control : Bool
  pub last_run_event : Option VerificationRunContextLastEvent
