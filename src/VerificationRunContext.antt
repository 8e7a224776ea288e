-- ===== src/VerificationRunContext.antt =====
-- verificationRunContext.ts: the digest of the events of a run, by their places in the order of capture.
pub mod Description
pub mod Last
pub mod Digest
use agentskeptic.Prelude.{
  ℕ, suc, Bool, true, false, Option, none, some, List, [], ◌∷◌, ◌++◌, ltb, ◌==◌, if◌then◌else◌,
}
use agentskeptic.Events.{ToolObservedEvent, EventVersion, v1, v2, v3}
use agentskeptic.Types.RunEvents.{
  ModelTurnRunEvent, ControlKind, RunEvent, RunEventType, VerificationRunContext,
  VerificationRunContextLastEvent,
}

unfoldable pub create_empty_verification_run_context : VerificationRunContext
create_empty_verification_run_context = record {
  max_wire_schema_version = 1;
  retrieval_events = [];
  control_events = [];
  model_turn_events = [];
  tool_skipped_events = [];
  tool_observed_ingest_index_by_seq = [];
  first_tool_observed_ingest_index = none;
  has_run_completed_control = false;
  last_run_event = none;
}

-- `m[String(seq)] = index`.
unfoldable pub set_index : ℕ → ℕ → List (ℕ × ℕ) → List (ℕ × ℕ)
set_index seq index [] = (seq, index) ∷ []
set_index seq index ((k, i) ∷ m) =
    let rest = set_index seq index m in if k == seq then (k, index) ∷ m else (k, i) ∷ rest

-- `m[String(seq)]`.
unfoldable pub get_index : ℕ → List (ℕ × ℕ) → Option ℕ
get_index seq [] = none
get_index seq ((k, i) ∷ m) = let rest = get_index seq m in if k == seq then some i else rest

abbrev pub is_run_completed : ControlKind → Bool
is_run_completed ControlKind.run_completed = true
is_run_completed _ = false

-- The version of the wire after an event.
abbrev pub wire_after : ℕ → EventVersion → ℕ
wire_after wire v1 = wire
wire_after wire v2 = 2
wire_after wire (v3 c) = 3

-- The first index, if it is not known or not below this one.
abbrev pub min_index : Option ℕ → ℕ → Option ℕ
min_index none index = some index
min_index (some first) index = if ltb index first then some index else some first

module _ {P : Type 0} where
  -- One round of the loop.
  unfoldable pub add_event : ℕ → RunEvent P → VerificationRunContext → VerificationRunContext
  unfolding set_index
  add_event index (RunEvent.tool_observed ev) c = record c {
    max_wire_schema_version = wire_after c.max_wire_schema_version ev.version;
    tool_observed_ingest_index_by_seq = set_index ev.seq index c.tool_observed_ingest_index_by_seq;
    first_tool_observed_ingest_index = min_index c.first_tool_observed_ingest_index index;
  }
  add_event index (RunEvent.retrieval ev) c = record c {
    max_wire_schema_version = 2;
    retrieval_events =
        c.retrieval_events
        ++ record {
          ingest_index = index;
          run_event_id = ev.run_event_id;
          source = ev.source;
          status = ev.status;
          hit_count = ev.hit_count;
        }
          ∷ [];
  }
  add_event index (RunEvent.control ev) c = record c {
    max_wire_schema_version = 2;
    has_run_completed_control =
        if is_run_completed ev.control_kind then true else c.has_run_completed_control;
    control_events =
        c.control_events
        ++ record {
          ingest_index = index;
          run_event_id = ev.run_event_id;
          control_kind = ev.control_kind;
          decision = ev.decision;
          label = ev.label;
        }
          ∷ [];
  }
  add_event index (RunEvent.model_turn ev) c = record c {
    max_wire_schema_version = 2;
    model_turn_events =
        c.model_turn_events
        ++ record { ingest_index = index; run_event_id = ev.run_event_id; status = ev.status } ∷ [];
  }
  add_event index (RunEvent.tool_skipped ev) c = record c {
    max_wire_schema_version = 2;
    tool_skipped_events =
        c.tool_skipped_events
        ++ record { ingest_index = index; tool_id = ev.tool_id; reason = ev.reason } ∷ [];
  }

  unfoldable pub add_events :
      ℕ → List (RunEvent P) → VerificationRunContext → VerificationRunContext
  unfolding add_event
  add_events index [] c = c
  add_events index (ev ∷ evs) c = add_events (suc index) evs (add_event index ev c)

  abbrev pub summary_of : ℕ → RunEvent P → VerificationRunContextLastEvent
  summary_of index (RunEvent.model_turn ev) = record {
    ingest_index = index;
    type = RunEventType.model_turn;
    model_turn_status = some ev.status;
  }
  summary_of index (RunEvent.tool_observed ev) = record {
    ingest_index = index;
    type = RunEventType.tool_observed;
    model_turn_status = none;
  }
  summary_of index (RunEvent.retrieval ev) = record {
    ingest_index = index;
    type = RunEventType.retrieval;
    model_turn_status = none;
  }
  summary_of index (RunEvent.control ev) = record {
    ingest_index = index;
    type = RunEventType.control;
    model_turn_status = none;
  }
  summary_of index (RunEvent.tool_skipped ev) = record {
    ingest_index = index;
    type = RunEventType.tool_skipped;
    model_turn_status = none;
  }

  -- `lastEventSummary`, from the index of the first of the events.
  unfoldable pub last_event_summary : ℕ → List (RunEvent P) → Option VerificationRunContextLastEvent
  last_event_summary index [] = none
  last_event_summary index (ev ∷ []) = some (summary_of index ev)
  last_event_summary index (ev ∷ e ∷ evs) = last_event_summary (suc index) (e ∷ evs)

  unfoldable pub build_verification_run_context : List (RunEvent P) → VerificationRunContext
  unfolding add_events last_event_summary create_empty_verification_run_context
  build_verification_run_context events =
      record (add_events 0 events create_empty_verification_run_context) {
        last_run_event = last_event_summary 0 events;
      }
