-- ===== src/VerificationRunContext/Description.antt =====
-- The digest of a run, described one field at a time from the events.
use agentskeptic.Prelude.{
  ℕ, suc, ◌≡◌, Bool, true, false, Option, none, some, List, [], ◌∷◌, ◌++◌, any, ◌==◌, if◌then◌else◌,
  ◌+◌, ◌⊎◌, length,
}
use agentskeptic.Events.{EventVersion, v1, v2, v3}
use agentskeptic.Types.RunEvents.{
  RunEvent, RetrievalSummary, ControlSummary, ModelTurnSummary, ToolSkippedSummary,
  VerificationRunContext, RunEventType, ModelTurnStatus, VerificationRunContextLastEvent,
}
use agentskeptic.VerificationRunContext.{get_index, is_run_completed}

abbrev pub or_else : {A : Type 0} → Option A → Option A → Option A
or_else (some a) b = some a
or_else none b = b

abbrev pub listed : {A : Type 0} → Option A → List A
listed none = []
listed (some a) = a ∷ []

abbrev pub version_number : EventVersion → Option ℕ
version_number v1 = none
version_number v2 = some 2
version_number (v3 c) = some 3

module _ {P : Type 0} where
  -- What a function picks of the events, by their indices from the first one's.
  abbrev pub collect : {A : Type 0} → (ℕ → RunEvent P → Option A) → ℕ → List (RunEvent P) → List A
  collect pick index [] = []
  collect pick index (ev ∷ evs) = listed (pick index ev) ++ collect pick (suc index) evs

  -- The index of the first event that passes a test, and that of the last.
  abbrev pub first_index : (RunEvent P → Bool) → ℕ → List (RunEvent P) → Option ℕ
  first_index p index [] = none
  first_index p index (ev ∷ evs) = if p ev then some index else first_index p (suc index) evs

  abbrev pub last_index : (RunEvent P → Bool) → ℕ → List (RunEvent P) → Option ℕ
  last_index p index [] = none
  last_index p index (ev ∷ evs) =
      or_else (last_index p (suc index) evs) (if p ev then some index else none)

  abbrev pub is_tool_observed : RunEvent P → Bool
  is_tool_observed (RunEvent.tool_observed ev) = true
  is_tool_observed _ = false

  abbrev pub has_seq : ℕ → RunEvent P → Bool
  has_seq seq (RunEvent.tool_observed ev) = ev.seq == seq
  has_seq seq _ = false

  abbrev pub completes_run : RunEvent P → Bool
  completes_run (RunEvent.control ev) = is_run_completed ev.control_kind
  completes_run _ = false

  -- The version of an event that has one above 1.
  abbrev pub newer_version : RunEvent P → Option ℕ
  newer_version (RunEvent.tool_observed ev) = version_number ev.version
  newer_version _ = some 2

  abbrev pub last_newer_version : List (RunEvent P) → Option ℕ
  last_newer_version [] = none
  last_newer_version (ev ∷ evs) = or_else (last_newer_version evs) (newer_version ev)

  abbrev pub retrieval_of : ℕ → RunEvent P → Option RetrievalSummary
  retrieval_of index (RunEvent.retrieval ev) = some (record {
    ingest_index = index;
    run_event_id = ev.run_event_id;
    source = ev.source;
    status = ev.status;
    hit_count = ev.hit_count;
  })
  retrieval_of index _ = none

  abbrev pub control_of : ℕ → RunEvent P → Option ControlSummary
  control_of index (RunEvent.control ev) = some (record {
    ingest_index = index;
    run_event_id = ev.run_event_id;
    control_kind = ev.control_kind;
    decision = ev.decision;
    label = ev.label;
  })
  control_of index _ = none

  abbrev pub model_turn_of : ℕ → RunEvent P → Option ModelTurnSummary
  model_turn_of index (RunEvent.model_turn ev) =
      some (record { ingest_index = index; run_event_id = ev.run_event_id; status = ev.status })
  model_turn_of index _ = none

  abbrev pub tool_skipped_of : ℕ → RunEvent P → Option ToolSkippedSummary
  tool_skipped_of index (RunEvent.tool_skipped ev) =
      some (record { ingest_index = index; tool_id = ev.tool_id; reason = ev.reason })
  tool_skipped_of index _ = none

  abbrev pub event_type : RunEvent P → RunEventType
  event_type (RunEvent.tool_observed ev) = RunEventType.tool_observed
  event_type (RunEvent.retrieval ev) = RunEventType.retrieval
  event_type (RunEvent.control ev) = RunEventType.control
  event_type (RunEvent.model_turn ev) = RunEventType.model_turn
  event_type (RunEvent.tool_skipped ev) = RunEventType.tool_skipped

  abbrev pub turn_status : RunEvent P → Option ModelTurnStatus
  turn_status (RunEvent.model_turn ev) = some ev.status
  turn_status _ = none

  -- The summary of an event at the end of the events, if there is one; its index counts those before.
  abbrev pub LastOf : ℕ → List (RunEvent P) → Option VerificationRunContextLastEvent → Type 0
  LastOf first events o =
      ((events ≡ []) × (o ≡ none))
      ⊎ ((before : List (RunEvent P)) × (ev : RunEvent P) × (events ≡ before ++ ev ∷ [])
          × (o
              ≡ some (record {
                ingest_index = first + length before;
                type = event_type ev;
                model_turn_status = turn_status ev;
              })))

  -- A digest of the events of a run.
  pub record IsDigest (events : List (RunEvent P)) (c : VerificationRunContext) : Type 0 where
    pub retrievals : c.retrieval_events ≡ collect retrieval_of 0 events
    pub controls : c.control_events ≡ collect control_of 0 events
    pub model_turns : c.model_turn_events ≡ collect model_turn_of 0 events
    pub tools_skipped : c.tool_skipped_events ≡ collect tool_skipped_of 0 events
    pub by_seq :
        (seq : ℕ)
        → get_index seq c.tool_observed_ingest_index_by_seq ≡ last_index (has_seq seq) 0 events
    pub first_tool : c.first_tool_observed_ingest_index ≡ first_index is_tool_observed 0 events
    pub completed : c.has_run_completed_control ≡ any completes_run events
    pub wire : some c.max_wire_schema_version ≡ or_else (last_newer_version events) (some 1)
    pub last : LastOf 0 events c.last_run_event
