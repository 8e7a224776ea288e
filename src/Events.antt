-- ===== src/Events.antt =====
-- planLogicalSteps.ts, eventSequenceIntegrity.ts and prepareWorkflowEvents.ts: the order of the observed
-- tool calls of a workflow, and the logical steps they make. A `seq` is a whole number of at least zero, as the schema of events requires; the
-- canonical text of the parameters and the parsed time are parameters.
pub mod Integrity
pub mod Params
pub mod Plan
pub mod Steps
use agentskeptic.Prelude.{
  ℕ, suc, Bool, true, false, not, ◌&&◌, ◌||◌, Option, none, some, List, [], ◌∷◌, ◌++◌, map, any,
  length, ltb, leb, ◌==◌, if◌then◌else◌,
}
use agentskeptic.Prelude.Sort.{sort}
use agentskeptic.Js.{Text, Number, Runtime, nat, number_lt, is_finite, text_eq}
use agentskeptic.Types.{Reason, EventSequenceIntegrity, normal, irregular}
use agentskeptic.FailureCatalog.{
  event_sequence_issue, event_sequence_timestamp_not_monotonic_reason,
}

-- `langgraphCheckpoint` of an event of version 3.
pub record LanggraphCheckpoint : Type 0 where
  pub thread_id : Text
  pub checkpoint_ns : Text
  pub checkpoint_id : Text

-- `schemaVersion`, with what only an event of that version carries and the code reads.
pub data EventVersion : Type 0 where
  v1 v2 : EventVersion
  v3 : LanggraphCheckpoint → EventVersion

-- `ToolObservedEvent`, but for the identifiers in the run's graph, which are not read here. `P` is the type of the parameters of a tool
-- call.
pub record ToolObservedEvent (P : Type 0) : Type 0 where
  pub workflow_id : Text
  pub seq : ℕ
  pub tool_id : Text
  pub params : P
  pub timestamp : Option Text
  pub version : EventVersion

-- `ev.seq < maxSeqSeen`, where none is -Infinity.
abbrev pub below_seen : ℕ → Option ℕ → Bool
below_seen s none = false
below_seen s (some seen) = ltb s seen

-- `Math.max(maxSeqSeen, ev.seq)`.
abbrev pub max_seen : Option ℕ → ℕ → ℕ
max_seen none s = s
max_seen (some seen) s = if ltb s seen then seen else s

abbrev finite_or_none : Number → Option Number
finite_or_none n = if is_finite n then some n else none

-- `date_parse` is `Date.parse`.
unfoldable pub parse_timestamp_ms : (Text → Number) → Option Text → Option Number
parse_timestamp_ms date_parse none = none
parse_timestamp_ms date_parse (some ts) = finite_or_none (date_parse ts)

-- Both times are known, and the second is before the first.
abbrev pub goes_back : Option Number → Option Number → Bool
goes_back none tb = false
goes_back (some ta) none = false
goes_back (some ta) (some tb) = number_lt tb ta

abbrev pub capture_reasons : Bool → List Reason
capture_reasons true = event_sequence_issue ∷ []
capture_reasons false = []

abbrev pub integrity_of : List Reason → EventSequenceIntegrity
integrity_of [] = normal
integrity_of (r ∷ rs) = irregular (r ∷ rs)

module _ {P : Type 0} where
  -- `a.seq - b.seq <= 0`.
  abbrev pub seq_le : ToolObservedEvent P → ToolObservedEvent P → Bool
  seq_le a b = leb a.seq b.seq

  unfoldable pub stable_sort_events_by_seq : List (ToolObservedEvent P) → List (ToolObservedEvent P)
  stable_sort_events_by_seq events = sort seq_le events

  -- The loop over the events in capture order: whether `captureIrregular` is set.
  unfoldable pub capture_irregular : Option ℕ → List (ToolObservedEvent P) → Bool
  capture_irregular seen [] = false
  capture_irregular seen (ev ∷ evs) =
      below_seen ev.seq seen || capture_irregular (some (max_seen seen ev.seq)) evs

  module _ (js : Runtime) (date_parse : Text → Number) where
    abbrev pub times_go_back : ToolObservedEvent P → ToolObservedEvent P → Bool
    times_go_back a b =
        goes_back (parse_timestamp_ms date_parse a.timestamp)
          (parse_timestamp_ms date_parse b.timestamp)

    -- The loop over neighbours in the sorted order: the reason it adds before it breaks.
    unfoldable pub timestamp_reasons : List (ToolObservedEvent P) → List Reason
    unfolding parse_timestamp_ms
    timestamp_reasons [] = []
    timestamp_reasons (a ∷ []) = []
    timestamp_reasons (a ∷ b ∷ evs) =
        let rest = timestamp_reasons (b ∷ evs) in
        if times_go_back a b
        then event_sequence_timestamp_not_monotonic_reason js (nat a.seq) (nat b.seq) ∷ []
        else rest

    unfoldable pub analyze_event_sequence_integrity :
        List (ToolObservedEvent P) → EventSequenceIntegrity
    unfolding capture_irregular timestamp_reasons stable_sort_events_by_seq
    analyze_event_sequence_integrity [] = normal
    analyze_event_sequence_integrity (ev ∷ evs) = integrity_of (
        capture_reasons (capture_irregular none (ev ∷ evs))
        ++ timestamp_reasons (stable_sort_events_by_seq (ev ∷ evs)))

    unfoldable pub prepare_workflow_events :
        List (ToolObservedEvent P) → List (ToolObservedEvent P) × EventSequenceIntegrity
    unfolding analyze_event_sequence_integrity stable_sort_events_by_seq
    prepare_workflow_events capture =
        (stable_sort_events_by_seq capture, analyze_event_sequence_integrity capture)
