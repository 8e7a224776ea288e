-- ===== src/FailureCatalog.antt =====
-- failureCatalog.ts: one-line operational messages, and the reasons with fixed messages.
pub mod Message
use agentskeptic.Prelude.{
  ℕ, ◌-◌, Bool, false, ◌&&◌, ◌||◌, none, List, [], ◌∷◌, ◌++◌, map, length, take, ltb, ◌==◌,
  if◌then◌else◌,
}
use agentskeptic.Js.{Text, Number, Runtime, text, trim}
use agentskeptic.WireReasonCodes.{
  RunLevelCode, EventSequenceCode, run_level, event_sequence, malformed_event_line,
  no_steps_for_workflow, langgraph_checkpoint_trust_non_v3_tool_observed,
  timestamp_not_monotonic_with_seq_sort_order, capture_order_not_monotonic_in_seq,
}
use agentskeptic.Types.{Reason}

abbrev pub operational_message_max_chars : ℕ
operational_message_max_chars = 2048

-- `/\t|\r|\n/g` becomes a space.
unfoldable pub unbreak : ℕ → ℕ
unbreak c = if c == 9 || c == 13 || c == 10 then 32 else c

abbrev pub starts_with_space : Text → Bool
starts_with_space [] = false
starts_with_space (c ∷ s) = c == 32

-- `/ +/g` becomes a single space.
unfoldable pub squeeze : Text → Text
squeeze [] = []
squeeze (c ∷ s) = let rest = squeeze s in if c == 32 && starts_with_space s then rest else c ∷ rest

-- The cut to the longest message that is shown.
unfoldable pub limit : Text → Text
limit s =
    if ltb operational_message_max_chars (length s)
    then take (operational_message_max_chars - 3) s ++ text "..."
    else s

unfoldable pub format_operational_message : Text → Text
unfolding unbreak squeeze limit
format_operational_message raw = limit (trim (squeeze (map unbreak raw)))

unfoldable pub run_level_message : RunLevelCode → Text
run_level_message malformed_event_line =
    text "Event line was missing, invalid JSON, or failed schema validation for a tool observation."
run_level_message no_steps_for_workflow =
    text "No tool_observed events for this workflow id after filtering."
run_level_message langgraph_checkpoint_trust_non_v3_tool_observed =
    text
      "LangGraph checkpoint trust requires every tool_observed line for this workflow to use schemaVersion 3 with langgraphCheckpoint."

unfoldable pub run_level_issue : RunLevelCode → Reason
unfolding run_level_message
run_level_issue c = record { code = run_level c; message = run_level_message c; field = none }

-- `eventSequenceIssue("CAPTURE_ORDER_NOT_MONOTONIC_IN_SEQ")`, the one entry of its table.
unfoldable pub event_sequence_issue : Reason
event_sequence_issue = record {
  code = event_sequence capture_order_not_monotonic_in_seq;
  message =
      text
        "Capture order was not non-decreasing in seq; planning and verification used seq-sorted order, not arrival order.";
  field = none;
}

unfoldable pub event_sequence_timestamp_not_monotonic_reason : Runtime → Number → Number → Reason
event_sequence_timestamp_not_monotonic_reason js before after = record {
  code = event_sequence timestamp_not_monotonic_with_seq_sort_order;
  message =
      text "In seq-sorted order, timestamp decreased between seq "
      ++ js.number_text before
      ++ text " and seq "
      ++ js.number_text after
      ++ text ".";
  field = none;
}
