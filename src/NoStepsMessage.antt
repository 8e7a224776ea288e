-- ===== src/NoStepsMessage.antt =====
-- noStepsMessage.ts: the message of the reason that a workflow has no steps, with what the file of events held.
use agentskeptic.Prelude.{ℕ, List, map, ◌++◌}
use agentskeptic.Js.{Text, Runtime, text, nat}
use agentskeptic.WireReasonCodes.{Code, run_level, no_steps_for_workflow}
use agentskeptic.Types.{Reason}

-- types.ts: `EventFileAggregateCounts`.
pub record EventFileAggregateCounts : Type 0 where
  pub event_file_non_empty_lines : ℕ
  pub schema_valid_events : ℕ
  pub tool_observed_for_requested_workflow_id : ℕ
  pub tool_observed_for_other_workflow_ids : ℕ

module _ (js : Runtime) (workflow_id : Text) (counts : EventFileAggregateCounts) where
  abbrev count_text : ℕ → Text
  count_text n = js.number_text (nat n)

  unfoldable pub format_no_steps_for_workflow_message : Text
  format_no_steps_for_workflow_message =
      text "No tool_observed events for workflowId "
      ++ js.json_text workflow_id
      ++ text " after filtering. event_file_non_empty_lines="
      ++ count_text counts.event_file_non_empty_lines
      ++ text " schema_valid_events="
      ++ count_text counts.schema_valid_events
      ++ text " tool_observed_for_workflow="
      ++ count_text counts.tool_observed_for_requested_workflow_id
      ++ text " tool_observed_other_workflows="
      ++ count_text counts.tool_observed_for_other_workflow_ids
      ++ text "."

  abbrev with_message : Reason → Code → Reason
  with_message r (run_level no_steps_for_workflow) = record r {
    message = format_no_steps_for_workflow_message;
  }
  with_message r _ = r

  unfoldable pub enrich_no_steps_run_level_reasons : List Reason → List Reason
  unfolding format_no_steps_for_workflow_message
  enrich_no_steps_run_level_reasons reasons = map (λ (r : Reason). with_message r r.code) reasons
