-- ===== src/Aggregate.antt =====
-- aggregate.ts: the status of a workflow from its steps. The run context, which the function leaves empty, is
-- not among the fields.
pub mod Status
use agentskeptic.Prelude.{
  Bool, true, false, ◌||◌, not, Option, none, some, List, [], ◌∷◌, ◌++◌, any, all, is_empty,
  if◌then◌else◌,
}
use agentskeptic.Js.{Text}
use agentskeptic.WireReasonCodes.{no_steps_for_workflow}
use agentskeptic.Types.{
  StepStatus, verified, missing, inconsistent, incomplete_verification, partially_verified,
  uncertain, Reason, VerificationPolicy, WorkflowStatus, EventSequenceIntegrity,
}
use agentskeptic.FailureCatalog.{run_level_issue}
use agentskeptic.Reconciler.Outcome.{is_verified}
use agentskeptic.VerificationDiagnostics.{StepOutcome, enrich_steps_with_failure_diagnostics}

pub record WorkflowEngineResult : Type 0 where
  pub workflow_id : Text
  pub status : WorkflowStatus
  pub run_level_reasons : List Reason
  pub verification_policy : VerificationPolicy
  pub event_sequence_integrity : EventSequenceIntegrity
  pub steps : List StepOutcome

abbrev pub is_incomplete_status : StepStatus → Bool
is_incomplete_status incomplete_verification = true
is_incomplete_status _ = false

abbrev pub is_bad_status : StepStatus → Bool
is_bad_status missing = true
is_bad_status inconsistent = true
is_bad_status partially_verified = true
is_bad_status _ = false

-- `[...runLevelReasonsIncoming]`, and the reason that there is no step.
abbrev pub all_reasons : List StepOutcome → List Reason → List Reason
all_reasons [] incoming = incoming ++ run_level_issue no_steps_for_workflow ∷ []
all_reasons (s ∷ ss) incoming = incoming

unfoldable pub workflow_status : List StepOutcome → List Reason → WorkflowStatus
workflow_status steps reasons =
    if not (is_empty reasons)
      || is_empty steps
      || any (λ (s : StepOutcome). is_incomplete_status s.status) steps
    then WorkflowStatus.incomplete
    else if any (λ (s : StepOutcome). is_bad_status s.status) steps
    then WorkflowStatus.inconsistent
    else if all (λ (s : StepOutcome). is_verified s.status) steps
    then WorkflowStatus.complete
    else WorkflowStatus.incomplete

abbrev pub with_steps :
    Text
    → WorkflowStatus
    → List Reason
    → VerificationPolicy
    → EventSequenceIntegrity
    → Option (List StepOutcome)
    → Option WorkflowEngineResult
with_steps id status reasons policy integrity none = none
with_steps id status reasons policy integrity (some steps) = some (record {
  workflow_id = id;
  status = status;
  run_level_reasons = reasons;
  verification_policy = policy;
  event_sequence_integrity = integrity;
  steps = steps;
})

-- `none` where the classification of a step throws.
unfoldable pub aggregate_workflow :
    Text
    → List StepOutcome
    → List Reason
    → VerificationPolicy
    → EventSequenceIntegrity
    → Option WorkflowEngineResult
unfolding workflow_status
aggregate_workflow id steps incoming policy integrity =
    let reasons = all_reasons steps incoming in
    with_steps id (workflow_status steps reasons) reasons policy integrity
      (enrich_steps_with_failure_diagnostics steps)
