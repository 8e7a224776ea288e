-- ===== src/VerificationDiagnostics.antt =====
-- verificationDiagnostics.ts: the class of a step's failure.
pub mod Steps
pub mod Summary
pub mod Classified
use agentskeptic.Prelude.{
  Bool, true, false, ◌||◌, Option, none, some, List, [], ◌∷◌, map, any, if◌then◌else◌,
}
use agentskeptic.Prelude.{ℕ}
use agentskeptic.Js.{Text, Number}
use agentskeptic.WireReasonCodes.{SqlVerificationOutcomeCode, is_outcome, is_resolve_failure}
use agentskeptic.Types.{
  StepVerificationRequest, StepStatus, verified, missing, inconsistent, incomplete_verification,
  partially_verified, uncertain, Reason, FailureDiagnostic, workflow_execution, verification_setup,
  observation_uncertainty,
}
use agentskeptic.Types.Evidence.{StepEvidence}

-- types.ts: `StepOutcome`.
pub record StepOutcome : Type 0 where
  pub seq : Number
  pub tool_id : Text
  pub release_critical : Bool
  pub narrative : Text
  pub params_canonical : Text
  pub verification_request : StepVerificationRequest
  pub status : StepStatus
  pub reasons : List Reason
  pub evidence : StepEvidence
  pub repeat_observation_count : ℕ
  pub evaluated_observation_ordinal : ℕ
  pub failure_diagnostic : Option FailureDiagnostic
  pub langgraph_checkpoint_key : Option Text

-- `C.has(code)` for the set of the reasons' codes.
abbrev pub has : SqlVerificationOutcomeCode → List Reason → Bool
has c = any (λ (r : Reason). is_outcome c r.code)

abbrev pub has_setup_code : List Reason → Bool
has_setup_code rs =
    has SqlVerificationOutcomeCode.connector_error rs
    || has SqlVerificationOutcomeCode.row_shape_mismatch rs
    || has SqlVerificationOutcomeCode.unreadable_value rs
    || has SqlVerificationOutcomeCode.relational_scalar_unusable rs

abbrev pub has_witness_code : List Reason → Bool
has_witness_code rs =
    has SqlVerificationOutcomeCode.state_witness_unavailable_in_sqlite_file_mode rs
    || has SqlVerificationOutcomeCode.state_witness_setup_error rs
    || has SqlVerificationOutcomeCode.vector_provider_error rs
    || has SqlVerificationOutcomeCode.http_witness_network_error rs

-- `none` is the error "Unreachable incomplete_verification classification".
unfoldable pub failure_diagnostic_for_incomplete_verification :
    List Reason → Option FailureDiagnostic
failure_diagnostic_for_incomplete_verification rs =
    if has SqlVerificationOutcomeCode.retry_observations_diverge rs
    then some workflow_execution
    else if has SqlVerificationOutcomeCode.multi_effect_incomplete rs
    then some verification_setup
    else if has SqlVerificationOutcomeCode.unknown_tool rs
    then some verification_setup
    else if any (λ (r : Reason). is_resolve_failure r.code) rs
    then some verification_setup
    else if has_setup_code rs
    then some verification_setup
    else if has_witness_code rs
    then some verification_setup
    else none

-- What `failureDiagnosticForStep` does: omits the class, gives one, or throws.
pub data Diagnosis : Type 0 where
  omitted : Diagnosis
  given : FailureDiagnostic → Diagnosis
  unreachable : Diagnosis

abbrev pub or_unreachable : Option FailureDiagnostic → Diagnosis
or_unreachable none = unreachable
or_unreachable (some d) = given d

unfoldable pub failure_diagnostic_for_step : StepStatus → List Reason → Diagnosis
failure_diagnostic_for_step verified rs = omitted
failure_diagnostic_for_step uncertain rs = given observation_uncertainty
failure_diagnostic_for_step missing rs = given workflow_execution
failure_diagnostic_for_step inconsistent rs = given workflow_execution
failure_diagnostic_for_step partially_verified rs = given workflow_execution
failure_diagnostic_for_step incomplete_verification rs =
    or_unreachable (failure_diagnostic_for_incomplete_verification rs)

abbrev pub strip_failure_diagnostic : StepOutcome → StepOutcome
strip_failure_diagnostic s = record s { failure_diagnostic = none }

-- `none` where the classification throws.
abbrev pub diagnosed : StepOutcome → Diagnosis → Option StepOutcome
diagnosed s omitted = some (strip_failure_diagnostic s)
diagnosed s (given d) = some (record s { failure_diagnostic = some d })
diagnosed s unreachable = none

unfoldable pub with_failure_diagnostic : StepOutcome → Option StepOutcome
with_failure_diagnostic s = diagnosed s (failure_diagnostic_for_step s.status s.reasons)

abbrev pub cons_some : Option StepOutcome → Option (List StepOutcome) → Option (List StepOutcome)
cons_some none rest = none
cons_some (some s) none = none
cons_some (some s) (some rest) = some (s ∷ rest)

unfoldable pub enrich_steps_with_failure_diagnostics : List StepOutcome → Option (List StepOutcome)
unfolding with_failure_diagnostic
enrich_steps_with_failure_diagnostics [] = some []
enrich_steps_with_failure_diagnostics (s ∷ ss) =
    cons_some (with_failure_diagnostic (strip_failure_diagnostic s))
      (enrich_steps_with_failure_diagnostics ss)
