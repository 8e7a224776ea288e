-- ===== src/Tests/Checks.antt =====
-- The reconcilers, rollups and results on concrete inputs.
use agentskeptic.Prelude.{◌≡◌, ◌↔◌, refl, true, none, some, List, [], ◌∷◌, map, All}
use agentskeptic.Js.{nat, Value, Row}
use agentskeptic.WireReasonCodes.{SqlVerificationOutcomeCode}
use agentskeptic.Types.{
  Scalar, verified, missing, WorkflowStatus, workflow_execution, strong, normal,
  ResolvedRelationalCheck, aggregate, gte, AggregateFn,
}
use agentskeptic.SqlDialect.{sqlite}
use agentskeptic.ValueVerification.{ok, verification_scalars_equal}
use agentskeptic.ValueVerification.Agreement.{Agrees, equal-Agrees_iff}
use agentskeptic.Reconciler.{returned, thrown, reconcile_sql_row, because, passed}
use agentskeptic.Reconciler.Outcome.{is_proper, is_explained, sql_row-proper}
use agentskeptic.Reconciler.Absence.{row_absent_verdict, row_absent_remote_verdict}
use agentskeptic.Reconciler.Counting.{
  asked_values, count_statement, SqliteCount, RemoteCount, Decides,
}
use agentskeptic.Reconciler.{
  Answer, reconcile_sql_row_absent, build_row_absent_sql_plan, execute_row_absent_remote,
}
use agentskeptic.Prelude.{ℕ, suc}
use agentskeptic.Js.{Text}
use agentskeptic.SqlDialect.{bigquery}
use agentskeptic.Tests.{absent_request}
use agentskeptic.Reconciler.Verified.{Confirms, answer_of, sql_row-verified_iff}
use agentskeptic.RelationalInvariant.{reconcile_relational_query, relational_error, settle_scalar}
use agentskeptic.RelationalInvariant.Outcome.{relational_query-proper}
use agentskeptic.MultiEffectRollup.{
  EffectInput, CheckInput, compute_multi_check_rollup_status,
  rollup_multi_effects_from_reconciled_rows, rollup_sql_relational_from_reconciled, effect_rows,
  check_row,
}
use agentskeptic.MultiEffectRollup.Status.{status_of, rollup_status}
use agentskeptic.MultiEffectRollup.Order.{rollup_effects-perm, rollup_relational-perm}
use agentskeptic.VerificationDiagnostics.{
  StepOutcome, enrich_steps_with_failure_diagnostics, failure_diagnostic_for_step,
}
use agentskeptic.VerificationDiagnostics.Steps.{SameSteps, IsDiagnosed, enrich-IsDiagnosed}
use agentskeptic.Aggregate.{WorkflowEngineResult, workflow_status, aggregate_workflow}
use agentskeptic.Aggregate.Status.{is_complete, is_inconsistent, aggregate_status}
use agentskeptic.Tests.{runtime, request, answers, related, absent, effect_row, step}
use mathlib.Core.List.{Perm}
use mathlib.Core.List.Perm

equal-Agrees_iff_example :
    (verification_scalars_equal runtime (Scalar.number (nat 3)) (Value.number (nat 3)) ≡ ok)
    ↔ Agrees runtime (Scalar.number (nat 3)) (Value.number (nat 3))
equal-Agrees_iff_example = equal-Agrees_iff runtime (Scalar.number (nat 3)) (Value.number (nat 3))

sql_row-proper_example : is_proper (reconcile_sql_row runtime answers request) ≡ true
sql_row-proper_example = sql_row-proper runtime answers request

sql_row-verified_iff_example :
    (((reconcile_sql_row runtime answers request).status ≡ verified)
      ↔ Confirms runtime request (answer_of runtime answers request))
    × (((reconcile_sql_row runtime answers request).status ≡ missing)
        ↔ (answer_of runtime answers request ≡ returned []))
sql_row-verified_iff_example = sql_row-verified_iff runtime answers request

-- At least two rows are expected, and three are counted.
abbrev at_least_two : ResolvedRelationalCheck
at_least_two = aggregate (record {
  id = 99 ∷ [];
  table = 116 ∷ [];
  fn = AggregateFn.count_star;
  sum_column = none;
  where_eq = [];
  expect_op = gte;
  expect_value = nat 2;
})

abbrev three_counted : Row
three_counted = (118 ∷ [], Value.number (nat 3)) ∷ []

rollup_status_example :
    let rows = effect_row [] verified [] ∷ effect_row [] missing [] ∷ [] in
    let (s, reasons) = compute_multi_check_rollup_status runtime rows in
    (s ≡ status_of rows) × (is_explained s reasons ≡ true)
rollup_status_example =
    rollup_status runtime (effect_row [] verified [] ∷ effect_row [] missing [] ∷ [])

abbrev first_effect : EffectInput
first_effect = record {
  payload = record { id = 98 ∷ []; table = []; identity_eq = []; required_fields = [] };
  row = effect_row (98 ∷ []) verified [];
}

abbrev second_effect : EffectInput
second_effect = record {
  payload = record { id = 97 ∷ []; table = []; identity_eq = []; required_fields = [] };
  row = effect_row (97 ∷ []) missing [];
}

effects_swapped : Perm (first_effect ∷ second_effect ∷ []) (second_effect ∷ first_effect ∷ [])
effects_swapped = Perm.swap second_effect first_effect []

rollup_effects-perm_example :
    ((rollup_multi_effects_from_reconciled_rows runtime (first_effect ∷ second_effect ∷ [])).status
      ≡ (rollup_multi_effects_from_reconciled_rows runtime
          (second_effect ∷ first_effect ∷ [])).status)
    × ((rollup_multi_effects_from_reconciled_rows runtime
          (first_effect ∷ second_effect ∷ [])).status
        ≡ status_of (effect_rows (first_effect ∷ second_effect ∷ [])))
rollup_effects-perm_example =
    rollup_effects-perm runtime (first_effect ∷ second_effect ∷ [])
      (second_effect ∷ first_effect ∷ []) effects_swapped

abbrev reconciled : List CheckInput
reconciled = (related, absent) ∷ (related, passed []) ∷ []

abbrev reversed : List CheckInput
reversed = (related, passed []) ∷ (related, absent) ∷ []

checks_swapped : Perm reconciled reversed
checks_swapped = Perm.swap (related, passed []) (related, absent) []

rollup_relational-perm_example :
    ((rollup_sql_relational_from_reconciled runtime reconciled).status
      ≡ (rollup_sql_relational_from_reconciled runtime reversed).status)
    × ((rollup_sql_relational_from_reconciled runtime reconciled).status
        ≡ status_of (map check_row reconciled))
rollup_relational-perm_example = rollup_relational-perm runtime reconciled reversed checks_swapped

throws :
    reconcile_relational_query runtime {E = Unit} sqlite
      (λ s vs e. (thrown (110 ∷ []), e))
      related
      tt
    ≡ some (relational_error runtime related (110 ∷ []), tt)
unfolding reconcile_relational_query settle_scalar
throws = refl

relational_query-proper_example : is_proper (relational_error runtime related (110 ∷ [])) ≡ true
relational_query-proper_example =
    relational_query-proper runtime {E = Unit} sqlite (λ s vs e. (thrown (110 ∷ []), e)) related tt
      throws

abbrev failing_steps : List StepOutcome
failing_steps =
    step verified [] ∷ step missing (because SqlVerificationOutcomeCode.row_absent [] ∷ []) ∷ []

abbrev classified_steps : List StepOutcome
classified_steps =
    step verified []
    ∷ (record (step missing (because SqlVerificationOutcomeCode.row_absent [] ∷ [])) {
      failure_diagnostic = some workflow_execution;
    })
    ∷ []

classifies : enrich_steps_with_failure_diagnostics failing_steps ≡ some classified_steps
unfolding enrich_steps_with_failure_diagnostics failure_diagnostic_for_step
classifies = refl

enrich-IsDiagnosed_example :
    SameSteps failing_steps classified_steps
    × All IsDiagnosed classified_steps
    × (enrich_steps_with_failure_diagnostics classified_steps ≡ some classified_steps)
enrich-IsDiagnosed_example = enrich-IsDiagnosed failing_steps classified_steps classifies

abbrev result : WorkflowEngineResult
result = record {
  workflow_id = [];
  status = WorkflowStatus.inconsistent;
  run_level_reasons = [];
  verification_policy = strong (nat 0) (nat 0);
  event_sequence_integrity = normal;
  steps = classified_steps;
}

aggregates : aggregate_workflow [] failing_steps [] (strong (nat 0) (nat 0)) normal ≡ some result
unfolding aggregate_workflow workflow_status enrich_steps_with_failure_diagnostics
    failure_diagnostic_for_step
aggregates = refl

aggregate_status_example :
    ((result.status ≡ WorkflowStatus.complete) ↔ (is_complete failing_steps [] ≡ true))
    × ((result.status ≡ WorkflowStatus.inconsistent) ↔ (is_inconsistent failing_steps [] ≡ true))
aggregate_status_example =
    aggregate_status [] failing_steps [] (strong (nat 0) (nat 0)) normal aggregates

abbrev counts : Text → List Text → Answer
counts statement values = returned (((118 ∷ [], Value.number (nat 0)) ∷ []) ∷ [])

row_absent_verdict_example :
    let plan = build_row_absent_sql_plan runtime sqlite absent_request in
    let values = asked_values absent_request in
    Decides
      (SqliteCount (counts (count_statement runtime sqlite absent_request) values))
      (counts plan.sample_sql values)
      (reconcile_sql_row_absent runtime counts absent_request)
row_absent_verdict_example = row_absent_verdict runtime counts absent_request

-- The state counts the queries.
abbrev counts_then : Text → List Text → ℕ → Answer × ℕ
counts_then statement values n = (counts statement values, suc n)

row_absent_remote_verdict_example :
    let plan = build_row_absent_sql_plan runtime bigquery absent_request in
    let values = asked_values absent_request in
    let counted = counts_then (count_statement runtime bigquery absent_request) values 0 in
    Decides
      (RemoteCount runtime counted.0)
      (counts_then plan.sample_sql values counted.1).0
      (execute_row_absent_remote runtime counts_then bigquery absent_request 0).0
row_absent_remote_verdict_example =
    row_absent_remote_verdict runtime counts_then bigquery absent_request 0
