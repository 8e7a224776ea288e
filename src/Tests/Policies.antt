-- ===== src/Tests/Policies.antt =====
-- The policy executor on environments whose clock is the state.
use agentskeptic.Prelude.{ℕ, ◌≡◌, ◌≢◌, Option, ◌⊎◌, refl, none, some, List, arith}
use agentskeptic.Js.{Text, number_le, number_eq, row_get, text_eq, nat}
use agentskeptic.Prelude.Sort.{sort}
use agentskeptic.ValueVerification.{verification_scalars_equal}
use agentskeptic.Types.{
  ResolvedRelationalCheck, VerificationPolicy, strong, eventual, StepVerificationRequest,
}
use agentskeptic.Reconciler.{
  Answer, ReconcileOutput, reconcile_sql_row, reconcile_from_rows, check_fields, check_field,
  lower_keys, build_select_by_identity_sql_sqlite,
}
use agentskeptic.MultiEffectRollup.{PolicyExecutionOutput}
use agentskeptic.VerificationPolicy.Input.{
  Failure, done, thrown, exhausted, resolve_verification_policy_input,
  normalize_verification_policy,
}
use agentskeptic.VerificationPolicy.Eventual.{
  output_of, poll, poll_from_start, execute_sql_row_eventual,
}
use agentskeptic.VerificationPolicy.Execute.{
  sql_row, relational_sqlite, or_throw, execute_verification_with_policy_async,
  execute_verification_with_policy_sync, execute_waiting, create_sqlite_policy_context,
}
use agentskeptic.Tests.{fails}
use agentskeptic.VerificationPolicy.Classified.{execute_sync-classifies}
use agentskeptic.VerificationDiagnostics.{failure_diagnostic_for_step, unreachable}
use agentskeptic.VerificationPolicy.Execute.{execute_strong_sync}
use agentskeptic.VerificationPolicy.Input.{policy_failure}
use agentskeptic.VerificationPolicy.Valid.{
  IsAccepted, ResolvesTo, IsInvalidPolicy, resolve-IsAccepted,
}
use agentskeptic.VerificationPolicy.CheckWaiting.{CheckWaits}
use agentskeptic.VerificationPolicy.RowWaiting.{Observed, WindowPassed}
use agentskeptic.VerificationPolicy.Uncertain.{build_uncertain_sql_row}
use agentskeptic.VerificationPolicy.Waiting.{waiting-NotMissing, sql_row_eventual-ends}
use agentskeptic.VerificationPolicy.Termination.{IsLive, execute-total}
use agentskeptic.VerificationPolicy.Agreement.{execute_async-sync}
use agentskeptic.Tests.{runtime, request, answers, answers_at, no_answers, timed}

abbrev policy : VerificationPolicy
policy = eventual (nat 5) (nat 1)

or_throw-ends : (o : Option ReconcileOutput) → or_throw o ≢ exhausted
or_throw-ends none h = cc h
or_throw-ends (some out) h = cc h

relational_sqlite-ends :
    (query : Text → List Text → Answer) (check : ResolvedRelationalCheck)
    → relational_sqlite runtime query check ≢ exhausted
unfolding relational_sqlite
relational_sqlite-ends query check = or_throw-ends _

timed-IsLive : IsLive (timed answers_at)
timed-IsLive = record {
  advancing = record { now_le = λ e. omega arith; sleep_lt = λ n e h. omega arith };
  row = λ r. record { clock_le = λ e. omega arith; ends = λ e h. cc h };
  absent = λ r. record { clock_le = λ e. omega arith; ends = λ e h. cc h };
  relational = λ c. record {
    clock_le = λ e. omega arith;
    ends = λ e. relational_sqlite-ends (answers_at e) c;
  };
  witness = λ r. record { clock_le = λ e. omega arith; ends = λ e h. cc h };
}

execute-total_example :
    (execute_verification_with_policy_async runtime
      (timed answers_at)
      6
      (sql_row request)
      policy
      0).0
    ≢ exhausted
execute-total_example =
    execute-total (timed answers_at) runtime timed-IsLive (sql_row request) policy 6 0 (omega arith)

execute_async-sync_example :
    execute_verification_with_policy_async runtime
      (create_sqlite_policy_context runtime answers (λ (t : ℕ). (t, t)) (λ n t. t))
      0
      (sql_row request)
      (strong (nat 7) (nat 9))
      4
    ≡ (
      execute_verification_with_policy_sync runtime answers
          (sql_row request)
          (strong (nat 7) (nat 9)),
      4,
    )
execute_async-sync_example =
    execute_async-sync runtime answers (λ (t : ℕ). (t, t)) (λ n t. t) (sql_row request) (nat 7)
      (nat 9) 0 4 tt

-- The row is not found in six rounds, and the clock shows 5.
abbrev expired : PolicyExecutionOutput
expired = build_uncertain_sql_row request 6 (nat 5) policy

expires : (execute_sql_row_eventual (timed no_answers) policy 6 request 0).0 ≡ done expired
unfolding execute_sql_row_eventual poll_from_start poll reconcile_sql_row reconcile_from_rows
    check_fields check_field lower_keys number_le build_select_by_identity_sql_sqlite sort row_get
    text_eq verification_scalars_equal number_eq
expires = refl

sql_row_eventual-ends_example :
    Observed (timed no_answers) policy request 0 0 expired
    ⊎ WindowPassed (timed no_answers) policy request 0 0 expired
sql_row_eventual-ends_example = sql_row_eventual-ends (timed no_answers) policy 6 0 request expires

waits : (execute_waiting runtime (timed no_answers) policy 6 (sql_row request) 0).0 ≡ done expired
unfolding execute_waiting
waits = expires

waiting-NotMissing_example :
    CheckWaits runtime (timed no_answers) policy 0 expired (sql_row request)
waiting-NotMissing_example =
    waiting-NotMissing runtime (timed no_answers) policy 6 0 (sql_row request) tt waits

resolve-IsAccepted_example :
    (IsAccepted policy
      → (q : VerificationPolicy) × (resolve_verification_policy_input (some policy) ≡ done q)
        × ResolvesTo policy q)
    × (¬ IsAccepted policy
        → (f : Failure) × (resolve_verification_policy_input (some policy) ≡ thrown f)
          × IsInvalidPolicy f)
resolve-IsAccepted_example = resolve-IsAccepted policy

abbrev failed_output : PolicyExecutionOutput
failed_output =
    output_of (StepVerificationRequest.sql_row request) (reconcile_sql_row runtime fails request)

returns :
    execute_verification_with_policy_sync runtime fails (sql_row request) (strong (nat 0) (nat 0))
    ≡ done failed_output
unfolding execute_verification_with_policy_sync execute_strong_sync
    resolve_verification_policy_input policy_failure normalize_verification_policy
returns = refl

execute_sync-classifies_example :
    failure_diagnostic_for_step failed_output.status failed_output.reasons ≢ unreachable
execute_sync-classifies_example =
    execute_sync-classifies runtime fails (sql_row request) (strong (nat 0) (nat 0)) returns
