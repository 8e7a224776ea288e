-- ===== src/VerificationPolicy/Classified.antt =====
-- The outputs of the synchronous executor can be classified.
use agentskeptic.Prelude.{
  ◌≡◌, refl, Bool, true, false, Option, none, some, List, [], ◌∷◌, arith, inl, inr, if◌then◌else◌,
  Bool-cases, ap, sym, ◌∙◌,
}
use mathlib.Core.Path.{subst}
use mathlib.Core.Bool.{false≢true}
use agentskeptic.Prelude.{◌≢◌}
use agentskeptic.Js.{Text, Value, Row, Runtime, Number}
use agentskeptic.WireReasonCodes.{is_outcome, is_resolve_failure}
use agentskeptic.Types.{
  RowAbsentVerificationRequest, ResolvedRelationalCheck, related_exists, aggregate, join_count,
  anti_join, VerificationPolicy, strong, eventual, bounded,
}
use agentskeptic.SqlDialect.{SqlRowDialect, sqlite}
use agentskeptic.Reconciler.{
  build_row_absent_sql_plan, ReconcileOutput, Answer, returned, thrown, is_zero, reconcile_sql_row,
  absent_error, unusable_count, row_present, no_row, absent_counted, absent_answered,
  reconcile_sql_row_absent, absent_key_context, RowAbsentSqlPlan,
}
use agentskeptic.RelationalInvariant.{
  scalar_of, verdict, unusable, wants_samples, reconcile_relational_row, relational_error, sampled,
  with_samples, settle_scalar, send_scalar, Statement, reconcile_relational_query,
  reconcile_relational_sqlite, merge_anti_join_samples, build_relational_scalar_sql,
}
use agentskeptic.MultiEffectRollup.{
  PolicyExecutionOutput, build_rollup, rollup_multi_effects_sync,
  rollup_sql_relational_from_reconciled,
}
use agentskeptic.VerificationDiagnostics.{
  unreachable, failure_diagnostic_for_step, failure_diagnostic_for_incomplete_verification,
}
use agentskeptic.VerificationDiagnostics.Classified.{
  is_classified, Classified, Output, rollup-Classified, settle_rows-Classified,
}
use agentskeptic.VerificationPolicy.Input.{
  Result, done, thrown, exhausted, resolve_verification_policy_input,
}
use agentskeptic.VerificationPolicy.Execute.{
  Resolved, sql_row, sql_row_absent, sql_effects, sql_relational, state_witness, or_throw,
  relational_sqlite, witness_unavailable_sync, single_output, rolled_output, execute_strong_sync,
  if_strong, execute_verification_with_policy_sync,
}

-- What a call returns, if it returns, can be classified.
abbrev IsClassified : Result PolicyExecutionOutput → Type 0
IsClassified (done out) = Classified out.status out.reasons
IsClassified (thrown x) = Unit
IsClassified exhausted = Unit

abbrev IsClassifiedRec : Result ReconcileOutput → Type 0
IsClassifiedRec (done out) = Output out
IsClassifiedRec (thrown x) = Unit
IsClassifiedRec exhausted = Unit

module _ (js : Runtime) where
  verdict-Classified :
      (check : ResolvedRelationalCheck) (raw : Value) → Output (verdict js check raw)
  unfolding unusable failure_diagnostic_for_step failure_diagnostic_for_incomplete_verification
      is_outcome is_resolve_failure
  verdict-Classified (related_exists c) raw = ground arith
  verdict-Classified (anti_join c) raw = ground arith
  verdict-Classified (aggregate c) raw = ground arith
  verdict-Classified (join_count c) raw = ground arith

  row-Classified :
      (o : Option Row) (check : ResolvedRelationalCheck)
      → Output (reconcile_relational_row js o check)
  unfolding reconcile_relational_row failure_diagnostic_for_step
      failure_diagnostic_for_incomplete_verification is_outcome is_resolve_failure
  row-Classified none check = refl
  row-Classified (some row) check = verdict-Classified check (scalar_of row)

  module _ {E : Type 0} (dialect : SqlRowDialect) (query : Text → List Text → E → Answer × E) where
    sampled-Classified :
        (check : ResolvedRelationalCheck) (out : ReconcileOutput) (a : Answer)
        → Output out
        → Output (sampled js dialect query check out a)
    unfolding sampled relational_error merge_anti_join_samples failure_diagnostic_for_step
        failure_diagnostic_for_incomplete_verification is_outcome is_resolve_failure
    sampled-Classified check out (returned rows) h = h
    sampled-Classified check out (thrown m) h = refl

    with_samples-Classified :
        (check : ResolvedRelationalCheck) (out : ReconcileOutput) (e : E)
        → Output out
        → Output (with_samples js dialect query check out e).0
    unfolding with_samples
    with_samples-Classified (related_exists c) out e h = h
    with_samples-Classified (aggregate c) out e h = h
    with_samples-Classified (join_count c) out e h = h
    with_samples-Classified (anti_join c) out e h = elim (Bool-cases (wants_samples js out)) [
      | inl w ↦ rw (w, with_samples) (sampled-Classified (anti_join c) out _ h)
      | inr w ↦ rw (w, with_samples) h
    ]

    settle-Classified :
        (check : ResolvedRelationalCheck) (a : Answer) (e : E)
        → Output (settle_scalar js dialect query check a e).0
    unfolding settle_scalar relational_error failure_diagnostic_for_step
        failure_diagnostic_for_incomplete_verification is_outcome is_resolve_failure
    settle-Classified check (returned rows) e =
        with_samples-Classified check _ e (row-Classified _ check)
    settle-Classified check (thrown m) e = refl

  absent_counted-Classified :
      (query : Text → List Text → Answer) (req : RowAbsentVerificationRequest)
      (plan : RowAbsentSqlPlan) (raw : Value) (count : Option Number)
      → Output (absent_counted js query req plan raw count)
  unfolding absent_counted unusable_count no_row row_present absent_error
      failure_diagnostic_for_step failure_diagnostic_for_incomplete_verification is_outcome
      is_resolve_failure
  absent_counted-Classified query req plan raw none = refl
  absent_counted-Classified query req plan raw (some n) =
      sample (is_zero n) (query plan.sample_sql plan.values)
    where
      sample :
          (zero : Bool) (a : Answer)
          → Output (if zero then no_row js else row_present js (absent_key_context req) n a)
      sample true a = refl
      sample false (returned rows) = refl
      sample false (thrown m) = refl

  absent-Classified :
      (query : Text → List Text → Answer) (req : RowAbsentVerificationRequest)
      (plan : RowAbsentSqlPlan) (a : Answer)
      → Output (absent_answered js query req plan a)
  unfolding absent_answered absent_error failure_diagnostic_for_step
      failure_diagnostic_for_incomplete_verification is_outcome is_resolve_failure
  absent-Classified query req plan (returned rows) = absent_counted-Classified query req plan _ _
  absent-Classified query req plan (thrown m) = refl

  module _ (query : Text → List Text → Answer) where
    relational_sqlite-Classified :
        (check : ResolvedRelationalCheck) → IsClassifiedRec (relational_sqlite js query check)
    unfolding relational_sqlite reconcile_relational_sqlite reconcile_relational_query
    relational_sqlite-Classified check = send (build_relational_scalar_sql js sqlite check)
      where
        send :
            (s : Option Statement)
            → IsClassifiedRec (
                or_throw
                  (elim (send_scalar js {E = Unit {0}} sqlite
                    (λ t vs e. (query t vs, e))
                    check
                    s
                    tt) [ none ↦ none | some (out, e) ↦ some out ]))
        send none = tt
        send (some (statement, values)) =
            settle-Classified {E = Unit {0}} sqlite (λ t vs e. (query t vs, e)) check _ tt

    single-Classified :
        (check : ResolvedRelationalCheck) (r : Result ReconcileOutput)
        → IsClassifiedRec r
        → IsClassified (single_output js query check r)
    single-Classified check (done out) h = h
    single-Classified check (thrown x) h = tt
    single-Classified check exhausted h = tt

    rolled-Classified : (r : Result _) → IsClassified (rolled_output js query r)
    unfolding rollup_sql_relational_from_reconciled
    rolled-Classified (done pairs) = rollup-Classified js _
    rolled-Classified (thrown x) = tt
    rolled-Classified exhausted = tt

    strong-Classified : (resolved : Resolved) → IsClassified (execute_strong_sync js query resolved)
    unfolding execute_strong_sync witness_unavailable_sync reconcile_sql_row
        reconcile_sql_row_absent rollup_multi_effects_sync build_rollup failure_diagnostic_for_step
        failure_diagnostic_for_incomplete_verification is_outcome is_resolve_failure
    strong-Classified (sql_row q) = settle_rows-Classified js q _
    strong-Classified (sql_row_absent q) =
        absent-Classified query q (build_row_absent_sql_plan js sqlite q) _
    strong-Classified (sql_effects es) = rollup-Classified js _
    strong-Classified (sql_relational []) = rolled-Classified _
    strong-Classified (sql_relational (c ∷ [])) =
        single-Classified c _ (relational_sqlite-Classified c)
    strong-Classified (sql_relational (c ∷ d ∷ cs)) = rolled-Classified _
    strong-Classified (state_witness q) = refl

    by_policy-Classified :
        (resolved : Resolved) (p : Result VerificationPolicy)
        → IsClassified (if_strong js query resolved p)
    by_policy-Classified resolved (done (strong w p)) = strong-Classified resolved
    by_policy-Classified resolved (done (eventual w p)) = tt
    by_policy-Classified resolved (done (bounded w p s)) = tt
    by_policy-Classified resolved (thrown x) = tt
    by_policy-Classified resolved exhausted = tt

-- Whatever the database answers and whatever is checked, an output that the synchronous executor returns can be
-- classified: its status and reasons never reach the error of an unreachable classification.
pub execute_sync-classifies :
    (js : Runtime) (query : Text → List Text → Answer) (resolved : Resolved)
    (policy : VerificationPolicy) {out : PolicyExecutionOutput}
    → execute_verification_with_policy_sync js query resolved policy ≡ done out
    → failure_diagnostic_for_step out.status out.reasons ≢ unreachable
unfolding execute_verification_with_policy_sync
execute_sync-classifies js query resolved policy {out} h q =
    let classified : Classified out.status out.reasons =
      subst IsClassified h (
        by_policy-Classified js query resolved (resolve_verification_policy_input (some policy))) in
    false≢true (sym (ap is_classified q) ∙ classified)
