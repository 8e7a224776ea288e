-- ===== src/VerificationPolicy/Execute.antt =====
-- verificationPolicy.ts: `executeVerificationWithPolicySync`, `executeVerificationWithPolicyAsync` and the
-- SQLite context; resolveExpectation.ts: the kinds of resolved checks.
use agentskeptic.Prelude.{ℕ, Option, none, some, List, [], ◌∷◌}
use agentskeptic.Js.{Text, Number, Runtime, text}
use agentskeptic.WireReasonCodes.{SqlVerificationOutcomeCode}
use agentskeptic.Types.{
  VerificationRequest, RowAbsentVerificationRequest, ResolvedEffect, ResolvedRelationalCheck,
  StateWitnessRequest, vector_document, object_storage_object, http_witness, mongo_document,
  StepVerificationRequest, incomplete_verification, VerificationPolicy, strong, eventual, bounded,
}
use agentskeptic.Types.Evidence.{Key, EvidenceValue, StepField}
use agentskeptic.Reconciler.{
  ReconcileOutput, Answer, because, failed, reconcile_sql_row, reconcile_sql_row_absent,
}
use agentskeptic.RelationalInvariant.{reconcile_relational_sqlite}
use agentskeptic.MultiEffectRollup.{
  PolicyExecutionOutput, rollup_multi_effects_from_reconciled_rows, rollup_multi_effects_sync,
  rollup_sql_relational_from_reconciled, CheckInput,
}
use agentskeptic.VerificationPolicy.Input.{
  internal_error, truth_layer_error, other_error, Result, done, thrown, exhausted,
  resolve_verification_policy_input,
}
use agentskeptic.VerificationPolicy.Run.{Run, pure, ◌>>=◌, all_settled, Environment}
use agentskeptic.VerificationPolicy.Classify.{to_effect_inputs}
use agentskeptic.VerificationPolicy.Eventual.{
  output_of, execute_state_witness_eventual, execute_sql_row_eventual,
  execute_sql_row_absent_eventual, execute_sql_effects_eventual,
  execute_sql_relational_single_eventual, execute_sql_relational_eventual,
}

-- `Extract<ResolveResult, { ok: true }>`; the four state witness kinds are one constructor.
pub data Resolved : Type 0 where
  sql_row : VerificationRequest → Resolved
  sql_row_absent : RowAbsentVerificationRequest → Resolved
  sql_effects : List ResolvedEffect → Resolved
  sql_relational : List ResolvedRelationalCheck → Resolved
  state_witness : StateWitnessRequest → Resolved

abbrev verification_kind : StateWitnessRequest → Text
verification_kind (vector_document r) = text "vector_document"
verification_kind (object_storage_object r) = text "object_storage_object"
verification_kind (http_witness r) = text "http_witness"
verification_kind (mongo_document r) = text "mongo_document"

-- The error that `buildRelationalScalarSql` throws.
abbrev pub or_throw : Option ReconcileOutput → Result ReconcileOutput
or_throw none = thrown (other_error (text "SUM requires sumColumn"))
or_throw (some out) = done out

module _ (js : Runtime) (all : Text → List Text → Answer) where
  unfoldable pub relational_sqlite : ResolvedRelationalCheck → Result ReconcileOutput
  unfolding reconcile_relational_sqlite
  relational_sqlite check = or_throw (reconcile_relational_sqlite js all check)

  -- `checks.map((c) => reconcileRelationalSqlite(db, c))`: the first error is thrown.
  unfoldable pub map_relational : List ResolvedRelationalCheck → Result (List CheckInput)
  map_relational [] = done []
  map_relational (c ∷ cs) = elim (relational_sqlite c) [
    | thrown x ↦ thrown x
    | exhausted ↦ exhausted
    | done out ↦ elim (map_relational cs) [
      | thrown x ↦ thrown x
      | exhausted ↦ exhausted
      | done outs ↦ done ((c, out) ∷ outs)
    ]
  ]

  unfoldable pub witness_unavailable_sync : StateWitnessRequest → PolicyExecutionOutput
  witness_unavailable_sync request = record {
    verification_request = StepVerificationRequest.state_witness request;
    status = incomplete_verification;
    reasons =
        because SqlVerificationOutcomeCode.state_witness_unavailable_in_sqlite_file_mode (
          text
            "State store verification (vector, object storage, HTTP witness, MongoDB) requires the async verification runtime with a remote database URL, not SQLite file mode.")
        ∷ [];
    evidence =
        (Key.verification_kind, StepField.leaf (EvidenceValue.string (verification_kind request)))
        ∷ [];
  }

  abbrev pub single_output :
      ResolvedRelationalCheck → Result ReconcileOutput → Result PolicyExecutionOutput
  single_output check (done out) =
      done (output_of (StepVerificationRequest.sql_relational (check ∷ [])) out)
  single_output check (thrown x) = thrown x
  single_output check exhausted = exhausted

  abbrev pub rolled_output : Result (List CheckInput) → Result PolicyExecutionOutput
  rolled_output (done pairs) = done (rollup_sql_relational_from_reconciled js pairs)
  rolled_output (thrown x) = thrown x
  rolled_output exhausted = exhausted

  abbrev pub relational_sync : List ResolvedRelationalCheck → Result PolicyExecutionOutput
  relational_sync [] = rolled_output (map_relational [])
  relational_sync (check ∷ []) = single_output check (relational_sqlite check)
  relational_sync (check ∷ c ∷ cs) = rolled_output (map_relational (check ∷ c ∷ cs))

  unfoldable pub execute_strong_sync : Resolved → Result PolicyExecutionOutput
  unfolding witness_unavailable_sync
  execute_strong_sync (state_witness request) = done (witness_unavailable_sync request)
  execute_strong_sync (sql_effects effects) =
      done (rollup_multi_effects_sync js (reconcile_sql_row js all) effects)
  execute_strong_sync (sql_relational checks) = relational_sync checks
  execute_strong_sync (sql_row_absent request) = done (
      output_of (StepVerificationRequest.sql_row_absent request)
        (reconcile_sql_row_absent js all request))
  execute_strong_sync (sql_row request) =
      done (output_of (StepVerificationRequest.sql_row request) (reconcile_sql_row js all request))

  abbrev pub if_strong : Resolved → Result VerificationPolicy → Result PolicyExecutionOutput
  if_strong resolved (done (strong w p)) = execute_strong_sync resolved
  if_strong resolved (done _) = thrown (
      truth_layer_error internal_error
        (text "executeVerificationWithPolicySync requires strong consistency mode"))
  if_strong resolved (thrown x) = thrown x
  if_strong resolved exhausted = exhausted

  unfoldable pub execute_verification_with_policy_sync :
      Resolved → VerificationPolicy → Result PolicyExecutionOutput
  unfolding execute_strong_sync
  execute_verification_with_policy_sync resolved policy =
      if_strong resolved (resolve_verification_policy_input (some policy))

  -- `createSqlitePolicyContext(db)`, over a file that no check changes, with a clock of its own.
  unfoldable pub create_sqlite_policy_context :
      {E : Type 0} → (E → ℕ × E) → (Number → E → E) → Environment E
  create_sqlite_policy_context now sleep = record {
    now = now;
    sleep = sleep;
    reconcile_row = λ req. pure (reconcile_sql_row js all req);
    reconcile_row_absent = λ req. pure (reconcile_sql_row_absent js all req);
    reconcile_relational_check = λ check e. (relational_sqlite check, e);
    reconcile_state_witness = λ req. pure (
        failed incomplete_verification
          (because SqlVerificationOutcomeCode.state_witness_unavailable_in_sqlite_file_mode (
            text
              "State store verification is not available in SQLite file mode; use a remote database URL for the verify run."))
          []);
  }

module _ (js : Runtime) {E : Type 0} (env : Environment E) where
  abbrev pub relational_strong : List ResolvedRelationalCheck → Run E PolicyExecutionOutput
  relational_strong [] = do
    pairs ← all_settled env.reconcile_relational_check []
    pure (rollup_sql_relational_from_reconciled js pairs)
  relational_strong (check ∷ []) = do
    out ← env.reconcile_relational_check check
    pure (output_of (StepVerificationRequest.sql_relational (check ∷ [])) out)
  relational_strong (check ∷ c ∷ cs) = do
    pairs ← all_settled env.reconcile_relational_check (check ∷ c ∷ cs)
    pure (rollup_sql_relational_from_reconciled js pairs)

  -- The branches of the strong mode: one attempt.
  unfoldable pub execute_strong_async : Resolved → Run E PolicyExecutionOutput
  execute_strong_async (sql_effects effects) = do
    pairs ← all_settled (λ (e : ResolvedEffect). env.reconcile_row e.request) effects
    pure (rollup_multi_effects_from_reconciled_rows js (to_effect_inputs pairs))
  execute_strong_async (state_witness request) = do
    out ← env.reconcile_state_witness request
    pure (output_of (StepVerificationRequest.state_witness request) out)
  execute_strong_async (sql_relational checks) = relational_strong checks
  execute_strong_async (sql_row_absent request) = do
    out ← env.reconcile_row_absent request
    pure (output_of (StepVerificationRequest.sql_row_absent request) out)
  execute_strong_async (sql_row request) = do
    out ← env.reconcile_row request
    pure (output_of (StepVerificationRequest.sql_row request) out)

  abbrev pub relational_waiting :
      VerificationPolicy → ℕ → List ResolvedRelationalCheck → Run E PolicyExecutionOutput
  relational_waiting p fuel [] = execute_sql_relational_eventual env p js fuel []
  relational_waiting p fuel (check ∷ []) = execute_sql_relational_single_eventual env p fuel check
  relational_waiting p fuel (check ∷ c ∷ cs) =
      execute_sql_relational_eventual env p js fuel (check ∷ c ∷ cs)

  -- The branches of the modes that wait.
  unfoldable pub execute_waiting : VerificationPolicy → ℕ → Resolved → Run E PolicyExecutionOutput
  execute_waiting p fuel (sql_row_absent request) =
      execute_sql_row_absent_eventual env p fuel request
  execute_waiting p fuel (state_witness request) = execute_state_witness_eventual env p fuel request
  execute_waiting p fuel (sql_row request) = execute_sql_row_eventual env p fuel request
  execute_waiting p fuel (sql_effects effects) = execute_sql_effects_eventual env p js fuel effects
  execute_waiting p fuel (sql_relational checks) = relational_waiting p fuel checks

  abbrev pub by_mode : ℕ → Resolved → Result VerificationPolicy → Run E PolicyExecutionOutput
  by_mode fuel resolved (done (strong w p)) = execute_strong_async resolved
  by_mode fuel resolved (done (eventual w p)) = execute_waiting (eventual w p) fuel resolved
  by_mode fuel resolved (done (bounded w p s)) = execute_waiting (bounded w p s) fuel resolved
  by_mode fuel resolved (thrown x) = λ e. (thrown x, e)
  by_mode fuel resolved exhausted = λ e. (exhausted, e)

  unfoldable pub execute_verification_with_policy_async :
      ℕ → Resolved → VerificationPolicy → Run E PolicyExecutionOutput
  unfolding execute_strong_async execute_waiting
  execute_verification_with_policy_async fuel resolved policy =
      by_mode fuel resolved (resolve_verification_policy_input (some policy))
