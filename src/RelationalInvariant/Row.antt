-- ===== src/RelationalInvariant/Row.antt =====
-- relationalInvariant.ts: the verdict on the scalar, and running a check.
use agentskeptic.Prelude.{
  Bool, true, false, not, ◌&&◌, Option, none, some, List, [], ◌∷◌, ◌++◌, map, first, if◌then◌else◌,
}
use agentskeptic.Js.{
  Text, Number, finite, Value, Row, Runtime, text, row_get, or_undefined, nat, number_eq, number_le,
  is_finite,
}
use agentskeptic.WireReasonCodes.{SqlVerificationOutcomeCode, is_outcome}
use agentskeptic.Types.{
  ExpectOp, eq, gte, lte, ResolvedRelationalCheck, related_exists, aggregate, join_count, anti_join,
  check_id, StepStatus, missing, inconsistent, incomplete_verification, Reason,
}
use agentskeptic.Types.Evidence.{Key, EvidenceValue, Evidence}
use agentskeptic.FailureCatalog.{format_operational_message}
use agentskeptic.SqlDialect.{SqlRowDialect, sqlite}
use agentskeptic.ValueVerification.{max_safe_integer, min_safe_integer}
use agentskeptic.Reconciler.{
  ReconcileOutput, Answer, returned, thrown, because, failed, passed, lower_keys, coalesce, is_zero,
}
use agentskeptic.RelationalInvariant.Statements.{
  build_relational_scalar_sql, build_anti_join_sample_sql,
}

abbrev pub check_kind : ResolvedRelationalCheck → Text
check_kind (related_exists c) = text "related_exists"
check_kind (aggregate c) = text "aggregate"
check_kind (join_count c) = text "join_count"
check_kind (anti_join c) = text "anti_join"

abbrev pub op_text : ExpectOp → Text
op_text eq = text "eq"
op_text gte = text "gte"
op_text lte = text "lte"

-- `normalizeNumericActual`; `none` is `{ ok: false }`.
unfoldable pub normalize_numeric_actual : Value → Option Number
normalize_numeric_actual (Value.boolean b) = some (if b then nat 1 else nat 0)
normalize_numeric_actual (Value.number n) = if is_finite n then some n else none
normalize_numeric_actual (Value.bigint k) =
    if number_le min_safe_integer (finite k 0) && number_le (finite k 0) max_safe_integer
    then some (finite k 0)
    else none
normalize_numeric_actual _ = none

unfoldable pub compare_expect : Number → ExpectOp → Number → Bool
compare_expect actual eq expected = number_eq actual expected
compare_expect actual gte expected = number_le expected actual
compare_expect actual lte expected = number_le actual expected

-- `row.v ?? row.V`.
unfoldable pub scalar_of : Row → Value
scalar_of row =
    coalesce (or_undefined (row_get (text "v") row)) (or_undefined (row_get (text "V") row))

-- The fields that every summary begins with.
abbrev pub check_fields : ResolvedRelationalCheck → Evidence → Evidence
check_fields check e =
    (Key.check_id, EvidenceValue.string (check_id check))
    ∷ (Key.check_kind, EvidenceValue.string (check_kind check))
    ∷ e

-- `formatOperationalMessage` of "Relational check ${id}: " and what follows.
abbrev pub check_message : ResolvedRelationalCheck → Text → Text
check_message check what =
    format_operational_message (text "Relational check " ++ check_id check ++ text ": " ++ what)

module _ (js : Runtime) (check : ResolvedRelationalCheck) where
  unfoldable pub unusable : Text → Value → ReconcileOutput
  unusable what raw =
      failed incomplete_verification
        (because SqlVerificationOutcomeCode.relational_scalar_unusable (check_message check what))
        (check_fields check ((Key.raw, EvidenceValue.raw raw) ∷ []))

  abbrev pub exists_verdict : Value → Option Number → ReconcileOutput
  exists_verdict raw none = unusable (text "EXISTS result not boolean/0/1") raw
  exists_verdict raw (some n) =
      if not (number_eq n (nat 0)) && not (number_eq n (nat 1))
      then unusable (text "EXISTS result not boolean/0/1") raw
      else if number_eq n (nat 1)
      then passed (check_fields check ((Key.v, EvidenceValue.number (nat 1)) ∷ []))
      else failed missing
          (because SqlVerificationOutcomeCode.related_rows_absent
            (check_message check (text "related row does not exist")))
          (check_fields check ((Key.v, EvidenceValue.number (nat 0)) ∷ []))

  abbrev pub anti_join_verdict : Value → Option Number → ReconcileOutput
  anti_join_verdict raw none = unusable (text "non-numeric anti_join count") raw
  anti_join_verdict raw (some n) =
      if is_zero n
      then passed (check_fields check ((Key.orphan_row_count, EvidenceValue.number (nat 0)) ∷ []))
      else failed inconsistent
          (because SqlVerificationOutcomeCode.orphan_row_detected
            (check_message check (js.number_text n ++ text " orphan row(s)")))
          (check_fields check ((Key.orphan_row_count, EvidenceValue.number n) ∷ []))

  abbrev pub expectation_evidence : Number → ExpectOp → Number → Evidence
  expectation_evidence n op expected = check_fields check (
      (Key.actual, EvidenceValue.number n)
      ∷ (Key.expected, EvidenceValue.number expected)
      ∷ (Key.op, EvidenceValue.op op)
      ∷ [])

  abbrev pub number_verdict : ExpectOp → Number → Value → Option Number → ReconcileOutput
  number_verdict op expected raw none = unusable (text "non-numeric aggregate result") raw
  number_verdict op expected raw (some n) =
      if compare_expect n op expected
      then passed (expectation_evidence n op expected)
      else failed inconsistent
          (because SqlVerificationOutcomeCode.relational_expectation_mismatch (
            check_message check (
              text "expected "
              ++ op_text op
              ++ text " "
              ++ js.number_text expected
              ++ text " but actual "
              ++ js.number_text n)))
          (expectation_evidence n op expected)

abbrev pub verdict : Runtime → ResolvedRelationalCheck → Value → ReconcileOutput
verdict js (related_exists c) raw =
    exists_verdict js (related_exists c) raw (normalize_numeric_actual raw)
verdict js (anti_join c) raw = anti_join_verdict js (anti_join c) raw (normalize_numeric_actual raw)
verdict js (aggregate c) raw =
    number_verdict js (aggregate c) c.expect_op c.expect_value raw (normalize_numeric_actual raw)
verdict js (join_count c) raw =
    number_verdict js (join_count c) c.expect_op c.expect_value raw (normalize_numeric_actual raw)

module _ (js : Runtime) where
  unfoldable pub reconcile_relational_row : Option Row → ResolvedRelationalCheck → ReconcileOutput
  unfolding unusable
  reconcile_relational_row none check =
      failed incomplete_verification
        (because SqlVerificationOutcomeCode.relational_scalar_unusable
          (check_message check (text "no result row")))
        (check_fields check [])
  reconcile_relational_row (some row) check = verdict js check (scalar_of row)

  unfoldable pub merge_anti_join_samples : ReconcileOutput → List Row → ReconcileOutput
  merge_anti_join_samples base rows = record base {
    evidence = base.evidence ++ (Key.sample_rows, EvidenceValue.rows rows) ∷ [];
  }

  unfoldable pub relational_error : ResolvedRelationalCheck → Text → ReconcileOutput
  relational_error check message =
      failed incomplete_verification
        (because SqlVerificationOutcomeCode.connector_error (format_operational_message message))
        (check_fields check ((Key.error, EvidenceValue.boolean true) ∷ []))

  abbrev first_is : SqlVerificationOutcomeCode → List Reason → Bool
  first_is c [] = false
  first_is c (r ∷ rs) = is_outcome c r.code

  abbrev status_inconsistent : StepStatus → Bool
  status_inconsistent inconsistent = true
  status_inconsistent _ = false

  -- The condition under which orphan rows are sampled.
  abbrev pub wants_samples : ReconcileOutput → Bool
  wants_samples out =
      status_inconsistent out.status
      && first_is SqlVerificationOutcomeCode.orphan_row_detected out.reasons

  -- Over a connection whose state `E` each query moves on. `none` is the error that the statement's
  -- construction throws before anything is sent.
  module _ {E : Type 0} (dialect : SqlRowDialect) (query : Text → List Text → E → Answer × E) where
    unfoldable pub sampled : ResolvedRelationalCheck → ReconcileOutput → Answer → ReconcileOutput
    unfolding relational_error merge_anti_join_samples
    sampled check out (returned rows) = merge_anti_join_samples out (map (lower_keys js) rows)
    sampled check out (thrown message) = relational_error check message

    unfoldable pub with_samples :
        ResolvedRelationalCheck → ReconcileOutput → E → ReconcileOutput × E
    unfolding sampled
    with_samples (anti_join c) out e = elim (wants_samples out) [
      | false ↦ (out, e)
      | true ↦
          let sent = build_anti_join_sample_sql js dialect c in
          let (answer, e') = query sent.0 sent.1 e in (sampled (anti_join c) out answer, e')
    ]
    with_samples (related_exists c) out e = (out, e)
    with_samples (aggregate c) out e = (out, e)
    with_samples (join_count c) out e = (out, e)

    unfoldable pub settle_scalar : ResolvedRelationalCheck → Answer → E → ReconcileOutput × E
    unfolding with_samples reconcile_relational_row relational_error
    settle_scalar check (returned rows) e =
        with_samples check
          (reconcile_relational_row
            (elim (first rows) [ none ↦ none | some r ↦ some (lower_keys js r) ]) check)
          e
    settle_scalar check (thrown message) e = (relational_error check message, e)

    abbrev pub send_scalar :
        ResolvedRelationalCheck → Option (Text × List Text) → E → Option (ReconcileOutput × E)
    send_scalar check none e = none
    send_scalar check (some (statement, values)) e =
        let (answer, e') = query statement values e in some (settle_scalar check answer e')

    unfoldable pub reconcile_relational_query :
        ResolvedRelationalCheck → E → Option (ReconcileOutput × E)
    unfolding settle_scalar build_relational_scalar_sql
    reconcile_relational_query check e =
        send_scalar check (build_relational_scalar_sql js dialect check) e

-- `reconcileRelationalSqlite` is the same run over a database file that no query changes.
unfoldable pub reconcile_relational_sqlite :
    Runtime → (Text → List Text → Answer) → ResolvedRelationalCheck → Option ReconcileOutput
unfolding reconcile_relational_query
reconcile_relational_sqlite js all check =
    elim (reconcile_relational_query js {E = Unit {0}} sqlite (λ s vs e. (all s vs, e)) check tt) [
      | none ↦ none
      | some (out, e) ↦ some out
    ]
