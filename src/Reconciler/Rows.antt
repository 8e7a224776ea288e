-- ===== src/Reconciler/Rows.antt =====
-- reconciler.ts: the rule table after the rows are fetched; sqlConnector.ts: fetching them.
use agentskeptic.Prelude.{
  Bool, true, false, Option, none, some, List, [], ◌∷◌, ◌++◌, map, length, if◌then◌else◌,
}
use agentskeptic.Prelude.Sort.{sort}
use agentskeptic.Js.{Text, Value, Row, Runtime, text, text_eq, row_get, nat, join}
use agentskeptic.WireReasonCodes.{SqlVerificationOutcomeCode, outcome}
use agentskeptic.Types.{
  Scalar, IdentityEqPair, VerificationRequest, StepStatus, verified, missing, inconsistent,
  incomplete_verification, Reason,
}
use agentskeptic.Types.Evidence.{Key, EvidenceValue, Evidence}
use agentskeptic.FailureCatalog.{format_operational_message}
use agentskeptic.SqlDialect.{sqlite, quote_ident}
use agentskeptic.ValueVerification.{
  VerificationCompareResult, ok, mismatch, verification_scalars_equal,
}

pub record ReconcileOutput : Type 0 where
  pub status : StepStatus
  pub reasons : List Reason
  pub evidence : Evidence

-- What a statement returns or throws; the text is the error's message.
pub data Answer : Type 0 where
  returned : List Row → Answer
  thrown : Text → Answer

-- A reason without a field, and an output with one reason.
abbrev pub because : SqlVerificationOutcomeCode → Text → Reason
because c m = record { code = outcome c; message = m; field = none }

abbrev pub failed : StepStatus → Reason → Evidence → ReconcileOutput
failed s r e = record { status = s; reasons = r ∷ []; evidence = e }

abbrev pub passed : Evidence → ReconcileOutput
passed e = record { status = verified; reasons = []; evidence = e }

-- `${column}=${value}`, both formatted.
abbrev pub pair_context : IdentityEqPair → Text
pair_context p =
    format_operational_message p.column ++ text "=" ++ format_operational_message p.value

unfoldable pub row_key_context : VerificationRequest → Text
row_key_context req =
    text "table="
    ++ format_operational_message req.table
    ++ text " "
    ++ join (text " ") (map pair_context req.identity_eq)

abbrev pub field_le : Runtime → Text × Scalar → Text × Scalar → Bool
field_le js a b = js.locale_le a.0 b.0

-- `typeof actual === "object" && actual !== null && !(actual instanceof Date)`.
abbrev pub is_non_scalar : Value → Bool
is_non_scalar (Value.object shown) = true
is_non_scalar _ = false

module _ (js : Runtime) where
  -- `Object.fromEntries(entries)` after the keys are lower-cased: a later field replaces an earlier
  -- one of the same name, in its place.
  put : Text → Value → Row → Row
  put k v [] = (k, v) ∷ []
  put k v ((j, w) ∷ r) = if text_eq j k then (k, v) ∷ r else (j, w) ∷ put k v r

  put_all : Row → Row → Row
  unfolding put
  put_all acc [] = acc
  put_all acc ((k, v) ∷ r) = put_all (put (js.to_lower k) v acc) r

  unfoldable pub lower_keys : Row → Row
  unfolding put_all
  lower_keys row = put_all [] row

  abbrev pub compared : Text → Text → VerificationCompareResult → Option ReconcileOutput
  compared k ctx ok = none
  compared k ctx (mismatch expected actual) = some (
      failed inconsistent
        (record {
          code = outcome SqlVerificationOutcomeCode.value_mismatch;
          message =
              text "Expected "
              ++ expected
              ++ text " but found "
              ++ actual
              ++ text " for field "
              ++ k
              ++ text " ("
              ++ ctx
              ++ text ")";
          field = some k;
        })
        ((Key.row_count, EvidenceValue.number (nat 1))
          ∷ (Key.field, EvidenceValue.string k)
          ∷ (Key.expected, EvidenceValue.string expected)
          ∷ (Key.actual, EvidenceValue.string actual)
          ∷ []))

  abbrev pub read_field : Text → Text → Scalar → Value → Option ReconcileOutput
  read_field ctx k expected actual =
      if is_non_scalar actual
      then some (
          failed incomplete_verification
            (record {
              code = outcome SqlVerificationOutcomeCode.unreadable_value;
              message = text "Non-scalar value for " ++ k ++ text " (" ++ ctx ++ text ")";
              field = some k;
            })
            ((Key.row_count, EvidenceValue.number (nat 1))
              ∷ (Key.field, EvidenceValue.string k)
              ∷ []))
      else compared k ctx (verification_scalars_equal js expected actual)

  abbrev pub found_field : Text → Row → Text → Scalar → Option Value → Option ReconcileOutput
  found_field ctx row k expected none = some (
      failed incomplete_verification
        (because SqlVerificationOutcomeCode.row_shape_mismatch
          (text "Column not in row: " ++ k ++ text " (" ++ ctx ++ text ")"))
        ((Key.row_count, EvidenceValue.number (nat 1))
          ∷ (Key.row_keys, EvidenceValue.strings (map (λ f. f.0) row))
          ∷ []))
  found_field ctx row k expected (some actual) = read_field ctx k expected actual

  -- One round of the loop over the required fields: the output it returns, or none to go on.
  unfoldable pub check_field : Text → Row → Text × Scalar → Option ReconcileOutput
  check_field ctx row (k, expected) = found_field ctx row k expected (row_get (js.to_lower k) row)

  unfoldable pub check_fields : Text → Row → List (Text × Scalar) → ReconcileOutput
  unfolding check_field
  check_fields ctx row [] = passed ((Key.row_count, EvidenceValue.number (nat 1)) ∷ [])
  check_fields ctx row (f ∷ fs) = elim (check_field ctx row f) [
    | none ↦ check_fields ctx row fs
    | some out ↦ out
  ]

  unfoldable pub reconcile_from_rows : List Row → VerificationRequest → ReconcileOutput
  unfolding check_fields row_key_context
  reconcile_from_rows [] req =
      failed missing
        (because SqlVerificationOutcomeCode.row_absent
          (text "No row matched key (" ++ row_key_context req ++ text ")"))
        ((Key.row_count, EvidenceValue.number (nat 0)) ∷ [])
  reconcile_from_rows (row ∷ []) req =
      check_fields (row_key_context req) row (sort (field_le js) req.required_fields)
  reconcile_from_rows (r ∷ s ∷ rows) req =
      failed inconsistent
        (because SqlVerificationOutcomeCode.duplicate_rows
          (text "More than one row matched key (" ++ row_key_context req ++ text ")"))
        ((Key.row_count, EvidenceValue.number (nat (length (r ∷ s ∷ rows)))) ∷ [])

  abbrev identity_condition : Text → IdentityEqPair → Text
  identity_condition table pair = table ++ text "." ++ quote_ident sqlite pair.column ++ text " = ?"

  unfoldable pub build_select_by_identity_sql_sqlite : VerificationRequest → Text × List Text
  build_select_by_identity_sql_sqlite req =
      let table = quote_ident sqlite req.table in
      (
        text "SELECT * FROM "
            ++ table
            ++ text " WHERE "
            ++ join (text " AND ") (map (identity_condition table) req.identity_eq)
            ++ text " LIMIT 2",
        map (λ p. p.value) req.identity_eq,
      )

  unfoldable pub connector_error : Text → ReconcileOutput
  connector_error message =
      failed incomplete_verification
        (because SqlVerificationOutcomeCode.connector_error (format_operational_message message))
        ((Key.row_count, EvidenceValue.null) ∷ (Key.error, EvidenceValue.boolean true) ∷ [])

  -- `fetchRowsForVerification` wraps every error in a `ConnectorError`, which is caught here.
  abbrev pub settle_rows : VerificationRequest → Answer → ReconcileOutput
  settle_rows req (returned rows) = reconcile_from_rows (map lower_keys rows) req
  settle_rows req (thrown message) = connector_error message

  -- `all` is `db.prepare(text).all(...values)`.
  unfoldable pub reconcile_sql_row :
      (Text → List Text → Answer) → VerificationRequest → ReconcileOutput
  unfolding build_select_by_identity_sql_sqlite connector_error
  reconcile_sql_row all req =
      let (statement, values) = build_select_by_identity_sql_sqlite req in
      settle_rows req (all statement values)
