-- ===== src/Reconciler/Absent.antt =====
-- reconciler.ts: the check that no row matches, its statements and its count.
use agentskeptic.Prelude.{
  ℕ, ◌+◌, Bool, true, false, not, ◌&&◌, Option, none, some, List, [], ◌∷◌, ◌++◌, map, any,
  if◌then◌else◌,
}
use agentskeptic.Prelude.Sort.{sort}
use agentskeptic.Js.{
  Text, Number, finite, Value, Row, Runtime, text, text_eq, text_lt, row_get, or_undefined, nat,
  join, number_eq, number_le, is_finite,
}
use agentskeptic.WireReasonCodes.{SqlVerificationOutcomeCode}
use agentskeptic.Types.{
  IdentityEqPair, RowAbsentVerificationRequest, inconsistent, incomplete_verification,
}
use agentskeptic.Types.Evidence.{Key, EvidenceValue}
use agentskeptic.FailureCatalog.{format_operational_message}
use agentskeptic.SqlDialect.{
  SqlRowDialect, sqlite, bigquery, quote_ident, quote_big_query_table_id, next_placeholder_sql_row,
}
use agentskeptic.ValueVerification.{max_safe_integer, min_safe_integer}
use agentskeptic.Reconciler.Rows.{
  ReconcileOutput, Answer, returned, thrown, because, failed, passed, pair_context, lower_keys,
}

abbrev pub max_verification_sample_rows : ℕ
max_verification_sample_rows = 3

abbrev filter_context : List IdentityEqPair → Text
filter_context [] = []
filter_context (p ∷ ps) =
    text " filter=[" ++ join (text " ") (map pair_context (p ∷ ps)) ++ text "]"

unfoldable pub absent_key_context : RowAbsentVerificationRequest → Text
absent_key_context req =
    text "table="
    ++ format_operational_message req.table
    ++ text " identity=["
    ++ join (text " ") (map pair_context req.identity_eq)
    ++ text "]"
    ++ filter_context req.filter_eq

table_expr_for_row_dialect : SqlRowDialect → Text → Text
table_expr_for_row_dialect bigquery table = quote_big_query_table_id table
table_expr_for_row_dialect dialect table = quote_ident dialect table

-- `new Set(columns)`: the first occurrence of each.
unfoldable pub distinct : List Text → List Text → List Text
distinct seen [] = []
distinct seen (c ∷ cs) = elim (any (text_eq c) seen) [
  | true ↦ distinct seen cs
  | false ↦ c ∷ distinct (c ∷ seen) cs
]

-- `compareUtf16Id(a, b) <= 0`.
abbrev pub utf16_le : Text → Text → Bool
utf16_le a b = not (text_lt b a)

pub record RowAbsentSqlPlan : Type 0 where
  pub count_sql : Text
  pub sample_sql : Text
  pub values : List Text

abbrev pub is_zero : Number → Bool
is_zero n = number_eq n (nat 0)

-- `normalizeCountV`.
unfoldable pub normalize_count_v : Value → Option Number
normalize_count_v (Value.bigint k) =
    if number_le min_safe_integer (finite k 0) && number_le (finite k 0) max_safe_integer
    then some (finite k 0)
    else none
normalize_count_v (Value.number n) = if is_finite n then some n else none
normalize_count_v _ = none

-- `a ?? b`.
abbrev pub coalesce : Value → Value → Value
coalesce Value.null b = b
coalesce Value.undefined b = b
coalesce a b = a

-- `countRow === undefined ? undefined : countRow.v ?? countRow.V`.
unfoldable pub count_of : List Row → Value
count_of [] = Value.undefined
count_of (row ∷ rows) =
    coalesce (or_undefined (row_get (text "v") row)) (or_undefined (row_get (text "V") row))

module _ (js : Runtime) where
  -- The conditions of the pairs, with placeholders numbered from `n`.
  unfoldable pub conditions : SqlRowDialect → Text → ℕ → List IdentityEqPair → List Text
  conditions dialect table n [] = []
  conditions dialect table n (pair ∷ pairs) =
      (table
        ++ text "."
        ++ quote_ident dialect pair.column
        ++ text " = "
        ++ next_placeholder_sql_row js dialect n)
      ∷ conditions dialect table (n + 1) pairs

  unfoldable pub build_row_absent_sql_plan :
      SqlRowDialect → RowAbsentVerificationRequest → RowAbsentSqlPlan
  unfolding conditions table_expr_for_row_dialect distinct
  build_row_absent_sql_plan dialect req =
      let table = table_expr_for_row_dialect dialect req.table in
      let pairs = req.identity_eq ++ req.filter_eq in
      let where_clause = join (text " AND ") (conditions dialect table 1 pairs) in
      let columns = sort utf16_le (distinct [] (map (λ p. p.column) pairs)) in
      let select_list =
        join (text ", ") (map (λ c. table ++ text "." ++ quote_ident dialect c) columns) in
      record {
        count_sql = text "SELECT COUNT(*) AS v FROM " ++ table ++ text " WHERE " ++ where_clause;
        sample_sql =
            text "SELECT "
            ++ select_list
            ++ text " FROM "
            ++ table
            ++ text " WHERE "
            ++ where_clause
            ++ text " LIMIT "
            ++ js.number_text (nat max_verification_sample_rows);
        values = map (λ p. p.value) pairs;
      }

  unfoldable pub absent_error : Text → ReconcileOutput
  absent_error message =
      failed incomplete_verification
        (because SqlVerificationOutcomeCode.connector_error (format_operational_message message))
        ((Key.error, EvidenceValue.boolean true) ∷ [])

  unfoldable pub unusable_count : Text → Value → ReconcileOutput
  unusable_count ctx raw =
      failed incomplete_verification
        (because SqlVerificationOutcomeCode.relational_scalar_unusable
          (format_operational_message (text "Absent check: unusable count (" ++ ctx ++ text ")")))
        ((Key.row_count, EvidenceValue.null) ∷ (Key.raw, EvidenceValue.raw raw) ∷ [])

  -- After the sample: its rows, or the error of its statement.
  unfoldable pub row_present : Text → Number → Answer → ReconcileOutput
  unfolding absent_error
  row_present ctx count (returned rows) =
      failed inconsistent
        (because SqlVerificationOutcomeCode.row_present_when_forbidden (
          format_operational_message (
            text "Row present when forbidden ("
            ++ ctx
            ++ text "); matched "
            ++ js.number_text count)))
        ((Key.matched_row_count, EvidenceValue.number count)
          ∷ (Key.sample_rows, EvidenceValue.rows (map (lower_keys js) rows))
          ∷ [])
  row_present ctx count (thrown message) = absent_error message

  unfoldable pub no_row : ReconcileOutput
  no_row = passed ((Key.matched_row_count, EvidenceValue.number (nat 0)) ∷ [])

  -- `all` answers a statement; the count is the first row of its answer.
  module _ (all : Text → List Text → Answer) (req : RowAbsentVerificationRequest) where
    unfoldable pub absent_counted : RowAbsentSqlPlan → Value → Option Number → ReconcileOutput
    unfolding unusable_count no_row
    absent_counted plan raw none = unusable_count (absent_key_context req) raw
    absent_counted plan raw (some count) =
        if is_zero count
        then no_row
        else row_present (absent_key_context req) count (all plan.sample_sql plan.values)

    unfoldable pub absent_answered : RowAbsentSqlPlan → Answer → ReconcileOutput
    unfolding absent_counted absent_error
    absent_answered plan (returned rows) =
        absent_counted plan (count_of rows) (normalize_count_v (count_of rows))
    absent_answered plan (thrown message) = absent_error message

    unfoldable pub reconcile_sql_row_absent : ReconcileOutput
    unfolding absent_answered build_row_absent_sql_plan
    reconcile_sql_row_absent =
        let plan = build_row_absent_sql_plan sqlite req in
        absent_answered plan (all plan.count_sql plan.values)

  -- `lowered?.v`.
  abbrev pub remote_count_of : List Row → Value
  remote_count_of [] = Value.undefined
  remote_count_of (row ∷ rows) = or_undefined (row_get (text "v") (lower_keys js row))

  -- The same over a connection whose state `E` each query moves on.
  module _ {E : Type 0} (query : Text → List Text → E → Answer × E) (dialect : SqlRowDialect)
      (req : RowAbsentVerificationRequest) where
    unfoldable pub remote_counted :
        RowAbsentSqlPlan → Value → Option Number → E → ReconcileOutput × E
    unfolding unusable_count no_row
    remote_counted plan raw none e = (unusable_count (absent_key_context req) raw, e)
    remote_counted plan raw (some count) e = elim (is_zero count) [
      | true ↦ (no_row, e)
      | false ↦
          let (sample, e') = query plan.sample_sql plan.values e in
          (row_present (absent_key_context req) count sample, e')
    ]

    unfoldable pub remote_answered : RowAbsentSqlPlan → Answer → E → ReconcileOutput × E
    unfolding remote_counted absent_error
    remote_answered plan (returned rows) e =
        remote_counted plan (remote_count_of rows) (normalize_count_v (remote_count_of rows)) e
    remote_answered plan (thrown message) e = (absent_error message, e)

    unfoldable pub execute_row_absent_remote : E → ReconcileOutput × E
    unfolding remote_answered build_row_absent_sql_plan
    execute_row_absent_remote e =
        let plan = build_row_absent_sql_plan dialect req in
        let (counted, e') = query plan.count_sql plan.values e in remote_answered plan counted e'
