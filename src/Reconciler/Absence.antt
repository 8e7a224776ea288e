-- ===== src/Reconciler/Absence.antt =====
-- reconciler.ts: when the check that a row is absent passes.
use agentskeptic.Prelude.{
  ◌≡◌, Bool, true, false, not, ◌&&◌, Option, none, some, List, refl, if◌then◌else◌, ◌↔◌, sym, ◌∙◌,
  arith,
}
use mathlib.Core.Path.{subst}
use mathlib.Core.Option.{some-injective}
use agentskeptic.Js.{Text, Number, Row, Runtime}
use agentskeptic.Types.{RowAbsentVerificationRequest, StepStatus, inconsistent}
use agentskeptic.SqlDialect.{SqlRowDialect, sqlite}
use agentskeptic.Reconciler.Rows.{ReconcileOutput, Answer, returned, thrown}
use agentskeptic.Reconciler.Outcome.{is_verified, is_verified_iff, is_proper}
use agentskeptic.Reconciler.Absent.{
  RowAbsentSqlPlan, is_zero, normalize_count_v, count_of, build_row_absent_sql_plan, absent_error,
  unusable_count, row_present, no_row, absent_counted, absent_answered, reconcile_sql_row_absent,
  remote_count_of, remote_counted, remote_answered, execute_row_absent_remote, absent_key_context,
}
use agentskeptic.Reconciler.Counting.{
  asked_values, count_statement, plan-count_sql, plan-values, SqliteCount, RemoteCount, IsZero,
  IsNonzero, Decides, SqliteCount_iff, RemoteCount_iff,
}

abbrev pub denies : StepStatus → Bool
denies inconsistent = true
denies _ = false

abbrev pub is_returned : Answer → Bool
is_returned (returned rows) = true
is_returned (thrown m) = false

-- The count is a number, and it is zero.
abbrev pub none_counted : Option Number → Bool
none_counted none = false
none_counted (some n) = is_zero n

-- The count is a number other than zero.
abbrev pub some_counted : Option Number → Bool
some_counted none = false
some_counted (some n) = not (is_zero n)

-- What an output says, when the sample is answered by `sample`.
abbrev Says : ReconcileOutput → Option Number → Answer → Type 0
Says out count sample =
    (is_verified out.status ≡ none_counted count)
    × (denies out.status ≡ (some_counted count && is_returned sample))
    × (is_proper out ≡ true)

module _ (js : Runtime) where
  -- The count that SQLite answers: `v ?? V` of the first row.
  abbrev pub sqlite_count : Answer → Option Number
  sqlite_count (returned rows) = normalize_count_v (count_of rows)
  sqlite_count (thrown m) = none

  -- The count that a remote database answers: the field `v` of the first row, with its keys lower-cased.
  abbrev pub remote_count : Answer → Option Number
  remote_count (returned rows) = normalize_count_v (remote_count_of js rows)
  remote_count (thrown m) = none

  counted-Says :
      (query : Text → List Text → Answer) (req : RowAbsentVerificationRequest)
      (plan : RowAbsentSqlPlan) (raw : _) (count : Option Number)
      → Says (absent_counted js query req plan raw count) count (query plan.sample_sql plan.values)
  unfolding absent_counted unusable_count no_row row_present absent_error
  counted-Says query req plan raw none = (refl, refl, refl)
  counted-Says query req plan raw (some n) =
      sample_says (is_zero n) (query plan.sample_sql plan.values)
    where
      sample_says :
          (zero : Bool) (a : Answer)
          → let out = if zero then no_row js else row_present js (absent_key_context req) n a in
            (is_verified out.status ≡ zero)
            × (denies out.status ≡ (not zero && is_returned a))
            × (is_proper out ≡ true)
      sample_says true a = (refl, refl, refl)
      sample_says false (returned rows) = (refl, refl, refl)
      sample_says false (thrown m) = (refl, refl, refl)

  answered-Says :
      (query : Text → List Text → Answer) (req : RowAbsentVerificationRequest)
      (plan : RowAbsentSqlPlan) (a : Answer)
      → Says
          (absent_answered js query req plan a)
          (sqlite_count a)
          (query plan.sample_sql plan.values)
  unfolding absent_answered absent_error
  answered-Says query req plan (returned rows) = counted-Says query req plan _ _
  answered-Says query req plan (thrown m) = (refl, refl, refl)

  module _ {E : Type 0} (query : Text → List Text → E → Answer × E) (dialect : SqlRowDialect)
      (req : RowAbsentVerificationRequest) (plan : RowAbsentSqlPlan) where
    remote_counted-Says :
        (raw : _) (count : Option Number) (e : E)
        → Says
            (remote_counted js query dialect req plan raw count e).0
            count
            (query plan.sample_sql plan.values e).0
    unfolding remote_counted unusable_count no_row row_present absent_error
    remote_counted-Says raw none e = (refl, refl, refl)
    remote_counted-Says raw (some n) e =
        sample_says (is_zero n) (query plan.sample_sql plan.values e)
      where
        sample_says :
            (zero : Bool) (a : Answer × E)
            → let out : ReconcileOutput × E = elim zero [
              | true ↦ (no_row js, e)
              | false ↦ (row_present js (absent_key_context req) n a.0, a.1)
            ] in
              (is_verified out.0.status ≡ zero)
              × (denies out.0.status ≡ (not zero && is_returned a.0))
              × (is_proper out.0 ≡ true)
        sample_says true a = (refl, refl, refl)
        sample_says false (returned rows, e') = (refl, refl, refl)
        sample_says false (thrown m, e') = (refl, refl, refl)

    remote_answered-Says :
        (a : Answer) (e : E)
        → Says
            (remote_answered js query dialect req plan a e).0
            (remote_count a)
            (query plan.sample_sql plan.values e).0
    unfolding remote_answered absent_error
    remote_answered-Says (returned rows) e = remote_counted-Says _ _ e
    remote_answered-Says (thrown m) e = (refl, refl, refl)

denies_iff : (s : StepStatus) → (denies s ≡ true) ↔ (s ≡ inconsistent)
denies_iff inconsistent = ground arith
denies_iff _ = ground arith

returned_iff : (a : Answer) → (is_returned a ≡ true) ↔ ((rows : List Row) × (a ≡ returned rows))
returned_iff (returned rows) = (λ h. (rows, refl), λ h. refl)
returned_iff (thrown m) = (λ h. cc h, λ (rows, e). cc e)

-- The number of a count, of which something holds.
abbrev OfNumber : Option Number → (Number → Type 0) → Type 0
OfNumber o P = (n : Number) × (o ≡ some n) × P n

none_counted_iff : (o : Option Number) → (none_counted o ≡ true) ↔ OfNumber o IsZero
none_counted_iff none = (λ h. cc h, λ (n, e, p). cc e)
none_counted_iff (some n) = (λ h. (n, refl, h), λ (m, e, p). rw (some-injective _ _ e) p)

some_counted_iff : (o : Option Number) → (some_counted o ≡ true) ↔ OfNumber o IsNonzero
some_counted_iff none = (λ h. cc h, λ (n, e, p). cc e)
some_counted_iff (some n) =
    (λ h. (n, refl, ground arith), λ (m, e, p). rw (some-injective _ _ e) (ground arith))

-- What the tests say of an output, as what is counted.
Says-Decides :
    (o : Option Number) (Count : (Number → Type 0) → Type 0)
    → ((P : Number → Type 0) → OfNumber o P ↔ Count P)
    → (out : ReconcileOutput) (sample : Answer) → Says out o sample
    → Decides Count sample out
Says-Decides o Count means out sample (v, d, p) = (
  (
    λ h. (means IsZero).0 ((none_counted_iff o).0 (sym v ∙ (is_verified_iff _).1 h)),
    λ c. (is_verified_iff _).0 (v ∙ (none_counted_iff o).1 ((means IsZero).1 c)),
  ),
  (
    λ h.
        let (c, a) = both (some_counted o) (is_returned sample) (sym d ∙ (denies_iff _).1 h) in
        ((means IsNonzero).0 ((some_counted_iff o).0 c), (returned_iff sample).0 a),
    λ (c, a).
        let counted : some_counted o ≡ true = (some_counted_iff o).1 ((means IsNonzero).1 c) in
        let answered : is_returned sample ≡ true = (returned_iff sample).1 a in
        (denies_iff _).0 (d ∙ ground arith),
  ),
  p,
)
  where
    both : (a b : Bool) → (a && b) ≡ true → (a ≡ true) × (b ≡ true)
    both true b h = (refl, h)
    both false b h = cc h

module _ (js : Runtime) where
  sqlite_means :
      (a : Answer) (P : Number → Type 0) → OfNumber (sqlite_count js a) P ↔ SqliteCount a P
  sqlite_means (returned rows) P = SqliteCount_iff rows P
  sqlite_means (thrown m) P = (λ (n, e, p). cc e, λ (row, rows, v, n, e, q, i, p). cc e)

  remote_means :
      (a : Answer) (P : Number → Type 0) → OfNumber (remote_count js a) P ↔ RemoteCount js a P
  remote_means (returned rows) P = RemoteCount_iff js rows P
  remote_means (thrown m) P = (λ (n, e, p). cc e, λ (row, rows, v, n, e, q, i, p). cc e)

-- The check over SQLite that a row is absent asks for the count of the rows that have the values of all identity and all filter columns.
-- It is verified exactly when the count reads as zero, and inconsistent exactly when it reads as another number and the
-- sample is answered; it gives reasons exactly when it is not verified. The count is the column "v" of the first row, or
-- "V" if that is missing or null, and it reads as a number if it is a finite number or a safe bigint.
pub row_absent_verdict :
    (js : Runtime) (query : Text → List Text → Answer) (req : RowAbsentVerificationRequest)
    → let plan = build_row_absent_sql_plan js sqlite req in
      let values = asked_values req in
      Decides
        (SqliteCount (query (count_statement js sqlite req) values))
        (query plan.sample_sql values)
        (reconcile_sql_row_absent js query req)
unfolding reconcile_sql_row_absent
row_absent_verdict js query req =
    let plan = build_row_absent_sql_plan js sqlite req in
    subst
      (λ vs.
        Decides (SqliteCount (query (count_statement js sqlite req) vs)) (query plan.sample_sql vs)
          (reconcile_sql_row_absent js query req))
      (plan-values js sqlite req)
      (subst
        (λ sql.
          Decides (SqliteCount (query sql plan.values)) (query plan.sample_sql plan.values)
            (reconcile_sql_row_absent js query req))
        (plan-count_sql js sqlite req)
        (Says-Decides _ (SqliteCount (query plan.count_sql plan.values)) (sqlite_means js _)
          (reconcile_sql_row_absent js query req) _
          (answered-Says js query req plan (query plan.count_sql plan.values))))

-- Over a remote connection, whose state each query moves on, the same holds of the statement in its dialect and of the sample, which is
-- queried next; the count is the column "v" of the first row, once the names of the columns are in lower case.
pub row_absent_remote_verdict :
    (js : Runtime) {E : Type 0} (query : Text → List Text → E → Answer × E)
    (dialect : SqlRowDialect) (req : RowAbsentVerificationRequest) (e : E)
    → let plan = build_row_absent_sql_plan js dialect req in
      let values = asked_values req in
      let counted = query (count_statement js dialect req) values e in
      Decides
        (RemoteCount js counted.0)
        (query plan.sample_sql values counted.1).0
        (execute_row_absent_remote js query dialect req e).0
unfolding execute_row_absent_remote
row_absent_remote_verdict js query dialect req e =
    let plan = build_row_absent_sql_plan js dialect req in
    subst
      (λ vs.
        Decides (RemoteCount js (query (count_statement js dialect req) vs e).0)
          (query plan.sample_sql vs (query (count_statement js dialect req) vs e).1).0
          (execute_row_absent_remote js query dialect req e).0)
      (plan-values js dialect req)
      (subst
        (λ sql.
          Decides (RemoteCount js (query sql plan.values e).0)
            (query plan.sample_sql plan.values (query sql plan.values e).1).0
            (execute_row_absent_remote js query dialect req e).0)
        (plan-count_sql js dialect req)
        (Says-Decides _ (RemoteCount js (query plan.count_sql plan.values e).0) (remote_means js _)
          (execute_row_absent_remote js query dialect req e).0 _
          (remote_answered-Says js query dialect req plan (query plan.count_sql plan.values e).0
            (query plan.count_sql plan.values e).1)))
