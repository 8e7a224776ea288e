-- ===== src/Reconciler/Counting.antt =====
-- reconciler.ts: the statement that counts the rows which must be absent, and how its answer is read, described apart from the
-- code.
use agentskeptic.Prelude.{
  ℕ, ◌+◌, ◌≡◌, ◌↔◌, refl, true, false, some, List, [], ◌∷◌, ◌++◌, map, ap, sym, Option-cases, inl,
  inr,
}
use mathlib.Core.Path.{subst}
use agentskeptic.Js.{
  Text, Number, Value, Row, Runtime, text, row_get, or_undefined, nat, join, number_eq,
}
use agentskeptic.Types.{IdentityEqPair, RowAbsentVerificationRequest, verified, inconsistent}
use agentskeptic.SqlDialect.{
  SqlRowDialect, sqlite, postgresql, mysql, mssql, bigquery, quote_ident, quote_big_query_table_id,
  next_placeholder_sql_row,
}
use agentskeptic.Reconciler.Rows.{ReconcileOutput, Answer, returned, lower_keys}
use agentskeptic.Reconciler.Outcome.{is_proper}
use agentskeptic.Reconciler.Absent.{
  normalize_count_v, count_of, remote_count_of, conditions, build_row_absent_sql_plan,
}
use agentskeptic.Reconciler.Scalars.{IsNumeral, normalize_count_v-IsNumeral, Picks, coalesce-Picks}

-- The elements with their places, from `n` on.
abbrev pub numbered : {A : Type 0} → ℕ → List A → List (ℕ × A)
numbered n [] = []
numbered n (x ∷ xs) = (n, x) ∷ numbered (n + 1) xs

abbrev pub quoted_table : SqlRowDialect → Text → Text
quoted_table bigquery table = quote_big_query_table_id table
quoted_table sqlite table = quote_ident sqlite table
quoted_table postgresql table = quote_ident postgresql table
quoted_table mysql table = quote_ident mysql table
quoted_table mssql table = quote_ident mssql table

-- The values that are asked for: those of the identity, then those of the filter.
abbrev pub asked_values : RowAbsentVerificationRequest → List Text
asked_values req =
    map (λ (p : IdentityEqPair). p.value) req.identity_eq
    ++ map (λ (p : IdentityEqPair). p.value) req.filter_eq

module _ (js : Runtime) where
  -- A column of the table has the value of its placeholder.
  abbrev pub condition : SqlRowDialect → Text → ℕ × IdentityEqPair → Text
  condition dialect table (n, p) =
      table
      ++ text "."
      ++ quote_ident dialect p.column
      ++ text " = "
      ++ next_placeholder_sql_row js dialect n

  -- The count of the rows that meet the conditions of the whole identity and the whole filter.
  abbrev pub count_statement : SqlRowDialect → RowAbsentVerificationRequest → Text
  count_statement dialect req =
      text "SELECT COUNT(*) AS v FROM "
      ++ quoted_table dialect req.table
      ++ text " WHERE "
      ++ join (text " AND ") (
          map (condition dialect (quoted_table dialect req.table))
            (numbered 1 (req.identity_eq ++ req.filter_eq)))

  conditions-numbered :
      (dialect : SqlRowDialect) (table : Text) (n : ℕ) (pairs : List IdentityEqPair)
      → conditions js dialect table n pairs ≡ map (condition dialect table) (numbered n pairs)
  unfolding conditions
  conditions-numbered dialect table n [] = refl
  conditions-numbered dialect table n (p ∷ ps) =
      ap (λ (cs : List Text). condition dialect table (n, p) ∷ cs)
        (conditions-numbered dialect table (n + 1) ps)

  counts :
      (dialect : SqlRowDialect) (req : RowAbsentVerificationRequest)
      → text "SELECT COUNT(*) AS v FROM "
          ++ quoted_table dialect req.table
          ++ text " WHERE "
          ++ join (text " AND ") (
              conditions js dialect
                (quoted_table dialect req.table)
                1
                (req.identity_eq ++ req.filter_eq))
        ≡ count_statement dialect req
  counts dialect req =
      ap
        (λ (cs : List Text).
          text "SELECT COUNT(*) AS v FROM "
          ++ quoted_table dialect req.table
          ++ text " WHERE "
          ++ join (text " AND ") cs)
        (conditions-numbered dialect (quoted_table dialect req.table) 1 _)

  pub plan-count_sql :
      (dialect : SqlRowDialect) (req : RowAbsentVerificationRequest)
      → (build_row_absent_sql_plan js dialect req).count_sql ≡ count_statement dialect req
  unfolding build_row_absent_sql_plan
  plan-count_sql bigquery req = counts bigquery req
  plan-count_sql sqlite req = counts sqlite req
  plan-count_sql postgresql req = counts postgresql req
  plan-count_sql mysql req = counts mysql req
  plan-count_sql mssql req = counts mssql req

  pub plan-values :
      (dialect : SqlRowDialect) (req : RowAbsentVerificationRequest)
      → (build_row_absent_sql_plan js dialect req).values ≡ asked_values req
  unfolding build_row_absent_sql_plan
  plan-values dialect req = all_values req.identity_eq
    where
      all_values :
          (pairs : List IdentityEqPair)
          → map (λ (p : IdentityEqPair). p.value) (pairs ++ req.filter_eq)
            ≡ map (λ (p : IdentityEqPair). p.value) pairs
              ++ map (λ (p : IdentityEqPair). p.value) req.filter_eq
      all_values [] = refl
      all_values (p ∷ ps) = ap (λ (vs : List Text). p.value ∷ vs) (all_values ps)

-- The first row of an answer reads as a count of which `P` holds, by its column "v", or "V" if that is missing or null.
abbrev pub SqliteCount : Answer → (Number → Type 0) → Type 0
SqliteCount answer P =
    (row : Row) × (rows : List Row) × (v : Value) × (n : Number) × (answer ≡ returned (row ∷ rows))
    × Picks (row_get (text "v") row) (row_get (text "V") row) v
    × IsNumeral v n
    × P n

-- The same by its column "v", once the names of the columns are in lower case.
abbrev pub RemoteCount : Runtime → Answer → (Number → Type 0) → Type 0
RemoteCount js answer P =
    (row : Row) × (rows : List Row) × (v : Value) × (n : Number) × (answer ≡ returned (row ∷ rows))
    × (row_get (text "v") (lower_keys js row) ≡ some v)
    × IsNumeral v n
    × P n

abbrev pub IsZero : Number → Type 0
IsZero n = number_eq n (nat 0) ≡ true

abbrev pub IsNonzero : Number → Type 0
IsNonzero n = number_eq n (nat 0) ≡ false

-- What an output decides: it is verified if the count is zero, and inconsistent if it is not and the sample is answered.
abbrev pub Decides : ((Number → Type 0) → Type 0) → Answer → ReconcileOutput → Type 0
Decides Count sample out =
    ((out.status ≡ verified) ↔ Count IsZero)
    × ((out.status ≡ inconsistent)
        ↔ (Count IsNonzero × ((rows : List Row) × (sample ≡ returned rows))))
    × (is_proper out ≡ true)

-- What the code reads of a value.
abbrev pub Counted : Value → (Number → Type 0) → Type 0
Counted v P = (n : Number) × (normalize_count_v v ≡ some n) × P n

not_counted : (P : Number → Type 0) → ¬ Counted Value.undefined P
unfolding normalize_count_v
not_counted P (n, h, p) = cc h

numeral-Counted : (v : Value) (P : Number → Type 0) (n : Number) → IsNumeral v n → P n → Counted v P
numeral-Counted v P n i p = (n, (normalize_count_v-IsNumeral v n).1 i, p)

sqlite_counted :
    (row : Row) (P : Number → Type 0)
    → Counted (count_of (row ∷ [])) P
      ↔ ((v : Value) × Picks (row_get (text "v") row) (row_get (text "V") row) v × Counted v P)
unfolding count_of
sqlite_counted row P = coalesce-Picks (λ v. Counted v P) (not_counted P) _ _

pub SqliteCount_iff :
    (rows : List Row) (P : Number → Type 0)
    → Counted (count_of rows) P ↔ SqliteCount (returned rows) P
unfolding count_of
SqliteCount_iff [] P = (λ c. absurd (not_counted P c), λ (row, rows, v, n, e, q, i, p). cc e)
SqliteCount_iff (row ∷ rows) P = (
  λ c.
      let (v, picks, (n, e, p)) = (sqlite_counted row P).0 c in
      (row, rows, v, n, refl, picks, (normalize_count_v-IsNumeral v n).0 e, p),
  λ (row', rows', v, n, e, picks, i, p).
      let same : row' ≡ row = cc e in
      (sqlite_counted row P).1 (
        v,
        subst (λ r. Picks (row_get (text "v") r) (row_get (text "V") r) v) same picks,
        numeral-Counted v P n i p,
      ),
)

pub RemoteCount_iff :
    (js : Runtime) (rows : List Row) (P : Number → Type 0)
    → Counted (remote_count_of js rows) P ↔ RemoteCount js (returned rows) P
RemoteCount_iff js [] P = (λ c. absurd (not_counted P c), λ (row, rows, v, n, e, q, i, p). cc e)
RemoteCount_iff js (row ∷ rows) P = (
  λ (n, e, p). elim (Option-cases (row_get (text "v") (lower_keys js row))) [
    | inl q ↦ absurd (not_counted P (n, (rw q at e), p))
    | inr (v, q) ↦ (row, rows, v, n, refl, q, (normalize_count_v-IsNumeral v n).0 (rw q at e), p)
  ],
  λ (row', rows', v, n, e, q, i, p).
      let same : row' ≡ row = cc e in
      let found : row_get (text "v") (lower_keys js row) ≡ some v =
        subst (λ r. row_get (text "v") (lower_keys js r) ≡ some v) same q in
      subst (λ o. Counted (or_undefined o) P) (sym found) (numeral-Counted v P n i p),
)
