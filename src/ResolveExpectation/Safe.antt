-- ===== src/ResolveExpectation/Safe.antt =====
-- What the resolver lets through: every name that reaches a statement is an identifier, every list of columns ascends, a sum has its
-- column, and the numbers of a witness are in their ranges.
use agentskeptic.Prelude.{
  ◌≡◌, Bool, true, false, Option, none, some, List, [], ◌∷◌, ◌++◌, any, All, if◌then◌else◌,
}
use mathlib.Core.Path.{subst}
use agentskeptic.Js.{Text, Runtime, text, text_eq}
use agentskeptic.Js.Json.{Json, Fields, no_fields, field}
use agentskeptic.Types.{
  Scalar, IdentityEqPair, VerificationRequest, RowAbsentVerificationRequest,
  ResolvedRelationalCheck, related_exists, aggregate, join_count, anti_join, AggregateFn,
  count_star, sum, RelatedExistsCheck, AggregateCheck, JoinCountCheck, AntiJoinCheck,
}
use agentskeptic.Types.Registry.{SqlRowVerificationSpec, SqlRowAbsentVerificationSpec}
use agentskeptic.ResolveExpectation.Outcome.{ok, bind-ok, ok-injective, if-ok, if_not-ok}
use agentskeptic.ResolveExpectation.Specs.{resolve_table_ident, is_ident}
use agentskeptic.ResolveExpectation.Rows.{
  list_or_empty, resolve_pairs, resolve_registry_equality_list, object_at, scalar_fields,
  field_scalar, check_key, not_identity, proto, not_scalar, resolve_sql_row_spec,
  resolve_sql_row_absent_spec, normalize_sorted_identity_eq,
}
use agentskeptic.ResolveExpectation.Columns.{
  IsIdent, AreColumns, resolve_table-IsIdent, resolve_pairs-Tested, equality_list-AreColumns,
  normalize-AreColumns, normalize-All,
}

pub record IsSafeRow (req : VerificationRequest) : Type 0 where
  pub table_ident : IsIdent req.table
  pub identity_columns : AreColumns req.identity_eq
  pub field_idents : All (λ f. IsIdent f.0) req.required_fields

-- No identity column has the name.
abbrev pub IsFresh : List IdentityEqPair → Text → Type 0
IsFresh identity c = any (λ (p : IdentityEqPair). text_eq p.column c) identity ≡ false

pub record IsSafeAbsent (req : RowAbsentVerificationRequest) : Type 0 where
  pub table_ident : IsIdent req.table
  pub identity_columns : AreColumns req.identity_eq
  pub filter_columns : AreColumns req.filter_eq
  pub filters_fresh : All (λ p. IsFresh req.identity_eq p.column) req.filter_eq

pub record IsSafeExists (c : RelatedExistsCheck) : Type 0 where
  pub table_ident : IsIdent c.child_table
  pub match_columns : AreColumns c.match_eq

-- The column of a sum is an identifier; a count has none.
abbrev pub IsSafeColumn : AggregateFn → Option Text → Type 0
IsSafeColumn sum (some column) = IsIdent column
IsSafeColumn sum none = ⊥
IsSafeColumn count_star column = column ≡ none

pub record IsSafeAggregate (c : AggregateCheck) : Type 0 where
  pub table_ident : IsIdent c.table
  pub column : IsSafeColumn c.fn c.sum_column
  pub where_idents : All (λ p. IsIdent p.column) c.where_eq

pub record IsSafeJoin (c : JoinCountCheck) : Type 0 where
  pub left_ident : IsIdent c.left_table
  pub right_ident : IsIdent c.right_table
  pub left_column_ident : IsIdent c.left_join_column
  pub right_column_ident : IsIdent c.right_join_column
  pub where_idents : All (λ p. IsIdent p.column) c.where_eq

pub record IsSafeAntiJoin (c : AntiJoinCheck) : Type 0 where
  pub anchor_ident : IsIdent c.anchor_table
  pub lookup_ident : IsIdent c.lookup_table
  pub anchor_column_ident : IsIdent c.anchor_column
  pub lookup_column_ident : IsIdent c.lookup_column
  pub presence_column_ident : IsIdent c.lookup_presence_column
  pub anchor_filters : AreColumns c.filter_eq_anchor
  pub lookup_filters : AreColumns c.filter_eq_lookup

abbrev pub IsSafeCheck : ResolvedRelationalCheck → Type 0
IsSafeCheck (related_exists c) = IsSafeExists c
IsSafeCheck (aggregate c) = IsSafeAggregate c
IsSafeCheck (join_count c) = IsSafeJoin c
IsSafeCheck (anti_join c) = IsSafeAntiJoin c

module _ (js : Runtime) (params : Json) where
  scalar_fields-IsIdent :
      (label name wrong : Text) (fs : Fields) {out : List (Text × Scalar)}
      → scalar_fields js params (check_key js params label) name wrong fs ≡ ok out
      → All (λ (f : Text × Scalar). IsIdent f.0) out
  unfolding scalar_fields
  scalar_fields-IsIdent label name wrong no_fields h =
      subst (All (λ (f : Text × Scalar). IsIdent f.0)) (ok-injective h) tt
  scalar_fields-IsIdent label name wrong (field k v fs) h =
      let (key, p, h1) = bind-ok (check_key js params label k) _ h in
      let (value, q, h2) = bind-ok (field_scalar js params (name ++ text "." ++ k) wrong v) _ h1 in
      let (rest, r, h3) =
        bind-ok (scalar_fields js params (check_key js params label) name wrong fs) _ h2 in
      let (t, same) = if-ok (is_ident k) k _ _ p in
      subst (All (λ (f : Text × Scalar). IsIdent f.0)) (ok-injective h3) (
        assigned-IsIdent key value rest (text_eq key proto) (subst IsIdent same t)
          (scalar_fields-IsIdent label name wrong fs r))
    where
      assigned-IsIdent :
          (key : Text) (value : Scalar) (rest : List (Text × Scalar)) (b : Bool)
          → IsIdent key
          → All (λ (f : Text × Scalar). IsIdent f.0) rest
          → All (λ (f : Text × Scalar). IsIdent f.0) (if b then rest else (key, value) ∷ rest)
      assigned-IsIdent key value rest true i g = g
      assigned-IsIdent key value rest false i g = (i, g)

  pub row-IsSafe :
      (label : Text) (spec : SqlRowVerificationSpec) {out : VerificationRequest}
      → resolve_sql_row_spec js params label spec ≡ ok out
      → IsSafeRow out
  unfolding resolve_sql_row_spec
  row-IsSafe label spec h =
      let (table, p1, h1) =
        bind-ok (resolve_table_ident js params (label ++ text "table") spec.table) _ h in
      let (identity, p2, h2) =
        bind-ok (resolve_registry_equality_list js params label spec.identity_eq) _ h1 in
      let (raw, p3, h3) =
        bind-ok (object_at js params (label ++ text "requiredFields") spec.required_fields) _ h2 in
      let (fields, p4, h4) =
        bind-ok
          (scalar_fields js params (check_key js params label) (label ++ text "requiredFields")
            (not_scalar js params) raw)
          _ h3 in
      subst IsSafeRow (ok-injective h4) (record {
        table_ident = resolve_table-IsIdent js params _ spec.table p1;
        identity_columns = equality_list-AreColumns js params label spec.identity_eq p2;
        field_idents = scalar_fields-IsIdent label _ _ raw p4;
      })

  pub absent-IsSafe :
      (label : Text) (spec : SqlRowAbsentVerificationSpec) {out : RowAbsentVerificationRequest}
      → resolve_sql_row_absent_spec js params label spec ≡ ok out
      → IsSafeAbsent out
  unfolding resolve_sql_row_absent_spec
  absent-IsSafe label spec h =
      let (table, p1, h1) =
        bind-ok (resolve_table_ident js params (label ++ text "table") spec.table) _ h in
      let (identity, p2, h2) =
        bind-ok (resolve_registry_equality_list js params label spec.identity_eq) _ h1 in
      let test = not_identity js params label identity in
      let (raw, p3, h3) =
        bind-ok
          (resolve_pairs js params test (label ++ text "filterEq") 0 (list_or_empty spec.filter_eq))
          _ h2 in
      let (filters, p4, h4) =
        bind-ok (normalize_sorted_identity_eq (label ++ text "filterEq: ") raw) _ h3 in
      let tested =
        resolve_pairs-Tested js params (IsFresh identity) test (fresh identity) _ 0
          (list_or_empty spec.filter_eq) p3 in
      let (idents, freshs) = parts identity raw tested in
      subst IsSafeAbsent (ok-injective h4) (record {
        table_ident = resolve_table-IsIdent js params _ spec.table p1;
        identity_columns = equality_list-AreColumns js params label spec.identity_eq p2;
        filter_columns = normalize-AreColumns _ raw p4 idents;
        filters_fresh = normalize-All (λ p. IsFresh identity p.column) _ raw p4 freshs;
      })
    where
      fresh :
          (identity : List IdentityEqPair) (c d : Text)
          → not_identity js params label identity c ≡ ok d
          → (c ≡ d) × IsFresh identity d
      fresh identity c d h =
          let (t, same) =
            if_not-ok (any (λ (p : IdentityEqPair). text_eq p.column c) identity) c _ _ h in
          (same, subst (IsFresh identity) same t)

      parts :
          (identity ps : List IdentityEqPair)
          → All (λ (p : IdentityEqPair). IsIdent p.column × IsFresh identity p.column) ps
          → All (λ (p : IdentityEqPair). IsIdent p.column) ps
            × All (λ (p : IdentityEqPair). IsFresh identity p.column) ps
      parts identity [] g = (tt, tt)
      parts identity (p ∷ ps) ((a, b), gs) = let (x, y) = parts identity ps gs in ((a, x), (b, y))
