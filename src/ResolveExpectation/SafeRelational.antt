-- ===== src/ResolveExpectation/SafeRelational.antt =====
-- The relational checks that the resolver lets through.
use agentskeptic.Prelude.{ℕ, ◌≡◌, Option, none, some, List, [], ◌∷◌, ◌++◌, ◌+◌, All}
use mathlib.Core.Path.{subst}
use agentskeptic.Js.{Text, Runtime, text}
use agentskeptic.Js.Json.{Json}
use agentskeptic.Types.{SidedEqPair, ResolvedRelationalCheck, AggregateFn, count_star, sum}
use agentskeptic.Types.Registry.{
  RegistryStringSpec, SidedEqualityPair, AntiJoinSpec, RelatedExistsSpec, AggregateSpec,
  JoinCountSpec, SqlRelationalCheckSpec, spec_id,
}
use agentskeptic.ResolveExpectation.Outcome.{ok, bind-ok, ok-injective}
use agentskeptic.ResolveExpectation.Specs.{
  resolve_column, resolve_table_ident, resolve_key_value, resolve_expect_number,
}
use agentskeptic.ResolveExpectation.Rows.{
  list_or_empty, indexed, relabelled, resolve_pairs, resolve_registry_equality_list,
  normalize_sorted_identity_eq,
}
use agentskeptic.ResolveExpectation.Relational.{
  resolve_anti_join, resolve_related_exists, resolve_aggregate, resolve_sum_column,
  resolve_sided_pairs, resolve_join_count, resolve_sql_relational_check,
}
use agentskeptic.ResolveExpectation.Columns.{
  IsIdent, resolve_column-IsIdent, resolve_table-IsIdent, plain_pairs-IsIdent,
  equality_list-AreColumns, normalize-AreColumns,
}
use agentskeptic.ResolveExpectation.Request.{new_id, resolve_checks}
use agentskeptic.ResolveExpectation.Safe.{IsSafeColumn, IsSafeCheck}

module _ (js : Runtime) (params : Json) where
  sided_pairs-IsIdent :
      (label : Text) (i : ℕ) (specs : List SidedEqualityPair) {out : List SidedEqPair}
      → resolve_sided_pairs js params label i specs ≡ ok out
      → All (λ (p : SidedEqPair). IsIdent p.column) out
  unfolding resolve_sided_pairs
  sided_pairs-IsIdent label i [] h =
      subst (All (λ (p : SidedEqPair). IsIdent p.column)) (ok-injective h) tt
  sided_pairs-IsIdent label i (w ∷ ws) h =
      let (c, p1, h1) =
        bind-ok
          (resolve_column js params
            (indexed js params (label ++ text "whereEq") i ++ text ".column") w.column)
          _ h in
      let (v, p2, h2) =
        bind-ok
          (relabelled (indexed js params (label ++ text "whereEq") i ++ text ". ")
            (resolve_key_value js params w.value))
          _ h1 in
      let (rest, p3, h3) = bind-ok (resolve_sided_pairs js params label (i + 1) ws) _ h2 in
      subst (All (λ (p : SidedEqPair). IsIdent p.column)) (ok-injective h3)
        (resolve_column-IsIdent js params _ w.column p1, sided_pairs-IsIdent label (i + 1) ws p3)

  sum_column-IsSafe :
      (label : Text) (fn : AggregateFn) (spec : Option RegistryStringSpec) {out : Option Text}
      → resolve_sum_column js params label fn spec ≡ ok out
      → IsSafeColumn fn out
  sum_column-IsSafe label count_star spec h = cc h
  sum_column-IsSafe label sum none h = cc h
  sum_column-IsSafe label sum (some column) h =
      let (v, p, h1) = bind-ok (resolve_column js params (label ++ text "sumColumn") column) _ h in
      subst (IsSafeColumn sum) (ok-injective h1) (resolve_column-IsIdent js params _ column p)

  module _ (label : Text) where
    exists-IsSafe :
        (spec : RelatedExistsSpec) {out : ResolvedRelationalCheck}
        → resolve_related_exists js params label spec ≡ ok out
        → IsSafeCheck out
    unfolding resolve_related_exists
    exists-IsSafe spec h =
        let (child, p1, h1) =
          bind-ok (resolve_table_ident js params (label ++ text "childTable") spec.child_table) _
            h in
        let (pairs, p2, h2) =
          bind-ok (resolve_registry_equality_list js params label spec.match_eq) _ h1 in
        subst IsSafeCheck (ok-injective h2) (record {
          table_ident = resolve_table-IsIdent js params _ spec.child_table p1;
          match_columns = equality_list-AreColumns js params label spec.match_eq p2;
        })

    aggregate-IsSafe :
        (spec : AggregateSpec) {out : ResolvedRelationalCheck}
        → resolve_aggregate js params label spec ≡ ok out
        → IsSafeCheck out
    unfolding resolve_aggregate
    aggregate-IsSafe spec h =
        let (tbl, p1, h1) =
          bind-ok (resolve_table_ident js params (label ++ text "table") spec.table) _ h in
        let (column, p2, h2) =
          bind-ok (resolve_sum_column js params label spec.fn spec.sum_column) _ h1 in
        let (pairs, p3, h3) =
          bind-ok
            (resolve_pairs js params ok (label ++ text "whereEq") 0 (list_or_empty spec.where_eq)) _
            h2 in
        let (value, p4, h4) =
          bind-ok (resolve_expect_number js params (label ++ text "expect.value") spec.expect.value)
            _ h3 in
        subst IsSafeCheck (ok-injective h4) (record {
          table_ident = resolve_table-IsIdent js params _ spec.table p1;
          column = sum_column-IsSafe label spec.fn spec.sum_column p2;
          where_idents = plain_pairs-IsIdent js params _ 0 (list_or_empty spec.where_eq) p3;
        })

    join-IsSafe :
        (spec : JoinCountSpec) {out : ResolvedRelationalCheck}
        → resolve_join_count js params label spec ≡ ok out
        → IsSafeCheck out
    unfolding resolve_join_count
    join-IsSafe spec h =
        let (left, p1, h1) =
          bind-ok (resolve_table_ident js params (label ++ text "leftTable") spec.left_table) _ h in
        let (right, p2, h2) =
          bind-ok (resolve_table_ident js params (label ++ text "rightTable") spec.right_table) _
            h1 in
        let (lj, p3, h3) =
          bind-ok (resolve_column js params (label ++ text "join.leftColumn") spec.left_column) _
            h2 in
        let (rj, p4, h4) =
          bind-ok (resolve_column js params (label ++ text "join.rightColumn") spec.right_column) _
            h3 in
        let (pairs, p5, h5) =
          bind-ok (resolve_sided_pairs js params label 0 (list_or_empty spec.where_eq)) _ h4 in
        let (value, p6, h6) =
          bind-ok (resolve_expect_number js params (label ++ text "expect.value") spec.expect.value)
            _ h5 in
        subst IsSafeCheck (ok-injective h6) (record {
          left_ident = resolve_table-IsIdent js params _ spec.left_table p1;
          right_ident = resolve_table-IsIdent js params _ spec.right_table p2;
          left_column_ident = resolve_column-IsIdent js params _ spec.left_column p3;
          right_column_ident = resolve_column-IsIdent js params _ spec.right_column p4;
          where_idents = sided_pairs-IsIdent label 0 (list_or_empty spec.where_eq) p5;
        })

    anti_join-IsSafe :
        (spec : AntiJoinSpec) {out : ResolvedRelationalCheck}
        → resolve_anti_join js params label spec ≡ ok out
        → IsSafeCheck out
    unfolding resolve_anti_join
    anti_join-IsSafe spec h =
        let (anchor, p1, h1) =
          bind-ok (resolve_table_ident js params (label ++ text "anchorTable") spec.anchor_table) _
            h in
        let (lookup, p2, h2) =
          bind-ok (resolve_table_ident js params (label ++ text "lookupTable") spec.lookup_table) _
            h1 in
        let (ac, p3, h3) =
          bind-ok (resolve_column js params (label ++ text "anchorColumn") spec.anchor_column) _
            h2 in
        let (lc, p4, h4) =
          bind-ok (resolve_column js params (label ++ text "lookupColumn") spec.lookup_column) _
            h3 in
        let (pc, p5, h5) =
          bind-ok
            (resolve_column js params (label ++ text "lookupPresenceColumn")
              spec.lookup_presence_column)
            _ h4 in
        let (fa, p6, h6) =
          bind-ok
            (resolve_pairs js params ok (label ++ text "filterEqAnchor") 0
              (list_or_empty spec.filter_eq_anchor))
            _ h5 in
        let (fl, p7, h7) =
          bind-ok
            (resolve_pairs js params ok (label ++ text "filterEqLookup") 0
              (list_or_empty spec.filter_eq_lookup))
            _ h6 in
        let (na, p8, h8) =
          bind-ok (normalize_sorted_identity_eq (label ++ text "filterEqAnchor: ") fa) _ h7 in
        let (nl, p9, h9) =
          bind-ok (normalize_sorted_identity_eq (label ++ text "filterEqLookup: ") fl) _ h8 in
        subst IsSafeCheck (ok-injective h9) (record {
          anchor_ident = resolve_table-IsIdent js params _ spec.anchor_table p1;
          lookup_ident = resolve_table-IsIdent js params _ spec.lookup_table p2;
          anchor_column_ident = resolve_column-IsIdent js params _ spec.anchor_column p3;
          lookup_column_ident = resolve_column-IsIdent js params _ spec.lookup_column p4;
          presence_column_ident = resolve_column-IsIdent js params _ spec.lookup_presence_column p5;
          anchor_filters =
              normalize-AreColumns _ fa p8
                (plain_pairs-IsIdent js params _ 0 (list_or_empty spec.filter_eq_anchor) p6);
          lookup_filters =
              normalize-AreColumns _ fl p9
                (plain_pairs-IsIdent js params _ 0 (list_or_empty spec.filter_eq_lookup) p7);
        })

    check-IsSafe :
        (spec : SqlRelationalCheckSpec) {out : ResolvedRelationalCheck}
        → resolve_sql_relational_check js params label spec ≡ ok out
        → IsSafeCheck out
    unfolding resolve_sql_relational_check
    check-IsSafe (SqlRelationalCheckSpec.anti_join spec) h = anti_join-IsSafe spec h
    check-IsSafe (SqlRelationalCheckSpec.related_exists spec) h = exists-IsSafe spec h
    check-IsSafe (SqlRelationalCheckSpec.aggregate spec) h = aggregate-IsSafe spec h
    check-IsSafe (SqlRelationalCheckSpec.join_count spec) h = join-IsSafe spec h

  pub checks-IsSafe :
      (seen : List Text) (specs : List SqlRelationalCheckSpec) {out : List ResolvedRelationalCheck}
      → resolve_checks js params seen specs ≡ ok out
      → All IsSafeCheck out
  unfolding resolve_checks
  checks-IsSafe seen [] h = subst (All IsSafeCheck) (ok-injective h) tt
  checks-IsSafe seen (item ∷ items) h =
      let (id, p1, h1) = bind-ok (new_id seen (spec_id item)) _ h in
      let (check, p2, h2) =
        bind-ok (resolve_sql_relational_check js params (text "checks[" ++ id ++ text "].") item) _
          h1 in
      let (rest, p3, h3) = bind-ok (resolve_checks js params (id ∷ seen) items) _ h2 in
      subst (All IsSafeCheck) (ok-injective h3)
        (check-IsSafe _ item p2, checks-IsSafe (id ∷ seen) items p3)
