-- ===== src/ResolveExpectation/Relational.antt =====
-- resolveExpectation.ts: the checks of a relational expectation.
use agentskeptic.Prelude.{ℕ, ◌+◌, Option, none, some, List, [], ◌∷◌, ◌++◌}
use agentskeptic.Js.{Text, Runtime, text}
use agentskeptic.Js.Json.{Json}
use agentskeptic.WireReasonCodes.{RegistryResolverCode}
use agentskeptic.Types.{SidedEqPair, AggregateFn, count_star, sum, ResolvedRelationalCheck}
use agentskeptic.Types.Registry.{
  RegistryStringSpec, AggregateSpec, JoinCountSpec, RelatedExistsSpec, AntiJoinSpec,
  SidedEqualityPair, SqlRelationalCheckSpec,
}
use agentskeptic.ResolveExpectation.Outcome.{Outcome, ok, refused, ◌>>=◌}
use agentskeptic.ResolveExpectation.Specs.{
  resolve_column, resolve_table_ident, resolve_key_value, resolve_expect_number,
}
use agentskeptic.ResolveExpectation.Rows.{
  normalize_sorted_identity_eq, relabelled, list_or_empty, indexed, resolve_pairs,
  resolve_registry_equality_list,
}

module _ (js : Runtime) (params : Json) (label : Text) where
  unfoldable pub resolve_anti_join : AntiJoinSpec → Outcome ResolvedRelationalCheck
  unfolding resolve_pairs
  resolve_anti_join spec = do
    anchor ← resolve_table_ident js params (label ++ text "anchorTable") spec.anchor_table
    lookup ← resolve_table_ident js params (label ++ text "lookupTable") spec.lookup_table
    ac ← resolve_column js params (label ++ text "anchorColumn") spec.anchor_column
    lc ← resolve_column js params (label ++ text "lookupColumn") spec.lookup_column
    pc ← resolve_column js params (label ++ text "lookupPresenceColumn") spec.lookup_presence_column
    fa ←
        resolve_pairs js params ok (label ++ text "filterEqAnchor") 0
          (list_or_empty spec.filter_eq_anchor)
    fl ←
        resolve_pairs js params ok (label ++ text "filterEqLookup") 0
          (list_or_empty spec.filter_eq_lookup)
    anchor_filters ← normalize_sorted_identity_eq (label ++ text "filterEqAnchor: ") fa
    lookup_filters ← normalize_sorted_identity_eq (label ++ text "filterEqLookup: ") fl
    ok (
        ResolvedRelationalCheck.anti_join (record {
          id = spec.id;
          anchor_table = anchor;
          lookup_table = lookup;
          anchor_column = ac;
          lookup_column = lc;
          lookup_presence_column = pc;
          filter_eq_anchor = anchor_filters;
          filter_eq_lookup = lookup_filters;
        }))

  unfoldable pub resolve_related_exists : RelatedExistsSpec → Outcome ResolvedRelationalCheck
  unfolding resolve_registry_equality_list
  resolve_related_exists spec = do
    child ← resolve_table_ident js params (label ++ text "childTable") spec.child_table
    pairs ← resolve_registry_equality_list js params label spec.match_eq
    ok (
        ResolvedRelationalCheck.related_exists
          (record { id = spec.id; child_table = child; match_eq = pairs }))

  -- The column of a sum; none for a count.
  abbrev pub resolve_sum_column : AggregateFn → Option RegistryStringSpec → Outcome (Option Text)
  resolve_sum_column count_star column = ok none
  resolve_sum_column sum none =
      refused RegistryResolverCode.relational_sum_column_required
        (label ++ text "sumColumn required when fn is SUM")
  resolve_sum_column sum (some column) = do
    value ← resolve_column js params (label ++ text "sumColumn") column
    ok (some value)

  unfoldable pub resolve_aggregate : AggregateSpec → Outcome ResolvedRelationalCheck
  unfolding resolve_pairs
  resolve_aggregate spec = do
    tbl ← resolve_table_ident js params (label ++ text "table") spec.table
    column ← resolve_sum_column spec.fn spec.sum_column
    pairs ← resolve_pairs js params ok (label ++ text "whereEq") 0 (list_or_empty spec.where_eq)
    value ← resolve_expect_number js params (label ++ text "expect.value") spec.expect.value
    ok (
        ResolvedRelationalCheck.aggregate (record {
          id = spec.id;
          table = tbl;
          fn = spec.fn;
          sum_column = column;
          where_eq = pairs;
          expect_op = spec.expect.op;
          expect_value = value;
        }))

  unfoldable pub resolve_sided_pairs : ℕ → List SidedEqualityPair → Outcome (List SidedEqPair)
  resolve_sided_pairs i [] = ok []
  resolve_sided_pairs i (w ∷ ws) = do
    column ←
        resolve_column js params (indexed js params (label ++ text "whereEq") i ++ text ".column")
          w.column
    value ←
        relabelled (indexed js params (label ++ text "whereEq") i ++ text ". ")
          (resolve_key_value js params w.value)
    rest ← resolve_sided_pairs (i + 1) ws
    ok (record { side = w.table_side; column = column; value = value } ∷ rest)

  unfoldable pub resolve_join_count : JoinCountSpec → Outcome ResolvedRelationalCheck
  unfolding resolve_sided_pairs
  resolve_join_count spec = do
    left ← resolve_table_ident js params (label ++ text "leftTable") spec.left_table
    right ← resolve_table_ident js params (label ++ text "rightTable") spec.right_table
    lj ← resolve_column js params (label ++ text "join.leftColumn") spec.left_column
    rj ← resolve_column js params (label ++ text "join.rightColumn") spec.right_column
    pairs ← resolve_sided_pairs 0 (list_or_empty spec.where_eq)
    value ← resolve_expect_number js params (label ++ text "expect.value") spec.expect.value
    ok (
        ResolvedRelationalCheck.join_count (record {
          id = spec.id;
          left_table = left;
          right_table = right;
          left_join_column = lj;
          right_join_column = rj;
          where_eq = pairs;
          expect_op = spec.expect.op;
          expect_value = value;
        }))

  unfoldable pub resolve_sql_relational_check :
      SqlRelationalCheckSpec → Outcome ResolvedRelationalCheck
  unfolding resolve_anti_join resolve_related_exists resolve_aggregate resolve_join_count
  resolve_sql_relational_check (SqlRelationalCheckSpec.anti_join spec) = resolve_anti_join spec
  resolve_sql_relational_check (SqlRelationalCheckSpec.related_exists spec) =
      resolve_related_exists spec
  resolve_sql_relational_check (SqlRelationalCheckSpec.aggregate spec) = resolve_aggregate spec
  resolve_sql_relational_check (SqlRelationalCheckSpec.join_count spec) = resolve_join_count spec
