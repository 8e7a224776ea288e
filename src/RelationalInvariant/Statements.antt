-- ===== src/RelationalInvariant/Statements.antt =====
-- relationalInvariant.ts: the statements. `L` and `A` are table aliases.
use agentskeptic.Prelude.{ℕ, ◌+◌, Option, none, some, List, [], ◌∷◌, ◌++◌, map}
use agentskeptic.Prelude.Sort.{sort}
use agentskeptic.Js.{Text, Runtime, text, nat, join}
use agentskeptic.Types.{
  IdentityEqPair, SidedEqPair, Side, left, right, AggregateFn, count_star, sum, RelatedExistsCheck,
  AggregateCheck, JoinCountCheck, AntiJoinCheck, ResolvedRelationalCheck, related_exists, aggregate,
  join_count, anti_join,
}
use agentskeptic.SqlDialect.{SqlRowDialect, quote_ident, next_placeholder_relational}
use agentskeptic.Reconciler.{distinct, utf16_le, max_verification_sample_rows}

-- A statement with its values; `none` is the error "SUM requires sumColumn".
abbrev pub Statement : Type 0
Statement = Text × List Text

abbrev pub pair_values : List IdentityEqPair → List Text
pair_values = map (λ p. p.value)

abbrev pub sided_values : List SidedEqPair → List Text
sided_values = map (λ p. p.value)

abbrev side_alias : Side → Text
side_alias left = text "L"
side_alias right = text "R"

-- `WHERE` and its conditions, or nothing where there are none.
abbrev where_part : List Text → Text
where_part [] = []
where_part (c ∷ cs) = text " WHERE " ++ join (text " AND ") (c ∷ cs)

module _ (js : Runtime) (dialect : SqlRowDialect) where
  pub qid : Text → Text
  qid = quote_ident dialect

  -- `alias.column = placeholder` for each pair, with placeholders numbered from `n`.
  unfoldable pub pair_conditions : Text → ℕ → List IdentityEqPair → List Text
  unfolding qid
  pair_conditions alias n [] = []
  pair_conditions alias n (w ∷ ws) =
      (alias ++ text "." ++ qid w.column ++ text " = " ++ next_placeholder_relational js dialect n)
      ∷ pair_conditions alias (n + 1) ws

  unfoldable pub sided_conditions : ℕ → List SidedEqPair → List Text
  unfolding qid
  sided_conditions n [] = []
  sided_conditions n (w ∷ ws) =
      (side_alias w.side
        ++ text "."
        ++ qid w.column
        ++ text " = "
        ++ next_placeholder_relational js dialect n)
      ∷ sided_conditions (n + 1) ws

  -- The placeholder after those of `ws`.
  abbrev after_pairs : ℕ → List IdentityEqPair → ℕ
  after_pairs n [] = n
  after_pairs n (w ∷ ws) = after_pairs (n + 1) ws

  related_exists_sql : RelatedExistsCheck → Statement
  unfolding qid pair_conditions
  related_exists_sql check =
      let t = qid check.child_table in
      (
        text "SELECT EXISTS (SELECT 1 FROM "
            ++ t
            ++ text " WHERE "
            ++ join (text " AND ") (pair_conditions t 1 check.match_eq)
            ++ text " LIMIT 1) AS v",
        pair_values check.match_eq,
      )

  -- The join and its conditions, which the count and the sample share.
  anti_join_from : AntiJoinCheck → Text
  unfolding qid pair_conditions
  anti_join_from check =
      text " FROM "
      ++ qid check.anchor_table
      ++ text " AS A LEFT JOIN "
      ++ qid check.lookup_table
      ++ text " AS L ON "
      ++ join (text " AND ") (
          (text "A." ++ qid check.anchor_column ++ text " = L." ++ qid check.lookup_column)
          ∷ pair_conditions (text "L") 1 check.filter_eq_lookup)
      ++ text " WHERE "
      ++ join (text " AND ") (
          (text "L." ++ qid check.lookup_presence_column ++ text " IS NULL")
          ∷ pair_conditions (text "A") (after_pairs 1 check.filter_eq_lookup)
              check.filter_eq_anchor)

  abbrev anti_join_values : AntiJoinCheck → List Text
  anti_join_values check = pair_values check.filter_eq_lookup ++ pair_values check.filter_eq_anchor

  anti_join_sql : AntiJoinCheck → Statement
  unfolding anti_join_from
  anti_join_sql check =
      (text "SELECT COUNT(*) AS v" ++ anti_join_from check, anti_join_values check)

  abbrev pub with_conditions : Text → AggregateCheck → Text → Option Statement
  with_conditions tbl check select_part =
      some (
        select_part ++ where_part (pair_conditions tbl 1 check.where_eq),
        pair_values check.where_eq,
      )

  -- `if (!col)`: an empty column counts as missing.
  abbrev pub sum_sql : AggregateCheck → Option Text → Option Statement
  sum_sql check none = none
  sum_sql check (some []) = none
  sum_sql check (some (c ∷ col)) =
      let tbl = qid check.table in
      with_conditions tbl check
        (text "SELECT COALESCE(SUM(" ++ qid (c ∷ col) ++ text "), 0) AS v FROM " ++ tbl)

  abbrev pub aggregate_by : AggregateCheck → AggregateFn → Option Statement
  aggregate_by check count_star =
      let tbl = qid check.table in
      with_conditions tbl check (text "SELECT COUNT(*) AS v FROM " ++ tbl)
  aggregate_by check sum = sum_sql check check.sum_column

  join_count_sql : JoinCountCheck → Statement
  unfolding qid sided_conditions
  join_count_sql check = (
    text "SELECT COUNT(*) AS v FROM "
        ++ qid check.left_table
        ++ text " AS L INNER JOIN "
        ++ qid check.right_table
        ++ text " AS R ON L."
        ++ qid check.left_join_column
        ++ text " = R."
        ++ qid check.right_join_column
        ++ where_part (sided_conditions 1 check.where_eq),
    sided_values check.where_eq,
  )

  unfoldable pub build_relational_scalar_sql : ResolvedRelationalCheck → Option Statement
  unfolding qid related_exists_sql anti_join_sql pair_conditions join_count_sql
  build_relational_scalar_sql (related_exists check) = some (related_exists_sql check)
  build_relational_scalar_sql (anti_join check) = some (anti_join_sql check)
  build_relational_scalar_sql (aggregate check) = aggregate_by check check.fn
  build_relational_scalar_sql (join_count check) = some (join_count_sql check)

  unfoldable pub build_anti_join_sample_sql : AntiJoinCheck → Statement
  unfolding qid anti_join_from
  build_anti_join_sample_sql check =
      let columns =
        sort utf16_le
          (distinct [] (check.anchor_column ∷ map (λ p. p.column) check.filter_eq_anchor)) in
      (
        text "SELECT "
            ++ join (text ", ") (map (λ c. text "A." ++ qid c) columns)
            ++ anti_join_from check
            ++ text " LIMIT "
            ++ js.number_text (nat max_verification_sample_rows),
        anti_join_values check,
      )
