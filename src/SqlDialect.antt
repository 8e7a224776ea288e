-- ===== src/SqlDialect.antt =====
-- sqlDialect.ts: identifiers and placeholders in the five dialects. `RelationalSqlDialect` is the
-- dialects without BigQuery; the relational functions take a dialect of all five and give the
-- last branch to BigQuery, which their type rules out.
pub mod Quoting
use agentskeptic.Prelude.{ℕ, ◌+◌, Bool, true, false, List, [], ◌∷◌, ◌++◌, map, ◌==◌, if◌then◌else◌}
use agentskeptic.Js.{Text, Runtime, text, nat, join}

pub data SqlRowDialect : Type 0 where
  sqlite postgresql mysql mssql bigquery : SqlRowDialect

-- `id.replace(/q/g, "qq")` for a single code unit q.
unfoldable pub double : ℕ → Text → Text
double q [] = []
double q (c ∷ s) = let rest = double q s in if c == q then c ∷ c ∷ rest else c ∷ rest

-- The delimiters of a quoted identifier: 34 is ", 96 is `, 91 and 93 are [ and ].
abbrev pub opening : SqlRowDialect → ℕ
opening mysql = 96
opening mssql = 91
opening bigquery = 96
opening sqlite = 34
opening postgresql = 34

abbrev pub closing : SqlRowDialect → ℕ
closing mysql = 96
closing mssql = 93
closing bigquery = 96
closing sqlite = 34
closing postgresql = 34

unfoldable pub quote_ident : SqlRowDialect → Text → Text
unfolding double
quote_ident d id = opening d ∷ (double (closing d) id ++ (closing d ∷ []))

-- `full.split(".").filter(Boolean)`: the parts between dots (46) that are not empty.
push_part : Text → List Text → List Text
push_part [] parts = parts
push_part (c ∷ s) parts = (c ∷ s) ∷ parts

-- The part under way is in `part`.
unfoldable pub segments : Text → Text → List Text
unfolding push_part
segments part [] = push_part part []
segments part (c ∷ s) = elim (c == 46) [
  | true ↦ push_part part (segments [] s)
  | false ↦ segments (part ++ c ∷ []) s
]

abbrev quote_segments : List Text → Text
quote_segments [] = text "`invalid`"
quote_segments (p ∷ ps) = join (text ".") (map (quote_ident bigquery) (p ∷ ps))

unfoldable pub quote_big_query_table_id : Text → Text
unfolding segments quote_ident
quote_big_query_table_id full = quote_segments (segments [] full)

module _ (js : Runtime) where
  unfoldable pub next_placeholder_sql_row : SqlRowDialect → ℕ → Text
  next_placeholder_sql_row postgresql n = text "$" ++ js.number_text (nat n)
  next_placeholder_sql_row bigquery n = text "@p" ++ js.number_text (nat n)
  next_placeholder_sql_row _ n = text "?"

  unfoldable pub next_placeholder_relational : SqlRowDialect → ℕ → Text
  next_placeholder_relational postgresql n = text "$" ++ js.number_text (nat n)
  next_placeholder_relational mssql n = text "@p" ++ js.number_text (nat n)
  next_placeholder_relational _ n = text "?"
