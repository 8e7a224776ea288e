-- ===== src/SqlDialect/Quoting.antt =====
-- sqlDialect.ts: a quoted identifier ends where it should. The reader of a statement is that of the database, a parameter
-- with what the manuals of SQLite, PostgreSQL, MySQL and SQL Server say of quoted identifiers; BigQuery has other rules.
use agentskeptic.Prelude.{
  ℕ, ◌≡◌, ◌<◌, Bool, false, Option, none, some, [], ◌∷◌, ◌++◌, ◌==◌, All, Bool-cases, ==_iff, inl,
  inr, ap, ◌∙◌,
}
use mathlib.Core.List.{append_assoc}
use agentskeptic.Js.{Text}
use agentskeptic.SqlDialect.{
  SqlRowDialect, sqlite, postgresql, mysql, mssql, bigquery, double, quote_ident,
}

-- The text read so far is put in front of the result.
abbrev pub push : ℕ → Option (Text × Text) → Option (Text × Text)
push c none = none
push c (some (id, rest)) = some (c ∷ id, rest)

abbrev pub starts_with : ℕ → Text → Bool
starts_with q [] = false
starts_with q (c ∷ s) = c == q

-- The dialects in which a doubled delimiter stands for one.
abbrev pub HasDoubling : SqlRowDialect → Type 0
HasDoubling bigquery = ⊥
HasDoubling _ = Unit

-- The delimiters by the manuals: double quotes, backquotes in MySQL, brackets in SQL Server.
abbrev pub opens : SqlRowDialect → ℕ
opens mysql = 96
opens bigquery = 96
opens mssql = 91
opens sqlite = 34
opens postgresql = 34

abbrev pub closes : SqlRowDialect → ℕ
closes mysql = 96
closes bigquery = 96
closes mssql = 93
closes sqlite = 34
closes postgresql = 34

-- How a database reads the identifier that a text starts with: `read` from its opening delimiter on, and `continue`
-- within it. A closing delimiter ends it, but two of them stand for one, and any other character but NUL stands for itself.
pub record IsReader (d : SqlRowDialect) (read continue : Text → Option (Text × Text)) : Type 0 where
  pub opening_law : (s : Text) → read (opens d ∷ s) ≡ continue s
  pub end_law :
      (rest : Text)
      → starts_with (closes d) rest ≡ false
      → continue (closes d ∷ rest) ≡ some ([], rest)
  pub pair_law : (s : Text) → continue (closes d ∷ closes d ∷ s) ≡ push (closes d) (continue s)
  pub plain_law :
      (c : ℕ) (s : Text) → 0 < c → (c == closes d) ≡ false → continue (c ∷ s) ≡ push c (continue s)

module _ (d : SqlRowDialect) (read continue : Text → Option (Text × Text))
    (reader : IsReader d read continue) where
  double-read :
      (id rest : Text)
      → All (λ c. 0 < c) id
      → starts_with (closes d) rest ≡ false
      → continue (double (closes d) id ++ closes d ∷ rest) ≡ some (id, rest)
  unfolding double
  double-read [] rest a h = reader.end_law rest h
  double-read (c ∷ id) rest (a, rest_a) h = elim (Bool-cases (c == closes d)) [
    | inl e ↦
        let same : c ≡ closes d = (==_iff c (closes d)).0 e in
        rw e (
          pair c same (double (closes d) id ++ closes d ∷ rest)
          ∙ ap (push c) (double-read id rest rest_a h))
    | inr e ↦ rw e (
        reader.plain_law c (double (closes d) id ++ closes d ∷ rest) a e
        ∙ ap (push c) (double-read id rest rest_a h))
  ]
    where
      pair : (c : ℕ) → c ≡ closes d → (s : Text) → continue (c ∷ c ∷ s) ≡ push c (continue s)
      pair c e s = rw e (reader.pair_law s)

  quoted :
      (id rest : Text)
      → All (λ c. 0 < c) id
      → starts_with (closes d) rest ≡ false
      → read (opens d ∷ (double (closes d) id ++ closes d ∷ rest)) ≡ some (id, rest)
  quoted id rest a h = reader.opening_law _ ∙ double-read id rest a h

-- In SQLite, PostgreSQL, MySQL and SQL Server a quoted identifier without NUL, before a text that does not start with its closing
-- delimiter, is read as that identifier, whatever else it holds, and that text is left; if the database reads quoted identifiers
-- as its manual says.
pub quote-read :
    (d : SqlRowDialect) (read continue : Text → Option (Text × Text))
    → HasDoubling d
    → IsReader d read continue
    → (id rest : Text) → All (λ c. 0 < c) id
    → starts_with (closes d) rest ≡ false
    → read (quote_ident d id ++ rest) ≡ some (id, rest)
unfolding quote_ident
quote-read sqlite read continue k reader id rest a h =
    rw (append_assoc (double 34 id) (34 ∷ []) rest) (quoted sqlite read continue reader id rest a h)
quote-read postgresql read continue k reader id rest a h =
    rw (append_assoc (double 34 id) (34 ∷ []) rest)
      (quoted postgresql read continue reader id rest a h)
quote-read mysql read continue k reader id rest a h =
    rw (append_assoc (double 96 id) (96 ∷ []) rest) (quoted mysql read continue reader id rest a h)
quote-read mssql read continue k reader id rest a h =
    rw (append_assoc (double 93 id) (93 ∷ []) rest) (quoted mssql read continue reader id rest a h)
quote-read bigquery read continue k reader id rest a h = absurd k
