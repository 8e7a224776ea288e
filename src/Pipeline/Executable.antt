-- ===== src/Pipeline/Executable.antt =====
-- A request that the resolver lets through is executed to an output: no statement of it fails to be built.
use agentskeptic.Prelude.{◌≡◌, refl, Option, none, some, List, [], ◌∷◌, All, sym}
use mathlib.Core.Path.{subst}
use agentskeptic.Js.{Text, Runtime}
use agentskeptic.Types.{
  ResolvedRelationalCheck, related_exists, aggregate, join_count, anti_join, AggregateFn,
  count_star, sum, AggregateCheck,
}
use agentskeptic.SqlDialect.{SqlRowDialect, sqlite}
use agentskeptic.Reconciler.{Answer}
use agentskeptic.RelationalInvariant.{
  Statement, build_relational_scalar_sql, sum_sql, aggregate_by, send_scalar,
  reconcile_relational_query, reconcile_relational_sqlite,
}
use agentskeptic.ResolveExpectation.Specs.{is_ident}
use agentskeptic.ResolveExpectation.Safe.{IsSafeColumn, IsSafeCheck}
use agentskeptic.ResolveExpectation.SafeCheck.{IsSafe}
use agentskeptic.VerificationPolicy.Input.{Result, done}
use agentskeptic.VerificationPolicy.Execute.{
  Resolved, sql_row, sql_row_absent, sql_effects, sql_relational, state_witness, or_throw,
  relational_sqlite, map_relational, execute_strong_sync,
}

-- A call that returns.
abbrev pub Returns : {A : Type 0} → Result A → Type 0
Returns {A} r = (a : A) × (r ≡ done a)

module _ (js : Runtime) where
  sum-built :
      (dialect : SqlRowDialect) (c : AggregateCheck) (column : Option Text)
      → IsSafeColumn sum column
      → (s : Statement) × (sum_sql js dialect c column ≡ some s)
  unfolding is_ident
  sum-built dialect c none h = absurd h
  sum-built dialect c (some []) h = cc h
  sum-built dialect c (some (x ∷ xs)) h = (_, refl)

  aggregate-built :
      (dialect : SqlRowDialect) (c : AggregateCheck) (fn : AggregateFn)
      → IsSafeColumn fn c.sum_column
      → (s : Statement) × (aggregate_by js dialect c fn ≡ some s)
  aggregate-built dialect c count_star h = (_, refl)
  aggregate-built dialect c sum h = sum-built dialect c c.sum_column h

  pub safe-built :
      (dialect : SqlRowDialect) (check : ResolvedRelationalCheck)
      → IsSafeCheck check
      → (s : Statement) × (build_relational_scalar_sql js dialect check ≡ some s)
  unfolding build_relational_scalar_sql
  safe-built dialect (related_exists c) h = (_, refl)
  safe-built dialect (anti_join c) h = (_, refl)
  safe-built dialect (aggregate c) h = aggregate-built dialect c c.fn h.column
  safe-built dialect (join_count c) h = (_, refl)

  module _ (query : Text → List Text → Answer) where
    relational-Returns :
        (check : ResolvedRelationalCheck)
        → IsSafeCheck check
        → Returns (relational_sqlite js query check)
    unfolding relational_sqlite reconcile_relational_sqlite reconcile_relational_query
    relational-Returns check h =
        let ((statement, values), e) = safe-built sqlite check h in
        subst
          (λ o. Returns (
            or_throw
              (elim (send_scalar js {E = Unit {0}} sqlite (λ t vs u. (query t vs, u)) check o tt) [
                | none ↦ none
                | some (out, u) ↦ some out
              ])))
          (sym e) (_, refl)

    map-Returns :
        (checks : List ResolvedRelationalCheck)
        → All IsSafeCheck checks
        → Returns (map_relational js query checks)
    unfolding map_relational
    map-Returns [] h = ([], refl)
    map-Returns (c ∷ cs) (h, hs) =
        let (out, e) = relational-Returns c h in
        let (outs, es) = map-Returns cs hs in ((c, out) ∷ outs, rw (e, es, map_relational) refl)

    pub safe-Returns :
        (resolved : Resolved) → IsSafe resolved → Returns (execute_strong_sync js query resolved)
    unfolding execute_strong_sync
    safe-Returns (sql_row q) h = (_, refl)
    safe-Returns (sql_row_absent q) h = (_, refl)
    safe-Returns (sql_effects es) h = (_, refl)
    safe-Returns (state_witness q) h = (_, refl)
    safe-Returns (sql_relational []) h = let (outs, e) = map-Returns [] tt in rw e (_, refl)
    safe-Returns (sql_relational (c ∷ [])) (h, hs) =
        let (out, e) = relational-Returns c h in rw e (_, refl)
    safe-Returns (sql_relational (c ∷ d ∷ cs)) h =
        let (outs, e) = map-Returns (c ∷ d ∷ cs) h in rw e (_, refl)
