-- ===== src/VerificationPolicy/Agreement.antt =====
-- The two executors agree: under a strong policy the asynchronous one, over the SQLite context, does what
-- the synchronous one does.
use agentskeptic.Prelude.{ℕ, ◌≡◌, refl, List, [], ◌∷◌, map, ap, ◌∙◌, arith}
use agentskeptic.Js.{Text, Number, Runtime}
use agentskeptic.Types.{VerificationRequest, ResolvedEffect, ResolvedRelationalCheck, strong}
use agentskeptic.Reconciler.{ReconcileOutput, Answer, reconcile_sql_row}
use agentskeptic.MultiEffectRollup.{
  effect_input, rollup_multi_effects_from_reconciled_rows, rollup_multi_effects_sync,
}
use agentskeptic.VerificationPolicy.Input.{Result, done, resolve_verification_policy_input}
use agentskeptic.VerificationPolicy.Run.{pure, ◌>>=◌, all_settled, Environment}
use agentskeptic.VerificationPolicy.Classify.{to_effect_inputs}
use agentskeptic.VerificationPolicy.Execute.{
  Resolved, sql_row, sql_row_absent, sql_effects, sql_relational, state_witness, relational_sqlite,
  map_relational, execute_strong_sync, execute_strong_async, create_sqlite_policy_context,
  relational_strong, relational_sync, execute_verification_with_policy_sync,
  execute_verification_with_policy_async,
}

module _ {E A B : Type 0} (f : A → B) where
  all_settled-pure :
      (xs : List A) (e : E)
      → all_settled {E = E} (λ x. pure (f x)) xs e ≡ (done (map (λ x. (x, f x)) xs), e)
  unfolding all_settled
  all_settled-pure [] e = refl
  all_settled-pure (x ∷ xs) e = ground (arith, all_settled-pure xs e)

to_inputs :
    (f : VerificationRequest → ReconcileOutput) (xs : List ResolvedEffect)
    → to_effect_inputs (map (λ (x : ResolvedEffect). (x, f x.request)) xs)
      ≡ map (λ (x : ResolvedEffect). effect_input x (f x.request)) xs
to_inputs f [] = refl
to_inputs f (x ∷ xs) = rw (to_inputs f xs)

-- The kinds of check that a database file can answer.
abbrev pub IsStored : Resolved → Type 0
IsStored (state_witness r) = ⊥
IsStored _ = Unit

module _ (js : Runtime) (query : Text → List Text → Answer) {E : Type 0} (now : E → ℕ × E)
    (sleep : Number → E → E) where
  abbrev env : Environment E
  env = create_sqlite_policy_context js query now sleep

  all_settled-relational :
      (cs : List ResolvedRelationalCheck) (e : E)
      → all_settled {E = E} (λ check e'. (relational_sqlite js query check, e')) cs e
        ≡ (map_relational js query cs, e)
  unfolding all_settled map_relational
  all_settled-relational [] e = refl
  all_settled-relational (c ∷ cs) e = ground (arith, all_settled-relational cs e)

  relational_agree :
      (checks : List ResolvedRelationalCheck) (e : E)
      → relational_strong js env checks e ≡ (relational_sync js query checks, e)
  unfolding create_sqlite_policy_context
  relational_agree [] e = ground (arith, all_settled-relational [] e)
  relational_agree (c ∷ []) e = ground arith
  relational_agree (c ∷ d ∷ cs) e = ground (arith, all_settled-relational (c ∷ d ∷ cs) e)

  strong_agree :
      (r : Resolved) (e : E)
      → IsStored r
      → execute_strong_async js env r e ≡ (execute_strong_sync js query r, e)
  unfolding create_sqlite_policy_context execute_strong_async execute_strong_sync
      rollup_multi_effects_sync rollup_multi_effects_from_reconciled_rows
  strong_agree (sql_row q) e h = refl
  strong_agree (sql_row_absent q) e h = refl
  strong_agree (sql_relational cs) e h = relational_agree cs e
  strong_agree (sql_effects es) e h =
      ap
        (λ (r : Result (List (ResolvedEffect × ReconcileOutput)) × E).
          ◌>>=◌ {E = E} (λ _. r)
            (λ ps. pure (rollup_multi_effects_from_reconciled_rows js (to_effect_inputs ps))) e)
        (all_settled-pure (λ (x : ResolvedEffect). reconcile_sql_row js query x.request) es e)
      ∙ ap (λ is. (done (rollup_multi_effects_from_reconciled_rows js is), e))
          (to_inputs (reconcile_sql_row js query) es)
  strong_agree (state_witness r) e h = absurd h

-- Under a strong policy the asynchronous executor over the SQLite context returns or throws exactly what the
-- synchronous executor does, for every kind of check but the state witnesses, whatever fuel it has, and
-- neither waits: the outside world is left as it was.
pub execute_async-sync :
    (js : Runtime) (query : Text → List Text → Answer) {E : Type 0} (now : E → ℕ × E)
    (sleep : Number → E → E) (resolved : Resolved) (w p : Number) (fuel : ℕ) (e : E)
    → IsStored resolved
    → execute_verification_with_policy_async js
        (create_sqlite_policy_context js query now sleep)
        fuel
        resolved
        (strong w p)
        e
      ≡ (execute_verification_with_policy_sync js query resolved (strong w p), e)
unfolding execute_verification_with_policy_async execute_verification_with_policy_sync
    resolve_verification_policy_input
execute_async-sync js query now sleep resolved w p fuel e h =
    strong_agree js query now sleep resolved e h
