-- ===== src/VerificationPolicy/Waiting.antt =====
-- verificationPolicy.ts: how a check that waits ends.
use agentskeptic.Prelude.{ℕ, ◌≡◌, ◌⊎◌, inl, inr, refl, List, [], ◌∷◌, ap}
use agentskeptic.Js.{Runtime}
use agentskeptic.Types.{
  ResolvedRelationalCheck, StepVerificationRequest, VerificationPolicy, VerificationRequest,
}
use agentskeptic.MultiEffectRollup.{PolicyExecutionOutput}
use agentskeptic.VerificationPolicy.Input.{done}
use agentskeptic.VerificationPolicy.Run.{Environment}
use agentskeptic.VerificationPolicy.Uncertain.{
  build_uncertain_sql_row, build_uncertain_sql_effects, build_uncertain_sql_relational,
  build_uncertain_sql_relational_single, build_uncertain_state_witness,
}
use agentskeptic.VerificationPolicy.Eventual.{
  unless_missing, execute_sql_row_eventual, execute_state_witness_eventual,
  execute_sql_effects_eventual, execute_sql_relational_single_eventual,
  execute_sql_relational_eventual, poll_from_start,
}
use agentskeptic.VerificationPolicy.Execute.{
  Resolved, sql_row, sql_row_absent, sql_effects, sql_relational, state_witness, execute_waiting,
  relational_waiting,
}
use agentskeptic.VerificationPolicy.Polling.{poll-Ends, Ends}
use agentskeptic.VerificationPolicy.CheckWaiting.{
  unless_missing-settles, effects-settles, relational-settles, AwaitsPresence, RelationalWaits,
  CheckWaits, poll-Waits,
}
use agentskeptic.VerificationPolicy.RowWaiting.{
  Observed, WindowPassed, unsettled-missing, settled-output, missed,
}

module _ {E : Type 0} (js : Runtime) (env : Environment E) (p : VerificationPolicy) (fuel : ℕ)
    (e : E) {out : PolicyExecutionOutput} where
  relational-Waits :
      (checks : List ResolvedRelationalCheck)
      → (relational_waiting js env p fuel checks e).0 ≡ done out
      → RelationalWaits js env p (env.now e).0 out checks
  unfolding execute_sql_relational_eventual execute_sql_relational_single_eventual
      build_uncertain_sql_relational build_uncertain_sql_relational_single
  relational-Waits [] = poll-Waits env p _ _ _ (relational-settles js) (λ r n t. refl) fuel e
  relational-Waits (c ∷ []) =
      poll-Waits env p _ _ (λ _. build_uncertain_sql_relational_single c) (unless_missing-settles _)
        (λ r n t. refl) fuel e
  relational-Waits (c ∷ d ∷ cs) =
      poll-Waits env p _ _ _ (relational-settles js) (λ r n t. refl) fuel e

-- A check that waits, of every kind but the one that waits for rows to go, never ends as missing. Where it returns, either an attempt was
-- settled with that output, or an attempt was not settled, the clock read after it showed at least the window after the
-- start, and the step is uncertain.
pub waiting-NotMissing :
    {E : Type 0} (js : Runtime) (env : Environment E) (p : VerificationPolicy) (fuel : ℕ) (e : E)
    (resolved : Resolved) {out : PolicyExecutionOutput}
    → AwaitsPresence resolved
    → (execute_waiting js env p fuel resolved e).0 ≡ done out
    → CheckWaits js env p (env.now e).0 out resolved
unfolding execute_waiting execute_sql_row_eventual execute_state_witness_eventual
    execute_sql_effects_eventual build_uncertain_sql_row build_uncertain_state_witness
    build_uncertain_sql_effects
waiting-NotMissing js env p fuel e (sql_row q) a =
    poll-Waits env p _ _ (λ _. build_uncertain_sql_row q) (unless_missing-settles _) (λ r n t. refl)
      fuel e
waiting-NotMissing js env p fuel e (state_witness q) a =
    poll-Waits env p _ _ (λ _. build_uncertain_state_witness q) (unless_missing-settles _)
      (λ r n t. refl) fuel e
waiting-NotMissing js env p fuel e (sql_effects es) a =
    poll-Waits env p _ _ build_uncertain_sql_effects (effects-settles js) (λ r n t. refl) fuel e
waiting-NotMissing js env p fuel e (sql_relational cs) a = relational-Waits js env p fuel e cs
waiting-NotMissing js env p fuel e (sql_row_absent q) a = absurd a

-- A row check that waits, where it returns, ends in some round, counted from 0: in each round before it the row was missing and the
-- clock, read after the reconciliation, showed less than the window after the start. In that round
-- either the reconciliation was not missing and its output is returned; or the row was missing, the clock read after it
-- showed at least the window after the start, and the step is uncertain.
pub sql_row_eventual-ends :
    {E : Type 0} (env : Environment E) (p : VerificationPolicy) (fuel : ℕ) (e : E)
    (request : VerificationRequest) {out : PolicyExecutionOutput}
    → (execute_sql_row_eventual env p fuel request e).0 ≡ done out
    → Observed env p request (env.now e).0 (env.now e).1 out
      ⊎ WindowPassed env p request (env.now e).0 (env.now e).1 out
unfolding execute_sql_row_eventual poll_from_start build_uncertain_sql_row
sql_row_eventual-ends {E} env p fuel e request {out} h = split (
    poll-Ends env p (env.reconcile_row request)
      (unless_missing (StepVerificationRequest.sql_row request))
      (λ _. build_uncertain_sql_row request) fuel (env.now e).0 0 (env.now e).1 out h)
  where
    split :
        Ends env p
          (env.reconcile_row request)
          (unless_missing (StepVerificationRequest.sql_row request))
          (λ _. build_uncertain_sql_row request)
          (env.now e).0
          0
          (env.now e).1
          out
        → Observed env p request (env.now e).0 (env.now e).1 out
          ⊎ WindowPassed env p request (env.now e).0 (env.now e).1 out
    split (inl s) =
        let (m, o) = settled-output env p request s.result out s.settled in
        inl (s.round, missed env p request _ s.round _ s.waited, s.result, (s.tried, m), o)
    split (inr x) = inr (
      x.round,
      missed env p request _ x.round _ x.waited,
      x.result,
      (x.tried, unsettled-missing env p request x.result x.unsettled),
      x.late,
      ap (λ (o : PolicyExecutionOutput). o.status) x.output,
    )
