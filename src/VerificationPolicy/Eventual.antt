-- ===== src/VerificationPolicy/Eventual.antt =====
-- verificationPolicy.ts: polling until the check is settled or the window has passed. The six loops of the
-- source are one loop here, `poll`, with what is tried, what settles it, and what is returned when the
-- window has passed. `poll` takes fuel; `Termination` shows how much is enough.
use agentskeptic.Prelude.{
  ℕ, zero, suc, ◌+◌, Bool, true, false, not, ◌||◌, Option, none, some, List, [], ◌∷◌, if◌then◌else◌,
}
use agentskeptic.Prelude.Int.{sub_ℕ}
use agentskeptic.Js.{Number, finite, Runtime, number_le}
use agentskeptic.WireReasonCodes.{SqlVerificationOutcomeCode, is_outcome}
use agentskeptic.Types.{
  VerificationRequest, RowAbsentVerificationRequest, ResolvedEffect, ResolvedRelationalCheck,
  StateWitnessRequest, StepVerificationRequest, StepStatus, inconsistent, Reason,
  VerificationPolicy, verification_window_ms, poll_interval_ms,
}
use agentskeptic.Types.Evidence.{as_step}
use agentskeptic.Reconciler.{ReconcileOutput}
use agentskeptic.Reconciler.Outcome.{is_verified, is_missing}
use agentskeptic.MultiEffectRollup.{PolicyExecutionOutput}
use agentskeptic.VerificationPolicy.Input.{done, exhausted}
use agentskeptic.VerificationPolicy.Run.{Run, pure, ◌>>=◌, ◌>>◌, all_settled, Environment}
use agentskeptic.VerificationPolicy.Classify.{
  classify_multi_effect_after_reconcile, classify_multi_relational_after_reconcile,
}
use agentskeptic.VerificationPolicy.Uncertain.{
  Expiry, build_uncertain_sql_row, build_uncertain_sql_row_absent, build_uncertain_sql_effects,
  build_uncertain_sql_relational, build_uncertain_sql_relational_single,
  build_uncertain_state_witness,
}

-- A reconciliation as the output of a step.
abbrev pub output_of : StepVerificationRequest → ReconcileOutput → PolicyExecutionOutput
output_of request rec = record {
  verification_request = request;
  status = rec.status;
  reasons = rec.reasons;
  evidence = as_step rec.evidence;
}

-- The loops that wait for what is missing: settled unless `missing`.
abbrev pub unless_missing : StepVerificationRequest → ReconcileOutput → Option PolicyExecutionOutput
unless_missing request rec = if is_missing rec.status then none else some (output_of request rec)

abbrev pub is_inconsistent : StepStatus → Bool
is_inconsistent inconsistent = true
is_inconsistent _ = false

abbrev pub says_present : List Reason → Bool
says_present [] = false
says_present (r ∷ rs) = is_outcome SqlVerificationOutcomeCode.row_present_when_forbidden r.code

-- The loop that waits for forbidden rows to go.
unfoldable pub unless_present :
    StepVerificationRequest → ReconcileOutput → Option PolicyExecutionOutput
unless_present request rec =
    if is_verified rec.status
    then some (output_of request rec)
    else if not (is_inconsistent rec.status) || not (says_present rec.reasons)
    then some (output_of request rec)
    else none

-- `now() - start`, which is negative if the clock is set back.
abbrev pub elapsed : ℕ → ℕ → Number
elapsed start now = finite (sub_ℕ now start) 0

module _ {E : Type 0} (env : Environment E) (policy : VerificationPolicy) where
  abbrev pub read_clock : Run E ℕ
  read_clock e = let (t, e') = env.now e in (done t, e')

  abbrev pub wait : Run E (Unit {0})
  wait e = (done tt, env.sleep (poll_interval_ms policy) e)

  module _ {R : Type 0} (attempt : Run E R) (settles : R → Option PolicyExecutionOutput)
      (expired : R → Expiry) where
    -- The window has passed, or another round follows the wait.
    abbrev pub after_test :
        ℕ → ℕ → Run E PolicyExecutionOutput → R → Bool → Run E PolicyExecutionOutput
    after_test start attempts again r true = do
      shown ← read_clock
      pure (expired r attempts (elapsed start shown) policy)
    after_test start attempts again r false = wait >> again

    abbrev pub after_attempt :
        ℕ
        → ℕ
        → Run E PolicyExecutionOutput
        → R
        → Option PolicyExecutionOutput
        → Run E PolicyExecutionOutput
    after_attempt start attempts again r (some out) = pure out
    after_attempt start attempts again r none = do
      tested ← read_clock
      after_test start attempts again r
          (number_le (verification_window_ms policy) (elapsed start tested))

    -- `attempts` counts the attempts before this round.
    unfoldable pub poll : ℕ → ℕ → ℕ → Run E PolicyExecutionOutput
    poll zero start attempts e = (exhausted, e)
    poll (suc fuel) start attempts e =
        (do
          r ← attempt
          after_attempt start (attempts + 1) (poll fuel start (attempts + 1)) r (settles r))
          e

    unfoldable pub poll_from_start : ℕ → Run E PolicyExecutionOutput
    unfolding poll
    poll_from_start fuel = do start ← read_clock; poll fuel start 0

  unfoldable pub execute_state_witness_eventual :
      ℕ → StateWitnessRequest → Run E PolicyExecutionOutput
  execute_state_witness_eventual fuel request =
      poll_from_start (env.reconcile_state_witness request)
        (unless_missing (StepVerificationRequest.state_witness request))
        (λ _. build_uncertain_state_witness request) fuel

  unfoldable pub execute_sql_row_eventual : ℕ → VerificationRequest → Run E PolicyExecutionOutput
  execute_sql_row_eventual fuel request =
      poll_from_start (env.reconcile_row request)
        (unless_missing (StepVerificationRequest.sql_row request))
        (λ _. build_uncertain_sql_row request) fuel

  unfoldable pub execute_sql_row_absent_eventual :
      ℕ → RowAbsentVerificationRequest → Run E PolicyExecutionOutput
  execute_sql_row_absent_eventual fuel request =
      poll_from_start (env.reconcile_row_absent request)
        (unless_present (StepVerificationRequest.sql_row_absent request))
        (build_uncertain_sql_row_absent request) fuel

  unfoldable pub execute_sql_effects_eventual :
      Runtime → ℕ → List ResolvedEffect → Run E PolicyExecutionOutput
  execute_sql_effects_eventual js fuel effects =
      poll_from_start (all_settled (λ (e : ResolvedEffect). env.reconcile_row e.request) effects)
        (classify_multi_effect_after_reconcile js) build_uncertain_sql_effects fuel

  unfoldable pub execute_sql_relational_single_eventual :
      ℕ → ResolvedRelationalCheck → Run E PolicyExecutionOutput
  execute_sql_relational_single_eventual fuel check =
      poll_from_start (env.reconcile_relational_check check)
        (unless_missing (StepVerificationRequest.sql_relational (check ∷ [])))
        (λ _. build_uncertain_sql_relational_single check) fuel

  unfoldable pub execute_sql_relational_eventual :
      Runtime → ℕ → List ResolvedRelationalCheck → Run E PolicyExecutionOutput
  execute_sql_relational_eventual js fuel checks =
      poll_from_start (all_settled env.reconcile_relational_check checks)
        (classify_multi_relational_after_reconcile js) build_uncertain_sql_relational fuel
