-- ===== src/VerificationPolicy/RowWaiting.antt =====
-- verificationPolicy.ts: the rounds of a row check that waits.
use agentskeptic.Prelude.{ℕ, zero, suc, ◌≡◌, Bool, true, false, none, some, arith}
use agentskeptic.Prelude.Int.{sub_ℕ}
use agentskeptic.Js.{finite, number_le}
use agentskeptic.Types.{
  VerificationRequest, StepVerificationRequest, VerificationPolicy, verification_window_ms,
  poll_interval_ms, uncertain,
}
use agentskeptic.Reconciler.{ReconcileOutput}
use agentskeptic.Reconciler.Outcome.{is_missing}
use agentskeptic.MultiEffectRollup.{PolicyExecutionOutput}
use agentskeptic.VerificationPolicy.Input.{done}
use agentskeptic.VerificationPolicy.Run.{Environment}
use agentskeptic.VerificationPolicy.Uncertain.{build_uncertain_sql_row}
use agentskeptic.VerificationPolicy.Eventual.{unless_missing, output_of}
use agentskeptic.VerificationPolicy.Polling.{Waited}

module _ {E : Type 0} (env : Environment E) (p : VerificationPolicy)
    (request : VerificationRequest) where
  -- The state at the start of a round, counted from 0: each round before reconciles, reads the clock and sleeps.
  abbrev pub state_at : ℕ → E → E
  state_at zero e = e
  state_at (suc round) e =
      state_at round (env.sleep (poll_interval_ms p) (env.now (env.reconcile_row request e).1).1)

  -- The clock, read after the reconciliation in a state, shows at least the window after `start`.
  abbrev pub window_passed : ℕ → E → Bool
  window_passed start e =
      number_le (verification_window_ms p)
        (finite (sub_ℕ (env.now (env.reconcile_row request e).1).0 start) 0)

  -- In a state the reconciliation gives a row that is missing, or one that is not.
  abbrev pub Reconciles : E → ReconcileOutput → Bool → Type 0
  Reconciles e rec missing =
      ((env.reconcile_row request e).0 ≡ done rec) × (is_missing rec.status ≡ missing)

  -- In each round before the row was missing and the window had not passed.
  abbrev pub MissedBefore : ℕ → ℕ → E → Type 0
  MissedBefore start zero e = Unit
  MissedBefore start (suc round) e =
      ((rec : ReconcileOutput) × Reconciles e rec true)
      × (window_passed start e ≡ false)
      × MissedBefore start round
          (env.sleep (poll_interval_ms p) (env.now (env.reconcile_row request e).1).1)

  -- A reconciliation that was not missing gave the output.
  abbrev pub Observed : ℕ → E → PolicyExecutionOutput → Type 0
  Observed start e out =
      (round : ℕ) × MissedBefore start round e
      × (rec : ReconcileOutput) × Reconciles (state_at round e) rec false
      × (out ≡ output_of (StepVerificationRequest.sql_row request) rec)

  -- The row was missing, the clock then showed at least the window after `start`, and the step is uncertain.
  abbrev pub WindowPassed : ℕ → E → PolicyExecutionOutput → Type 0
  WindowPassed start e out =
      (round : ℕ) × MissedBefore start round e
      × (rec : ReconcileOutput) × Reconciles (state_at round e) rec true
      × (window_passed start (state_at round e) ≡ true)
      × (out.status ≡ uncertain)

  pub unsettled-missing :
      (rec : ReconcileOutput)
      → unless_missing (StepVerificationRequest.sql_row request) rec ≡ none
      → is_missing rec.status ≡ true
  unsettled-missing rec u = ground arith

  pub settled-output :
      (rec : ReconcileOutput) (out : PolicyExecutionOutput)
      → unless_missing (StepVerificationRequest.sql_row request) rec ≡ some out
      → (is_missing rec.status ≡ false)
        × (out ≡ output_of (StepVerificationRequest.sql_row request) rec)
  settled-output rec out u = ground arith

  pub missed :
      (start round : ℕ) (e : E)
      → Waited env p
          (env.reconcile_row request)
          (unless_missing (StepVerificationRequest.sql_row request))
          (λ _. build_uncertain_sql_row request)
          start
          round
          e
      → MissedBefore start round e
  missed start zero e w = tt
  missed start (suc round) e ((rec, t, u), l, w) =
      ((rec, (t, unsettled-missing rec u)), l, missed start round _ w)
