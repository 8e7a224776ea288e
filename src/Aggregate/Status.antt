-- ===== src/Aggregate/Status.antt =====
-- When a workflow is complete, inconsistent or incomplete.
use agentskeptic.Prelude.{
  ◌≡◌, ◌↔◌, refl, Bool, true, false, ◌&&◌, not, Option, none, some, List, [], ◌∷◌, any, all,
  is_empty, arith, ap,
}
use mathlib.Core.Option.{some-injective}
use agentskeptic.Js.{Text}
use agentskeptic.Types.{
  StepStatus, Reason, VerificationPolicy, WorkflowStatus, EventSequenceIntegrity,
}
use agentskeptic.Reconciler.Outcome.{is_verified}
use agentskeptic.VerificationDiagnostics.{StepOutcome, enrich_steps_with_failure_diagnostics}
use agentskeptic.Aggregate.{
  WorkflowEngineResult, is_incomplete_status, is_bad_status, all_reasons, workflow_status,
  with_steps, aggregate_workflow,
}

abbrev pub verified_step : StepOutcome → Bool
verified_step s = is_verified s.status

abbrev incomplete_step : StepOutcome → Bool
incomplete_step s = is_incomplete_status s.status

abbrev bad_step : StepOutcome → Bool
bad_step s = is_bad_status s.status

-- Nothing is wrong with the run itself, and there is a step.
abbrev pub is_sound_run : List StepOutcome → List Reason → Bool
is_sound_run steps incoming = is_empty incoming && not (is_empty steps)

-- Every step passed.
abbrev pub is_complete : List StepOutcome → List Reason → Bool
is_complete steps incoming = is_sound_run steps incoming && all verified_step steps

-- Every step was decided, and one failed.
abbrev pub is_inconsistent : List StepOutcome → List Reason → Bool
is_inconsistent steps incoming =
    is_sound_run steps incoming && not (any incomplete_step steps) && any bad_step steps

verified-kinds :
    (s : StepStatus)
    → is_verified s ≡ true
    → (is_incomplete_status s ≡ false) × (is_bad_status s ≡ false)
verified-kinds StepStatus.verified h = (refl, refl)
verified-kinds _ h = cc

all-verified :
    (steps : List StepOutcome)
    → all verified_step steps ≡ true
    → (any incomplete_step steps ≡ false) × (any bad_step steps ≡ false)
all-verified [] h = (refl, refl)
all-verified (s ∷ ss) h = ground (arith, all-verified ss, verified-kinds s.status)

status_iff :
    (steps : List StepOutcome) (incoming : List Reason)
    → let s = workflow_status steps (all_reasons steps incoming) in
      ((s ≡ WorkflowStatus.complete) ↔ (is_complete steps incoming ≡ true))
      × ((s ≡ WorkflowStatus.inconsistent) ↔ (is_inconsistent steps incoming ≡ true))
unfolding workflow_status
status_iff [] [] = ground arith
status_iff [] (r ∷ rs) = ground arith
status_iff (s ∷ ss) [] = ground (arith, all-verified (s ∷ ss))
status_iff (s ∷ ss) (r ∷ rs) = ground arith

-- A workflow is complete exactly when it has no run-level reason, at least one step, and every step is
-- verified; it is inconsistent exactly when it has no run-level reason, at least one step, no step whose
-- verification is incomplete, and a step that is missing, inconsistent or partially verified. In every
-- other case it is incomplete.
pub aggregate_status :
    (id : Text) (steps : List StepOutcome) (incoming : List Reason) (policy : VerificationPolicy)
    (integrity : EventSequenceIntegrity) {r : WorkflowEngineResult}
    → aggregate_workflow id steps incoming policy integrity ≡ some r
    → ((r.status ≡ WorkflowStatus.complete) ↔ (is_complete steps incoming ≡ true))
      × ((r.status ≡ WorkflowStatus.inconsistent) ↔ (is_inconsistent steps incoming ≡ true))
unfolding aggregate_workflow
aggregate_status id steps incoming policy integrity {r} h =
    rw (← result_status (enrich_steps_with_failure_diagnostics steps) h) (status_iff steps incoming)
  where
    result_status :
        (o : Option (List StepOutcome))
        → with_steps id
            (workflow_status steps (all_reasons steps incoming))
            (all_reasons steps incoming)
            policy
            integrity
            o
          ≡ some r
        → workflow_status steps (all_reasons steps incoming) ≡ r.status
    result_status none e = cc
    result_status (some ts) e = ap (λ (x : WorkflowEngineResult). x.status) (some-injective _ _ e)
