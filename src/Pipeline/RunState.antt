-- ===== src/Pipeline/RunState.antt =====
-- pipeline.ts: `verifyRunStateFromEvents`, up to the report and the emitted form of its result. `open_sqlite` is what opening the
-- database file gives, `open_target` what opening a connection gives; closing them, and the order of the effects of an opening that fails,
-- are not modelled.
use agentskeptic.Prelude.{ℕ, Option, none, some, List, ◌⊎◌, inl, inr}
use agentskeptic.Js.{Text, Number, Runtime, text}
use agentskeptic.Js.Json.{Json}
use agentskeptic.Types.{
  Reason, EventSequenceIntegrity, VerificationPolicy, strong, eventual, bounded,
}
use agentskeptic.Types.RunEvents.{RunEvent, VerificationRunContext}
use agentskeptic.Reconciler.{Answer}
use agentskeptic.Events.Plan.{Event}
use agentskeptic.ResolveExpectation.Request.{
  DatabaseKind, sqlite, postgres, mysql, bigquery, sqlserver, Registry,
}
use agentskeptic.VerificationDiagnostics.{StepOutcome}
use agentskeptic.VerificationPolicy.Input.{
  sqlite_database_open_failed, postgres_client_setup_failed, truth_layer_error, other_error, Result,
  done, thrown,
}
use agentskeptic.VerificationPolicy.Run.{Run, ◌>>=◌, Environment}
use agentskeptic.VerificationPolicy.Execute.{create_sqlite_policy_context}
use agentskeptic.Aggregate.{WorkflowEngineResult, aggregate_workflow}
use agentskeptic.NoStepsMessage.{EventFileAggregateCounts, enrich_no_steps_run_level_reasons}
use agentskeptic.VerificationRunContext.{build_verification_run_context}
use agentskeptic.Pipeline.{
  returns, run_logical_steps_verification_sync, run_logical_steps_verification_async,
}

-- `VerifyRunStateFromEventsInput`, without the functions that log and report.
pub record VerifyRunStateFromEventsInput : Type 0 where
  pub workflow_id : Text
  pub events : List Event
  pub run_events : List (RunEvent Json)
  pub run_level_reasons : List Reason
  pub event_sequence_integrity : EventSequenceIntegrity
  pub event_file_aggregate_counts : EventFileAggregateCounts
  pub registry : Registry
  pub database : DatabaseKind
  pub verification_policy : VerificationPolicy

-- The engine's result with the digest of the run.
pub record RunState : Type 0 where
  pub base : WorkflowEngineResult
  pub verification_run_context : VerificationRunContext

module _ (js : Runtime) (stringify : Json → Text) {E : Type 0} (now : E → ℕ × E)
    (sleep : Number → E → E) (open_sqlite : Text ⊎ (Text → List Text → Answer))
    (open_target : E → (Text ⊎ Environment E) × E) (fuel : ℕ)
    (input : VerifyRunStateFromEventsInput) where
  abbrev pub run_async : Environment E → Run E (List StepOutcome)
  run_async env =
      run_logical_steps_verification_async js stringify input.registry (some input.database)
        input.verification_policy env fuel input.events

  abbrev pub run_file :
      VerificationPolicy → Text ⊎ (Text → List Text → Answer) → Run E (List StepOutcome)
  run_file policy (inl message) =
      returns (thrown (truth_layer_error sqlite_database_open_failed message))
  run_file (strong w p) (inr query) = returns (
      run_logical_steps_verification_sync js stringify input.registry (some input.database)
        input.verification_policy query input.events)
  run_file (eventual w p) (inr query) = run_async (create_sqlite_policy_context js query now sleep)
  run_file (bounded w p s) (inr query) = run_async (create_sqlite_policy_context js query now sleep)

  abbrev pub run_target : Text ⊎ Environment E → Run E (List StepOutcome)
  run_target (inl message) =
      returns (thrown (truth_layer_error postgres_client_setup_failed message))
  run_target (inr env) = run_async env

  abbrev pub run_steps : DatabaseKind → Run E (List StepOutcome)
  run_steps sqlite e = run_file input.verification_policy open_sqlite e
  run_steps postgres e = let (target, e') = open_target e in run_target target e'
  run_steps mysql e = let (target, e') = open_target e in run_target target e'
  run_steps bigquery e = let (target, e') = open_target e in run_target target e'
  run_steps sqlserver e = let (target, e') = open_target e in run_target target e'

  -- The result of `aggregateWorkflow`, whose classification of a step may throw: the codes that its message lists are left out.
  abbrev pub run_state_of : Option WorkflowEngineResult → Result RunState
  run_state_of none =
      thrown (other_error (text "Unreachable incomplete_verification classification"))
  run_state_of (some r) = done (record {
    base = record r {
      run_level_reasons =
          enrich_no_steps_run_level_reasons js input.workflow_id input.event_file_aggregate_counts
            r.run_level_reasons;
    };
    verification_run_context = build_verification_run_context input.run_events;
  })

  abbrev pub state_of_steps : List StepOutcome → Result RunState
  state_of_steps steps = run_state_of (
      aggregate_workflow input.workflow_id steps input.run_level_reasons input.verification_policy
        input.event_sequence_integrity)

  unfoldable pub verify_run_state_from_events : Run E RunState
  unfolding run_logical_steps_verification_sync run_logical_steps_verification_async
      aggregate_workflow build_verification_run_context enrich_no_steps_run_level_reasons
  verify_run_state_from_events =
      run_steps input.database >>= λ steps. returns (state_of_steps steps)
