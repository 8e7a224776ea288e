-- ===== src/Pipeline.antt =====
-- pipeline.ts: verifying the observed tool calls of a workflow. A step that is looked up in the registry, resolved,
-- executed and classified is an outcome; what is logged of it is not modelled.
pub mod Executable
pub mod Finalized
pub mod Steps
pub mod Runs
pub mod Complete
pub mod Total
pub mod Agreement
pub mod RunState
pub mod Verdict
use agentskeptic.Prelude.{
  ℕ, Bool, true, false, Option, none, some, List, [], ◌∷◌, ◌++◌, map, any, if◌then◌else◌,
}
use agentskeptic.Js.{Text, Number, Runtime, text, nat, text_eq, text_lt, join}
use agentskeptic.Js.Json.{Json}
use agentskeptic.WireReasonCodes.{
  RegistryResolverCode, SqlVerificationOutcomeCode, Code, outcome, resolver, code_text,
}
use agentskeptic.Types.{
  Reason, StepVerificationRequest, StepStatus, incomplete_verification, VerificationPolicy,
}
use agentskeptic.Types.Evidence.{StepEvidence}
use agentskeptic.Types.Registry.{ToolRegistryEntry}
use agentskeptic.Reconciler.{Answer, because}
use agentskeptic.Prelude.Sort.{sort}
use agentskeptic.Events.{LanggraphCheckpoint, EventVersion, v1, v2, v3}
use agentskeptic.Events.Plan.{Event, LogicalStepPlan, plan_logical_steps}
use agentskeptic.MultiEffectRollup.{PolicyExecutionOutput}
use agentskeptic.ResolveExpectation.Outcome.{Outcome, ok, refused}
use agentskeptic.ResolveExpectation.Request.{
  DatabaseKind, Registry, find_tool, resolve_verification_request,
}
use agentskeptic.ResolveExpectation.Template.{render_intended_effect}
use agentskeptic.VerificationDiagnostics.{StepOutcome, with_failure_diagnostic}
use agentskeptic.VerificationPolicy.Input.{Failure, other_error, Result, done, thrown, exhausted}
use agentskeptic.VerificationPolicy.Run.{Run, ◌>>=◌ as and_then, Environment}
use agentskeptic.VerificationPolicy.Execute.{
  Resolved, execute_verification_with_policy_sync, execute_verification_with_policy_async,
}
use agentskeptic.Events.Params.{canonical_json_for_params}

unfoldable pub registry_release_critical : Option ToolRegistryEntry → Bool
registry_release_critical none = false
registry_release_critical (some entry) = is_true entry.release_critical
  where
    is_true : Option Bool → Bool
    is_true (some b) = b
    is_true none = false

-- The separator is the code unit 31.
abbrev pub checkpoint_key : EventVersion → Option Text
checkpoint_key v1 = none
checkpoint_key v2 = none
checkpoint_key (v3 c) = some (c.thread_id ++ 31 ∷ (c.checkpoint_ns ++ 31 ∷ c.checkpoint_id))

unfoldable pub langgraph_checkpoint_key_from_tool_observed : Event → Option Text
langgraph_checkpoint_key_from_tool_observed ev = checkpoint_key ev.version

abbrev pub keyed : StepOutcome → Option Text → StepOutcome
keyed s none = s
keyed s (some key) = record s { langgraph_checkpoint_key = some key }

unfoldable pub with_optional_langgraph_checkpoint_key : StepOutcome → Event → StepOutcome
unfolding langgraph_checkpoint_key_from_tool_observed
with_optional_langgraph_checkpoint_key s ev =
    keyed s (langgraph_checkpoint_key_from_tool_observed ev)

abbrev pub retry_observations_diverge_message : Text
retry_observations_diverge_message =
    text
      "Multiple observations for this seq do not all match the last observation (toolId and canonical params)."

-- What a call of the resolver or the executor gives to the rest of a step.
infixl 5 ◌>>=◌
abbrev pub ◌>>=◌ : {A B : Type 0} → Result A → (A → Result B) → Result B
done a >>= f = f a
thrown x >>= f = thrown x
exhausted >>= f = exhausted

-- A result that does not touch the outside world.
abbrev pub returns : {E A : Type 0} → Result A → Run E A
returns r e = (r, e)

-- The texts of the set of codes, in ascending order.
abbrev add_text : Text → List Text → List Text
add_text t ts = if any (text_eq t) ts then ts else t ∷ ts

pub distinct : List Text → List Text
distinct [] = []
distinct (t ∷ ts) = add_text t (distinct ts)

abbrev unreachable_message : List Reason → Text
unreachable_message rs =
    text "Unreachable incomplete_verification classification; add mapping for codes: "
    ++ join (text ", ") (
        sort (λ a b. if text_lt b a then false else true)
          (distinct (map (λ (r : Reason). code_text r.code) rs)))

abbrev pub or_unreachable : StepOutcome → Option StepOutcome → Result StepOutcome
or_unreachable s none = thrown (other_error (unreachable_message s.reasons))
or_unreachable s (some t) = done t

-- `withFailureDiagnostic(outcome)`, or the error that it throws.
unfoldable pub finalize : StepOutcome → Result StepOutcome
unfolding with_failure_diagnostic
finalize s = or_unreachable s (with_failure_diagnostic s)

-- `withOptionalLanggraphCheckpointKey(withFailureDiagnostic(outcome), ev)`.
unfoldable pub finalize_keyed : Event → StepOutcome → Result StepOutcome
unfolding finalize with_optional_langgraph_checkpoint_key
finalize_keyed ev s = do t ← finalize s; done (with_optional_langgraph_checkpoint_key t ev)

-- `options.repeatObservationCount ?? 1`.
abbrev count_or_one : Option ℕ → ℕ
count_or_one none = 1
count_or_one (some n) = n

-- What the two versions of a step do before they execute: they end with an outcome, throw, or go on.
pub data Prepared : Type 0 where
  settled : StepOutcome → Prepared
  rejected : Text → Prepared
  checked : ToolRegistryEntry → Resolved → Prepared

module _ (js : Runtime) (stringify : Json → Text) (registry : Registry) where
  unfoldable pub intended_effect_narrative : Option ToolRegistryEntry → Text → Json → Text
  unfolding render_intended_effect
  intended_effect_narrative none tool_id params = text "Unknown tool: " ++ tool_id
  intended_effect_narrative (some entry) tool_id params =
      render_intended_effect js stringify params entry.effect_description_template

  -- The outcome of an event, but for its checkpoint and its diagnosis.
  abbrev pub outcome_of : Option ToolRegistryEntry → Event → ℕ → PolicyExecutionOutput → StepOutcome
  outcome_of entry ev n out = record {
    seq = nat ev.seq;
    tool_id = ev.tool_id;
    release_critical = registry_release_critical entry;
    narrative = intended_effect_narrative entry ev.tool_id ev.params;
    params_canonical = canonical_json_for_params js ev.params;
    verification_request = out.verification_request;
    status = out.status;
    reasons = out.reasons;
    evidence = out.evidence;
    repeat_observation_count = n;
    evaluated_observation_ordinal = n;
    failure_diagnostic = none;
    langgraph_checkpoint_key = none;
  }

  -- No request, for one reason.
  abbrev pub not_executed : Code → Text → PolicyExecutionOutput
  not_executed code message = record {
    verification_request = StepVerificationRequest.none;
    status = incomplete_verification;
    reasons = record { code = code; message = message; field = none } ∷ [];
    evidence = [];
  }

  unfoldable pub build_divergent_step_outcome : LogicalStepPlan → StepOutcome
  unfolding with_optional_langgraph_checkpoint_key find_tool registry_release_critical
      intended_effect_narrative
  build_divergent_step_outcome plan =
      with_optional_langgraph_checkpoint_key
        (record (outcome_of (find_tool plan.last.tool_id registry) plan.last
          plan.repeat_observation_count
          (not_executed (outcome SqlVerificationOutcomeCode.retry_observations_diverge)
            retry_observations_diverge_message)) { seq = nat plan.seq })
        plan.last

  module _ (target : Option DatabaseKind) (policy : VerificationPolicy) where
    abbrev pub unknown_tool : Event → ℕ → StepOutcome
    unknown_tool ev n = outcome_of none ev n (
        not_executed (outcome SqlVerificationOutcomeCode.unknown_tool)
          (text "Unknown toolId: " ++ ev.tool_id))

    abbrev pub prepare_resolved : ToolRegistryEntry → Event → ℕ → Outcome Resolved → Prepared
    prepare_resolved entry ev n (ok resolved) = checked entry resolved
    prepare_resolved entry ev n (refused code message) =
        settled (outcome_of (some entry) ev n (not_executed (resolver code) message))
    prepare_resolved entry ev n (Outcome.thrown message) = rejected message

    abbrev pub prepare_entry : Event → ℕ → Option ToolRegistryEntry → Prepared
    prepare_entry ev n none = settled (unknown_tool ev n)
    prepare_entry ev n (some entry) =
        prepare_resolved entry ev n (resolve_verification_request js ev.params entry target)

    unfoldable pub prepare_step : Event → ℕ → Prepared
    unfolding find_tool registry_release_critical intended_effect_narrative
    prepare_step ev n = prepare_entry ev n (find_tool ev.tool_id registry)

    -- The end of a step, once it is executed.
    abbrev pub executed : ToolRegistryEntry → Event → ℕ → PolicyExecutionOutput → Result StepOutcome
    executed entry ev n out = finalize_keyed ev (outcome_of (some entry) ev n out)

    module _ (query : Text → List Text → Answer) where
      abbrev pub run_prepared : Event → ℕ → Prepared → Result StepOutcome
      run_prepared ev n (settled s) = finalize_keyed ev s
      run_prepared ev n (rejected message) = thrown (other_error message)
      run_prepared ev n (checked entry resolved) = do
        out ← execute_verification_with_policy_sync js query resolved policy
        executed entry ev n out

      unfoldable pub verify_tool_observed_step : Option ℕ → Event → Result StepOutcome
      unfolding prepare_step finalize_keyed
      verify_tool_observed_step repeat ev =
          let n = count_or_one repeat in run_prepared ev n (prepare_step ev n)

      abbrev pub run_plan : LogicalStepPlan → Result StepOutcome
      run_plan plan =
          if plan.divergent
          then finalize (build_divergent_step_outcome plan)
          else verify_tool_observed_step (some plan.repeat_observation_count) plan.last

      unfoldable pub run_plans : List LogicalStepPlan → Result (List StepOutcome)
      unfolding verify_tool_observed_step build_divergent_step_outcome finalize
      run_plans [] = done []
      run_plans (plan ∷ plans) = do s ← run_plan plan; ss ← run_plans plans; done (s ∷ ss)

      unfoldable pub run_logical_steps_verification_sync : List Event → Result (List StepOutcome)
      unfolding run_plans plan_logical_steps
      run_logical_steps_verification_sync events = run_plans (plan_logical_steps js events)

    module _ {E : Type 0} (env : Environment E) (fuel : ℕ) where
      abbrev pub run_prepared_async : Event → ℕ → Prepared → Run E StepOutcome
      run_prepared_async ev n (settled s) = returns (finalize_keyed ev s)
      run_prepared_async ev n (rejected message) = returns (thrown (other_error message))
      run_prepared_async ev n (checked entry resolved) =
          and_then (execute_verification_with_policy_async js env fuel resolved policy)
            (λ out. returns (executed entry ev n out))

      unfoldable pub verify_tool_observed_step_async : Option ℕ → Event → Run E StepOutcome
      unfolding prepare_step finalize_keyed
      verify_tool_observed_step_async repeat ev =
          let n = count_or_one repeat in run_prepared_async ev n (prepare_step ev n)

      abbrev pub run_plan_async : LogicalStepPlan → Run E StepOutcome
      run_plan_async plan =
          if plan.divergent
          then returns (finalize (build_divergent_step_outcome plan))
          else verify_tool_observed_step_async (some plan.repeat_observation_count) plan.last

      unfoldable pub run_plans_async : List LogicalStepPlan → Run E (List StepOutcome)
      unfolding verify_tool_observed_step_async build_divergent_step_outcome finalize
      run_plans_async [] = returns (done [])
      run_plans_async (plan ∷ plans) =
          and_then (run_plan_async plan)
            (λ s. and_then (run_plans_async plans) (λ ss. returns (done (s ∷ ss))))

      unfoldable pub run_logical_steps_verification_async : List Event → Run E (List StepOutcome)
      unfolding run_plans_async plan_logical_steps
      run_logical_steps_verification_async events = run_plans_async (plan_logical_steps js events)
