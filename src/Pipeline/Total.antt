-- ===== src/Pipeline/Total.antt =====
-- A run under a strong policy returns: nothing but a pointer of the registry that is no pointer makes it throw.
use agentskeptic.Prelude.{
  ℕ, ◌≡◌, ◌≢◌, refl, Bool, true, false, Option, none, some, List, [], ◌∷◌, ◌++◌, All, ap, ◌∙◌, sym,
  if◌then◌else◌,
}
use mathlib.Core.Path.{subst}
use agentskeptic.Js.{Text, Number, Runtime}
use agentskeptic.Js.Json.{Json}
use agentskeptic.Prelude.Sort.{sort-All}
use agentskeptic.WireReasonCodes.{is_outcome, is_resolve_failure}
use agentskeptic.Types.{strong}
use agentskeptic.Types.Registry.{ToolRegistryEntry}
use agentskeptic.Reconciler.{Answer}
use agentskeptic.MultiEffectRollup.{PolicyExecutionOutput}
use agentskeptic.Events.{seq_le, stable_sort_events_by_seq}
use agentskeptic.Events.Plan.{Event, LogicalStepPlan, plan_logical_steps}
use agentskeptic.Events.Steps.{IsStep, observations_of, plan-IsStep}
use agentskeptic.ResolveExpectation.Outcome.{Outcome, ok, refused}
use agentskeptic.ResolveExpectation.Request.{
  DatabaseKind, Registry, find_tool, resolve_verification_request,
}
use agentskeptic.ResolveExpectation.SafeCheck.{resolve-IsSafe}
use agentskeptic.VerificationDiagnostics.{
  StepOutcome, Diagnosis, omitted, given, unreachable, failure_diagnostic_for_step,
  failure_diagnostic_for_incomplete_verification,
}
use agentskeptic.VerificationDiagnostics.Classified.{is_classified, Classified}
use agentskeptic.VerificationPolicy.Input.{done, resolve_verification_policy_input}
use agentskeptic.VerificationPolicy.Execute.{Resolved, execute_verification_with_policy_sync}
use agentskeptic.VerificationPolicy.Classified.{execute_sync-classifies}
use agentskeptic.Pipeline.{
  ◌>>=◌, outcome_of, finalize, executed, build_divergent_step_outcome, prepare_step, prepare_entry,
  prepare_resolved, run_prepared, verify_tool_observed_step, run_plan, run_plans,
  run_logical_steps_verification_sync, with_optional_langgraph_checkpoint_key,
  langgraph_checkpoint_key_from_tool_observed, keyed,
}
use agentskeptic.Pipeline.Executable.{Returns, safe-Returns}
use agentskeptic.Pipeline.Finalized.{bind-Returns, finalize-Returns, finalize_keyed-Returns}

not_unreachable : (d : Diagnosis) → d ≢ unreachable → is_classified d ≡ true
not_unreachable omitted h = refl
not_unreachable (given d) h = refl
not_unreachable unreachable h = absurd (h refl)

module _ (js : Runtime) (stringify : Json → Text) (registry : Registry)
    (target : Option DatabaseKind) where
  -- Resolving the call's entry, if its tool has one, throws no error.
  abbrev pub IsResolvable : Event → Type 0
  IsResolvable ev =
      (entry : ToolRegistryEntry) (message : Text)
      → find_tool ev.tool_id registry ≡ some entry
      → resolve_verification_request js ev.params entry target ≢ Outcome.thrown message

  module _ (window_ms poll_ms : Number) (query : Text → List Text → Answer) where
    execute-Classified :
        (resolved : Resolved) {out : PolicyExecutionOutput}
        → execute_verification_with_policy_sync js query resolved (strong window_ms poll_ms)
          ≡ done out
        → Classified out.status out.reasons
    execute-Classified resolved h =
        not_unreachable _ (execute_sync-classifies js query resolved _ h)

    execute-Returns :
        (ev : Event) (entry : ToolRegistryEntry) {resolved : Resolved}
        → resolve_verification_request js ev.params entry target ≡ ok resolved
        → Returns
            (execute_verification_with_policy_sync js query resolved (strong window_ms poll_ms))
    unfolding execute_verification_with_policy_sync resolve_verification_policy_input
    execute-Returns ev entry {resolved} h =
        safe-Returns js query resolved (resolve-IsSafe js ev.params entry target h)

    resolved-Returns :
        (ev : Event) (n : ℕ) (entry : ToolRegistryEntry) (o : Outcome Resolved)
        → find_tool ev.tool_id registry ≡ some entry
        → IsResolvable ev
        → resolve_verification_request js ev.params entry target ≡ o
        → Returns (
            run_prepared js stringify registry target (strong window_ms poll_ms) query ev n (
              prepare_resolved js stringify registry target
                (strong window_ms poll_ms)
                entry
                ev
                n
                o))
    unfolding failure_diagnostic_for_step failure_diagnostic_for_incomplete_verification is_outcome
        is_resolve_failure
    resolved-Returns ev n entry (ok resolved) known able h =
        let (out, e) = execute-Returns ev entry h in
        let (s, f) =
          finalize_keyed-Returns ev (outcome_of js stringify registry (some entry) ev n out)
            (execute-Classified resolved e) in
        (
          s,
          ap
                (λ r.
                  r >>= executed js stringify registry target (strong window_ms poll_ms) entry ev n)
                e
              ∙ f,
        )
    resolved-Returns ev n entry (refused code message) known able h =
        finalize_keyed-Returns ev _ refl
    resolved-Returns ev n entry (Outcome.thrown message) known able h =
        absurd (able entry message known h)

    entry-Returns :
        (ev : Event) (n : ℕ) (entry : Option ToolRegistryEntry)
        → IsResolvable ev
        → find_tool ev.tool_id registry ≡ entry
        → Returns (
            run_prepared js stringify registry target
              (strong window_ms poll_ms)
              query
              ev
              n
              (prepare_entry js stringify registry target (strong window_ms poll_ms) ev n entry))
    unfolding failure_diagnostic_for_step failure_diagnostic_for_incomplete_verification is_outcome
    entry-Returns ev n none able h = finalize_keyed-Returns ev _ refl
    entry-Returns ev n (some entry) able h = resolved-Returns ev n entry _ h able refl

    step-Returns :
        (ev : Event) (n : ℕ)
        → IsResolvable ev
        → Returns (
            verify_tool_observed_step js stringify registry target
              (strong window_ms poll_ms)
              query
              (some n)
              ev)
    unfolding verify_tool_observed_step prepare_step
    step-Returns ev n able = entry-Returns ev n _ able refl

    divergent-Returns :
        (plan : LogicalStepPlan)
        → Returns (finalize (build_divergent_step_outcome js stringify registry plan))
    unfolding build_divergent_step_outcome with_optional_langgraph_checkpoint_key
        failure_diagnostic_for_step failure_diagnostic_for_incomplete_verification is_outcome
    divergent-Returns plan =
        keyed-Returns _ (langgraph_checkpoint_key_from_tool_observed plan.last) refl
      where
        keyed-Returns :
            (s : StepOutcome) (key : Option Text)
            → Classified s.status s.reasons
            → Returns (finalize (keyed s key))
        keyed-Returns s none h = finalize-Returns _ h
        keyed-Returns s (some key) h = finalize-Returns _ h

    plan-Returns :
        (plan : LogicalStepPlan)
        → IsResolvable plan.last
        → Returns (run_plan js stringify registry target (strong window_ms poll_ms) query plan)
    plan-Returns plan able = choose plan.divergent
      where
        choose :
            (b : Bool)
            → Returns (
                if b
                then finalize (build_divergent_step_outcome js stringify registry plan)
                else verify_tool_observed_step js stringify registry target
                    (strong window_ms poll_ms)
                    query
                    (some plan.repeat_observation_count)
                    plan.last)
        choose true = divergent-Returns plan
        choose false = step-Returns plan.last plan.repeat_observation_count able

    plans-Returns :
        (plans : List LogicalStepPlan)
        → All (λ (p : LogicalStepPlan). IsResolvable p.last) plans
        → Returns (run_plans js stringify registry target (strong window_ms poll_ms) query plans)
    unfolding run_plans
    plans-Returns [] h = (_, refl)
    plans-Returns (plan ∷ plans) (h, hs) =
        bind-Returns (run_plan js stringify registry target (strong window_ms poll_ms) query plan) _
          (plan-Returns plan h)
          (λ s.
            bind-Returns
              (run_plans js stringify registry target (strong window_ms poll_ms) query plans) _
              (plans-Returns plans hs) (λ ss. (_, refl)))

module _ (P : Event → Type 0) where
  All-last : (before : List Event) (last : Event) → All P (before ++ last ∷ []) → P last
  All-last [] last (h, t) = h
  All-last (e ∷ before) last (h, hs) = All-last before last hs

  All-parts : (xs ys : List Event) → All P (xs ++ ys) → All P xs × All P ys
  All-parts [] ys h = (tt, h)
  All-parts (x ∷ xs) ys (h, hs) = let (a, b) = All-parts xs ys hs in ((h, a), b)

  All-lasts :
      (js : Runtime) (plans : List LogicalStepPlan)
      → All (IsStep js) plans
      → All P (observations_of plans)
      → All (λ (p : LogicalStepPlan). P p.last) plans
  All-lasts js [] k h = tt
  All-lasts js (plan ∷ plans) (k, ks) h =
      let (own, rest) = All-parts plan.observations (observations_of plans) h in
      let (before, e) = k.ends in
      (All-last before plan.last (subst (All P) e own), All-lasts js plans ks rest)

-- Under a strong policy a synchronous run over observed events returns its outcomes, whatever the database answers or throws: if resolving the
-- registry entry of no event throws, then no statement fails to be built, and every outcome can be classified.
pub run-Returns :
    (js : Runtime) (stringify : Json → Text) (registry : Registry) (target : Option DatabaseKind)
    (window_ms poll_ms : Number) (query : Text → List Text → Answer) (events : List Event)
    → All (IsResolvable js stringify registry target) events
    → Returns (
        run_logical_steps_verification_sync js stringify registry target
          (strong window_ms poll_ms)
          query
          events)
unfolding run_logical_steps_verification_sync stable_sort_events_by_seq
run-Returns js stringify registry target window_ms poll_ms query events h =
    let (ordered, listed, steps) = plan-IsStep js events in
    plans-Returns js stringify registry target window_ms poll_ms query
      (plan_logical_steps js events)
      (All-lasts (IsResolvable js stringify registry target) js (plan_logical_steps js events) steps
        (subst (All (IsResolvable js stringify registry target)) (sym listed)
          (sort-All seq_le (IsResolvable js stringify registry target) events h)))
