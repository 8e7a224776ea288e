-- ===== src/Pipeline/Runs.antt =====
-- A whole run: the logical steps of the observed events, one after the other.
use agentskeptic.Prelude.{
  ℕ, ◌≡◌, ◌↔◌, refl, Bool, true, false, Option, none, some, List, [], ◌∷◌, ◌++◌, All, ap, ◌∙◌, sym,
  inl, inr, Bool-cases, if◌then◌else◌,
}
use mathlib.Core.Path.{subst}
use mathlib.Core.Bool.{true≢false}
use agentskeptic.Js.{Text, Runtime, nat}
use agentskeptic.Js.Json.{Json}
use agentskeptic.Types.{verified, VerificationPolicy}
use agentskeptic.Reconciler.{Answer}
use agentskeptic.Events.Plan.{Event, LogicalStepPlan, plan_logical_steps}
use agentskeptic.Events.Steps.{IsStep, HasSeq, plan-IsStep}
use agentskeptic.ResolveExpectation.Request.{DatabaseKind, Registry}
use agentskeptic.VerificationDiagnostics.{StepOutcome}
use agentskeptic.VerificationDiagnostics.Steps.{IsDiagnosed}
use agentskeptic.VerificationPolicy.Input.{done}
use agentskeptic.Pipeline.{
  finalize, build_divergent_step_outcome, verify_tool_observed_step, run_plan, run_plans,
  run_logical_steps_verification_sync, keyed, with_optional_langgraph_checkpoint_key,
  langgraph_checkpoint_key_from_tool_observed,
}
use agentskeptic.Pipeline.Finalized.{finalize-IsFinal, run-done, done-injective, bare}
use agentskeptic.Pipeline.Steps.{IsVerifiedCall, IsOutcome, step-IsOutcome}

keyed-bare : (s : StepOutcome) (key : Option Text) → bare (keyed s key) ≡ bare s
keyed-bare s none = refl
keyed-bare s (some k) = refl

HasSeq-last :
    (k : ℕ) (before : List Event) (last : Event) → HasSeq k (before ++ last ∷ []) → last.seq ≡ k
HasSeq-last k [] last (h, t) = h
HasSeq-last k (e ∷ before) last (h, hs) = HasSeq-last k before last hs

step-last : (js : Runtime) (plan : LogicalStepPlan) → IsStep js plan → plan.last.seq ≡ plan.seq
step-last js plan h =
    let (before, e) = h.ends in
    HasSeq-last plan.seq before plan.last (subst (HasSeq plan.seq) e h.own_seq)

module _ (js : Runtime) (stringify : Json → Text) (registry : Registry)
    (target : Option DatabaseKind) (policy : VerificationPolicy)
    (query : Text → List Text → Answer) where
  -- The observations agree, and the check of the last one passed.
  abbrev pub IsVerifiedPlan : LogicalStepPlan → Type 0
  IsVerifiedPlan plan =
      (plan.divergent ≡ false) × IsVerifiedCall js stringify registry target policy query plan.last

  -- The outcome of a logical step.
  pub record IsPlanOutcome (plan : LogicalStepPlan) (s : StepOutcome) : Type 0 where
    pub own_seq : s.seq ≡ nat plan.seq
    pub own_tool : s.tool_id ≡ plan.last.tool_id
    pub counted : s.repeat_observation_count ≡ plan.repeat_observation_count
    pub last_evaluated : s.evaluated_observation_ordinal ≡ plan.repeat_observation_count
    pub diagnosis : IsDiagnosed s
    pub verified_iff : (s.status ≡ verified) ↔ IsVerifiedPlan plan

  -- Each logical step has its outcome, in order.
  abbrev pub Outcomes : List LogicalStepPlan → List StepOutcome → Type 0
  Outcomes [] [] = Unit
  Outcomes [] (s ∷ ss) = ⊥
  Outcomes (p ∷ ps) [] = ⊥
  Outcomes (p ∷ ps) (s ∷ ss) = IsPlanOutcome p s × Outcomes ps ss

  divergent-IsPlanOutcome :
      (plan : LogicalStepPlan) {s : StepOutcome}
      → plan.divergent ≡ true
      → finalize (build_divergent_step_outcome js stringify registry plan) ≡ done s
      → IsPlanOutcome plan s
  unfolding build_divergent_step_outcome with_optional_langgraph_checkpoint_key
  divergent-IsPlanOutcome plan {s} d h =
      let final = finalize-IsFinal _ h in
      let same =
        sym (keyed-bare _ (langgraph_checkpoint_key_from_tool_observed plan.last)) ∙ final.same in
      record {
        own_seq = sym (ap (λ (x : StepOutcome). x.seq) same);
        own_tool = sym (ap (λ (x : StepOutcome). x.tool_id) same);
        counted = sym (ap (λ (x : StepOutcome). x.repeat_observation_count) same);
        last_evaluated = sym (ap (λ (x : StepOutcome). x.evaluated_observation_ordinal) same);
        diagnosis = final.diagnosis;
        verified_iff = (
          λ e. cc (ap (λ (x : StepOutcome). x.status) same ∙ e),
          λ (f, c). absurd (true≢false (sym d ∙ f)),
        );
      }

  called-IsPlanOutcome :
      (plan : LogicalStepPlan) {s : StepOutcome}
      → plan.last.seq ≡ plan.seq
      → plan.divergent ≡ false
      → IsOutcome js stringify registry target policy query plan.last plan.repeat_observation_count
          s
      → IsPlanOutcome plan s
  called-IsPlanOutcome plan last d h = record {
    own_seq = h.own_seq ∙ ap nat last;
    own_tool = h.own_tool;
    counted = h.counted;
    last_evaluated = h.last_evaluated;
    diagnosis = h.diagnosis;
    verified_iff = (λ e. (d, h.verified_iff.0 e), λ (f, c). h.verified_iff.1 c);
  }

  plan-IsPlanOutcome :
      (plan : LogicalStepPlan) {s : StepOutcome}
      → plan.last.seq ≡ plan.seq
      → run_plan js stringify registry target policy query plan ≡ done s
      → IsPlanOutcome plan s
  plan-IsPlanOutcome plan {s} last h = elim (Bool-cases plan.divergent) [
    | inl d ↦ divergent-IsPlanOutcome plan d (sym (choose d) ∙ h)
    | inr d ↦
        called-IsPlanOutcome plan last d
          (step-IsOutcome _ _ _ _ _ _ _ plan.last (sym (choose d) ∙ h))
  ]
    where
      choose :
          {b : Bool}
          → plan.divergent ≡ b
          → run_plan js stringify registry target policy query plan ≡ (
              if b
              then finalize (build_divergent_step_outcome js stringify registry plan)
              else verify_tool_observed_step js stringify registry target policy query
                  (some plan.repeat_observation_count)
                  plan.last)
      choose d =
          ap
            (λ (x : Bool).
              if x
              then finalize (build_divergent_step_outcome js stringify registry plan)
              else verify_tool_observed_step js stringify registry target policy query
                  (some plan.repeat_observation_count) plan.last)
            d

  plans-Outcomes :
      (plans : List LogicalStepPlan) {ss : List StepOutcome}
      → All (IsStep js) plans
      → run_plans js stringify registry target policy query plans ≡ done ss
      → Outcomes plans ss
  unfolding run_plans
  plans-Outcomes [] k h = subst (Outcomes []) (done-injective h) tt
  plans-Outcomes (plan ∷ plans) (k, ks) h =
      let (s, p, h1) = run-done (run_plan js stringify registry target policy query plan) _ h in
      let (rest, q, h2) =
        run-done (run_plans js stringify registry target policy query plans) _ h1 in
      subst (Outcomes (plan ∷ plans)) (done-injective h2)
        (plan-IsPlanOutcome plan (step-last js plan k) p, plans-Outcomes plans ks q)

-- Whenever a synchronous run over observed events returns, it gives one outcome for each logical step of the events, in
-- order. Each has the `seq` of its step and the tool of its last observation, counts the observations, and carries the class of its failure; and
-- it is verified exactly when the observations of the step agree, the tool is in the registry, the request of its
-- entry resolves against the last parameters, and the execution of that request is verified.
pub run-Outcomes :
    (js : Runtime) (stringify : Json → Text) (registry : Registry) (target : Option DatabaseKind)
    (policy : VerificationPolicy) (query : Text → List Text → Answer) (events : List Event)
    {ss : List StepOutcome}
    → run_logical_steps_verification_sync js stringify registry target policy query events ≡ done ss
    → Outcomes js stringify registry target policy query (plan_logical_steps js events) ss
unfolding run_logical_steps_verification_sync
run-Outcomes js stringify registry target policy query events h =
    let (ordered, listed, steps) = plan-IsStep js events in
    plans-Outcomes js stringify registry target policy query (plan_logical_steps js events) steps h
