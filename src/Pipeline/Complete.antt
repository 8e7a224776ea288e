-- ===== src/Pipeline/Complete.antt =====
-- The status of a whole workflow: the run, and `aggregateWorkflow` of its outcomes.
use agentskeptic.Prelude.{
  ◌≡◌, ◌≢◌, ◌↔◌, refl, true, false, Option, List, [], ◌∷◌, All, all, is_empty, and_parts, ap, ◌∙◌,
  sym, arith,
}
use agentskeptic.Js.{Text, Runtime}
use agentskeptic.Js.Json.{Json}
use agentskeptic.Prelude.Sort.{insert, sort}
use agentskeptic.Types.{
  StepStatus, verified, VerificationPolicy, WorkflowStatus, EventSequenceIntegrity, Reason,
}
use agentskeptic.Reconciler.{Answer}
use agentskeptic.Reconciler.Outcome.{is_verified}
use agentskeptic.Events.{seq_le, stable_sort_events_by_seq}
use agentskeptic.Events.Plan.{Event, LogicalStepPlan, plan_logical_steps}
use agentskeptic.Events.Steps.{observations_of, plan-IsStep}
use agentskeptic.ResolveExpectation.Request.{DatabaseKind, Registry}
use agentskeptic.VerificationDiagnostics.{StepOutcome}
use agentskeptic.VerificationPolicy.Input.{done}
use agentskeptic.Aggregate.{WorkflowEngineResult, aggregate_workflow}
use agentskeptic.Aggregate.Status.{is_complete, verified_step, aggregate_status}
use agentskeptic.Pipeline.{run_logical_steps_verification_sync}
use agentskeptic.Pipeline.Runs.{IsVerifiedPlan, Outcomes, run-Outcomes}

pub is_verified_iff : (s : StepStatus) → (is_verified s ≡ true) ↔ (s ≡ verified)
is_verified_iff StepStatus.verified = (λ h. refl, λ h. refl)
is_verified_iff StepStatus.missing = (λ h. cc h, λ h. cc h)
is_verified_iff StepStatus.inconsistent = (λ h. cc h, λ h. cc h)
is_verified_iff StepStatus.incomplete_verification = (λ h. cc h, λ h. cc h)
is_verified_iff StepStatus.partially_verified = (λ h. cc h, λ h. cc h)
is_verified_iff StepStatus.uncertain = (λ h. cc h, λ h. cc h)

insert-not_nil : (e : Event) (events : List Event) → insert seq_le e events ≢ []
unfolding insert
insert-not_nil e [] h = cc h
insert-not_nil e (f ∷ fs) h = ground arith

sort-nil : (events : List Event) → stable_sort_events_by_seq events ≡ [] → events ≡ []
unfolding stable_sort_events_by_seq sort
sort-nil [] h = refl
sort-nil (e ∷ events) h = absurd (insert-not_nil e (sort seq_le events) h)

no_steps : (js : Runtime) → plan_logical_steps js [] ≡ []
unfolding plan_logical_steps sort
no_steps js = refl

plan-nil :
    (js : Runtime) (events : List Event) → (plan_logical_steps js events ≡ []) ↔ (events ≡ [])
plan-nil js events = (
  λ h.
      let (ordered, listed, steps) = plan-IsStep js events in
      sort-nil events (sym listed ∙ ap observations_of h),
  λ h. ap (plan_logical_steps js) h ∙ no_steps js,
)

module _ (js : Runtime) (stringify : Json → Text) (registry : Registry)
    (target : Option DatabaseKind) (policy : VerificationPolicy)
    (query : Text → List Text → Answer) where
  all_verified_iff :
      (plans : List LogicalStepPlan) (ss : List StepOutcome)
      → Outcomes js stringify registry target policy query plans ss
      → (all verified_step ss ≡ true)
        ↔ All (IsVerifiedPlan js stringify registry target policy query) plans
  all_verified_iff [] [] h = (λ g. tt, λ g. refl)
  all_verified_iff [] (s ∷ ss) h = absurd h
  all_verified_iff (p ∷ ps) [] h = absurd h
  all_verified_iff (p ∷ ps) (s ∷ ss) (h, hs) =
      let rest = all_verified_iff ps ss hs in
      let one = is_verified_iff s.status in
      (
        λ g.
            let (a, b) = and_parts (verified_step s) (all verified_step ss) g in
            (h.verified_iff.0 (one.0 a), rest.0 b),
        λ (g, gs). rw (one.1 (h.verified_iff.1 g)) (rest.1 gs),
      )

  empty_iff :
      (plans : List LogicalStepPlan) (ss : List StepOutcome)
      → Outcomes js stringify registry target policy query plans ss
      → (is_empty ss ≡ false) ↔ (plans ≢ [])
  empty_iff [] [] h = (λ g. cc g, λ g. absurd (g refl))
  empty_iff [] (s ∷ ss) h = absurd h
  empty_iff (p ∷ ps) [] h = absurd h
  empty_iff (p ∷ ps) (s ∷ ss) h = (λ g k. cc k, λ g. refl)

pub complete_iff :
    (steps : List StepOutcome) (incoming : List Reason)
    → (is_complete steps incoming ≡ true)
      ↔ ((incoming ≡ []) × (is_empty steps ≡ false) × (all verified_step steps ≡ true))
complete_iff [] [] = (λ h. cc h, λ (a, b, c). sym b)
complete_iff (s ∷ ss) [] = (λ h. (refl, refl, h), λ (a, b, c). c)
complete_iff [] (r ∷ rs) = (λ h. cc h, λ (a, b, c). sym b)
complete_iff (s ∷ ss) (r ∷ rs) = (λ h. cc h, λ (a, b, c). cc a)

-- Whenever a synchronous run over observed events returns and its outcomes are aggregated, the workflow is complete exactly when nothing was wrong with the
-- run itself, some event was observed, and for every logical step the observations agree, the tool is in the registry, the request of its entry
-- resolves against the last parameters, and the execution of that request against the database is verified.
pub complete_run :
    (js : Runtime) (stringify : Json → Text) (registry : Registry) (target : Option DatabaseKind)
    (policy : VerificationPolicy) (query : Text → List Text → Answer) (events : List Event)
    (id : Text) (incoming : List Reason) (integrity : EventSequenceIntegrity)
    {ss : List StepOutcome} {r : WorkflowEngineResult}
    → run_logical_steps_verification_sync js stringify registry target policy query events ≡ done ss
    → aggregate_workflow id ss incoming policy integrity ≡ Option.some r
    → (r.status ≡ WorkflowStatus.complete) ↔ (
        (incoming ≡ [])
        × (events ≢ [])
        × All
            (IsVerifiedPlan js stringify registry target policy query)
            (plan_logical_steps js events))
complete_run js stringify registry target policy query events id incoming integrity {ss} h g =
    let outcomes = run-Outcomes js stringify registry target policy query events h in
    let (status, others) = aggregate_status id ss incoming policy integrity g in
    let test = complete_iff ss incoming in
    let steps =
      all_verified_iff js stringify registry target policy query (plan_logical_steps js events) ss
        outcomes in
    let some_step =
      empty_iff js stringify registry target policy query (plan_logical_steps js events) ss
        outcomes in
    let none_iff = plan-nil js events in
    (
      λ c. let (a, b, v) = test.0 (status.0 c) in (a, λ e. some_step.0 b (none_iff.1 e), steps.0 v),
      λ (a, b, v). status.1 (test.1 (a, some_step.1 (λ e. b (none_iff.0 e)), steps.1 v)),
    )
