-- ===== src/Pipeline/Verdict.antt =====
-- The whole of a run over a database file, from its events to the status of the workflow.
use agentskeptic.Prelude.{
  ℕ, ◌≡◌, ◌≢◌, ◌↔◌, ◌⊎◌, inl, inr, refl, Option, some, List, [], ◌∷◌, All, ap, ◌∙◌, sym,
}
use mathlib.Core.Path.{subst}
use agentskeptic.Js.{Text, Number, Runtime}
use agentskeptic.Js.Json.{Json}
use agentskeptic.Types.{StepStatus, verified, VerificationPolicy, strong, WorkflowStatus}
use agentskeptic.Reconciler.{Answer}
use agentskeptic.Events.Plan.{LogicalStepPlan, plan_logical_steps}
use agentskeptic.ResolveExpectation.Request.{DatabaseKind, sqlite}
use agentskeptic.VerificationDiagnostics.{
  StepOutcome, diagnosed, strip_failure_diagnostic, with_failure_diagnostic,
  failure_diagnostic_for_step, enrich_steps_with_failure_diagnostics,
}
use agentskeptic.VerificationDiagnostics.Steps.{IsDiagnosed, IsClassifiable, enrich-some}
use agentskeptic.VerificationPolicy.Input.{Result, done}
use agentskeptic.VerificationPolicy.Run.{Run, ◌>>=◌, Environment}
use agentskeptic.Aggregate.{WorkflowEngineResult, aggregate_workflow, with_steps}
use agentskeptic.VerificationRunContext.Description.{IsDigest}
use agentskeptic.VerificationRunContext.Digest.{build-IsDigest}
use agentskeptic.Pipeline.Executable.{Returns}
use agentskeptic.Pipeline.{returns, run_logical_steps_verification_sync}
use agentskeptic.Pipeline.Runs.{Outcomes, IsVerifiedPlan, run-Outcomes}
use agentskeptic.Pipeline.Complete.{complete_run}
use agentskeptic.Pipeline.Total.{IsResolvable, run-Returns}
use agentskeptic.Pipeline.RunState.{
  VerifyRunStateFromEventsInput, RunState, run_file, run_steps, run_state_of, state_of_steps,
  verify_run_state_from_events,
}

verified_or_not : (s : StepStatus) → (s ≡ verified) ⊎ (s ≢ verified)
verified_or_not StepStatus.verified = inl refl
verified_or_not StepStatus.missing = inr (λ h. cc h)
verified_or_not StepStatus.inconsistent = inr (λ h. cc h)
verified_or_not StepStatus.incomplete_verification = inr (λ h. cc h)
verified_or_not StepStatus.partially_verified = inr (λ h. cc h)
verified_or_not StepStatus.uncertain = inr (λ h. cc h)

-- A second classification of an outcome returns.
IsDiagnosed-IsClassifiable : (s : StepOutcome) → IsDiagnosed s → IsClassifiable s
unfolding with_failure_diagnostic failure_diagnostic_for_step
IsDiagnosed-IsClassifiable s h = elim (verified_or_not s.status) [
  | inl v ↦ (
    _,
    ap (λ x. diagnosed (strip_failure_diagnostic s) (failure_diagnostic_for_step x s.reasons)) v,
  )
  | inr n ↦ let (d, e, f) = h.some_if_not n in (_, ap (diagnosed (strip_failure_diagnostic s)) f)
]

module _ (js : Runtime) (stringify : Json → Text) {E : Type 0} (now : E → ℕ × E)
    (sleep : Number → E → E) (query : Text → List Text → Answer)
    (open_target : E → (Text ⊎ Environment E) × E) (fuel : ℕ)
    (input : VerifyRunStateFromEventsInput) where
  abbrev target : Option DatabaseKind
  target = some input.database

  abbrev policy : VerificationPolicy
  policy = input.verification_policy

  Outcomes-IsClassifiable :
      (plans : List LogicalStepPlan) (ss : List StepOutcome)
      → Outcomes js stringify input.registry target policy query plans ss
      → All IsClassifiable ss
  Outcomes-IsClassifiable [] [] h = tt
  Outcomes-IsClassifiable [] (s ∷ ss) h = absurd h
  Outcomes-IsClassifiable (p ∷ ps) [] h = absurd h
  Outcomes-IsClassifiable (p ∷ ps) (s ∷ ss) (h, hs) =
      (IsDiagnosed-IsClassifiable s h.diagnosis, Outcomes-IsClassifiable ps ss hs)

  aggregated :
      (ss : List StepOutcome)
      → (ts : List StepOutcome) × (enrich_steps_with_failure_diagnostics ss ≡ some ts)
      → (r : WorkflowEngineResult) × (aggregate_workflow input.workflow_id ss
            input.run_level_reasons policy input.event_sequence_integrity
          ≡ some r)
  unfolding aggregate_workflow
  aggregated ss (ts, e) =
      (_, ap (with_steps input.workflow_id _ _ policy input.event_sequence_integrity) e)

  abbrev run : Run E RunState
  run = verify_run_state_from_events js stringify now sleep (inr query) open_target fuel input

  file-run :
      (w p : Number) (e : E) {ss : List StepOutcome} {r : RunState}
      → input.database ≡ sqlite
      → policy ≡ strong w p
      → run_logical_steps_verification_sync js stringify input.registry target policy query
          input.events
        ≡ done ss
      → state_of_steps js stringify now sleep (inr query) open_target fuel input ss ≡ done r
      → run e ≡ (done r, e)
  unfolding verify_run_state_from_events
  file-run w p e d s h k =
      ap
        (λ (x : Result (List StepOutcome) × E).
          ◌>>=◌ {E = E} (λ _. x)
            (λ ss.
              returns (state_of_steps js stringify now sleep (inr query) open_target fuel input ss))
            e)
        (ap
            (λ (kind : DatabaseKind).
              run_steps js stringify now sleep (inr query) open_target fuel input kind e)
            d
          ∙ ap
              (λ (q : VerificationPolicy).
                run_file js stringify now sleep (inr query) open_target fuel input q (inr query) e)
              s
          ∙ ap (λ (r : Result (List StepOutcome)). (r, e)) h)
      ∙ ap (λ (r : Result RunState). (r, e)) k

-- Over a SQLite file that opens and under a strong policy, if resolving the registry entry of no event throws, verifying the state of a run from its events
-- returns a result, whatever the database answers or throws, and leaves the outside world as it was: the result carries the digest of the run's events, and its
-- status is complete exactly when nothing was wrong with the run itself, some event was observed, and for every logical step the observations agree, the tool is in
-- the registry, the request of its entry resolves against the last parameters, and the execution of that request is verified.
pub verify_run_state-decides :
    (js : Runtime) (stringify : Json → Text) {E : Type 0} (now : E → ℕ × E) (sleep : Number → E → E)
    (query : Text → List Text → Answer) (open_target : E → (Text ⊎ Environment E) × E) (fuel : ℕ)
    (input : VerifyRunStateFromEventsInput) (w p : Number) (e : E)
    → input.database ≡ sqlite
    → input.verification_policy ≡ strong w p
    → All (IsResolvable js stringify input.registry (some input.database)) input.events
    → (r : RunState) × (verify_run_state_from_events js stringify now sleep
          (inr query)
          open_target
          fuel
          input
          e
        ≡ (done r, e))
      × IsDigest input.run_events r.verification_run_context
      × ((r.base.status ≡ WorkflowStatus.complete) ↔ (
          (input.run_level_reasons ≡ [])
          × (input.events ≢ [])
          × All
              (IsVerifiedPlan js stringify input.registry
                (some input.database)
                input.verification_policy
                query)
              (plan_logical_steps js input.events)))
verify_run_state-decides js stringify {E} now sleep query open_target fuel input w p e d s able =
    let (ss, h) =
      subst
        (λ (q : VerificationPolicy). Returns (
          run_logical_steps_verification_sync js stringify input.registry (some input.database) q
            query input.events))
        (sym s)
        (run-Returns js stringify input.registry (some input.database) w p query input.events
          able) in
    let outcomes =
      run-Outcomes js stringify input.registry (some input.database) input.verification_policy query
        input.events h in
    let again = enrich-some ss (
      Outcomes-IsClassifiable js stringify now sleep query open_target fuel input
        (plan_logical_steps js input.events) ss outcomes) in
    let (r, g) = aggregated js stringify now sleep query open_target fuel input ss again in
    (
      _,
      file-run js stringify now sleep query open_target fuel input w p e d s h
          (ap (run_state_of js stringify now sleep (inr query) open_target fuel input) g),
      build-IsDigest input.run_events,
      complete_run js stringify input.registry (some input.database) input.verification_policy query
          input.events input.workflow_id input.run_level_reasons input.event_sequence_integrity h g,
    )
