-- ===== src/Pipeline/Steps.antt =====
-- The outcomes of a run, one for each logical step.
use agentskeptic.Prelude.{ℕ, ◌≡◌, ◌↔◌, refl, Option, none, some, List, ap, ◌∙◌, sym}
use mathlib.Core.Option.{some-injective}
use agentskeptic.Js.{Text, Runtime, nat}
use agentskeptic.Js.Json.{Json}
use agentskeptic.Types.{verified, VerificationPolicy}
use agentskeptic.Types.Registry.{ToolRegistryEntry}
use agentskeptic.Reconciler.{Answer}
use agentskeptic.MultiEffectRollup.{PolicyExecutionOutput}
use agentskeptic.Events.Plan.{Event}
use agentskeptic.ResolveExpectation.Outcome.{Outcome, ok, refused, ok-injective}
use agentskeptic.ResolveExpectation.Request.{
  DatabaseKind, Registry, find_tool, resolve_verification_request,
}
use agentskeptic.VerificationDiagnostics.{StepOutcome}
use agentskeptic.VerificationDiagnostics.Steps.{IsDiagnosed}
use agentskeptic.VerificationPolicy.Input.{done}
use agentskeptic.VerificationPolicy.Execute.{Resolved, execute_verification_with_policy_sync}
use agentskeptic.Pipeline.{
  checked, outcome_of, prepare_step, prepare_entry, prepare_resolved, executed, run_prepared,
  verify_tool_observed_step,
}
use agentskeptic.Pipeline.Finalized.{IsFinal, finalize_keyed-IsFinal, run-done, done-injective}

module _ (js : Runtime) (stringify : Json → Text) (registry : Registry)
    (target : Option DatabaseKind) (policy : VerificationPolicy)
    (query : Text → List Text → Answer) where
  -- The check of a call passed: its tool is in the registry, the request of the entry was resolved, and its execution is verified.
  pub record IsVerifiedCall (ev : Event) : Type 0 where
    pub entry : ToolRegistryEntry
    pub resolved : Resolved
    pub output : PolicyExecutionOutput
    pub known : find_tool ev.tool_id registry ≡ some entry
    pub resolves : resolve_verification_request js ev.params entry target ≡ ok resolved
    pub executes : execute_verification_with_policy_sync js query resolved policy ≡ done output
    pub passes : output.status ≡ verified

  -- The outcome of an event that was observed `n` times.
  pub record IsOutcome (ev : Event) (n : ℕ) (s : StepOutcome) : Type 0 where
    pub own_seq : s.seq ≡ nat ev.seq
    pub own_tool : s.tool_id ≡ ev.tool_id
    pub counted : s.repeat_observation_count ≡ n
    pub last_evaluated : s.evaluated_observation_ordinal ≡ n
    pub diagnosis : IsDiagnosed s
    pub verified_iff : (s.status ≡ verified) ↔ IsVerifiedCall ev

  final-IsOutcome :
      (entry : Option ToolRegistryEntry) (ev : Event) (n : ℕ) (out : PolicyExecutionOutput)
      (s : StepOutcome)
      → IsFinal (outcome_of js stringify registry entry ev n out) s
      → (out.status ≡ verified) ↔ IsVerifiedCall ev
      → IsOutcome ev n s
  final-IsOutcome entry ev n out s h v = record {
    own_seq = sym (ap (λ (x : StepOutcome). x.seq) h.same);
    own_tool = sym (ap (λ (x : StepOutcome). x.tool_id) h.same);
    counted = sym (ap (λ (x : StepOutcome). x.repeat_observation_count) h.same);
    last_evaluated = sym (ap (λ (x : StepOutcome). x.evaluated_observation_ordinal) h.same);
    diagnosis = h.diagnosis;
    verified_iff =
        let same : out.status ≡ s.status = ap (λ (x : StepOutcome). x.status) h.same in
        (λ e. v.0 (same ∙ e), λ c. sym same ∙ v.1 c);
  }

  executed-IsOutcome :
      (ev : Event) (n : ℕ) (entry : ToolRegistryEntry) (resolved : Resolved) {s : StepOutcome}
      → find_tool ev.tool_id registry ≡ some entry
      → resolve_verification_request js ev.params entry target ≡ ok resolved
      → run_prepared js stringify registry target policy query ev n (checked entry resolved)
        ≡ done s
      → IsOutcome ev n s
  executed-IsOutcome ev n entry resolved {s} known resolves h =
      let (out, p, q) =
        run-done (execute_verification_with_policy_sync js query resolved policy)
          (executed js stringify registry target policy entry ev n) h in
      final-IsOutcome (some entry) ev n out s (finalize_keyed-IsFinal ev _ q) (
        λ v. record {
          entry = entry;
          resolved = resolved;
          output = out;
          known = known;
          resolves = resolves;
          executes = p;
          passes = v;
        },
        λ c.
            let e : entry ≡ c.entry = some-injective _ _ (sym known ∙ c.known) in
            let r : resolved ≡ c.resolved = ok-injective (
              sym resolves
              ∙ ap (λ x. resolve_verification_request js ev.params x target) e
              ∙ c.resolves) in
            let o : out ≡ c.output = done-injective (
              sym p
              ∙ ap (λ x. execute_verification_with_policy_sync js query x policy) r
              ∙ c.executes) in
            ap (λ (x : PolicyExecutionOutput). x.status) o ∙ c.passes,
      )

  resolved-IsOutcome :
      (ev : Event) (n : ℕ) (entry : ToolRegistryEntry) (o : Outcome Resolved) {s : StepOutcome}
      → find_tool ev.tool_id registry ≡ some entry
      → resolve_verification_request js ev.params entry target ≡ o
      → run_prepared js stringify registry target policy query ev n
          (prepare_resolved js stringify registry target policy entry ev n o)
        ≡ done s
      → IsOutcome ev n s
  resolved-IsOutcome ev n entry (ok resolved) known resolves h =
      executed-IsOutcome ev n entry resolved known resolves h
  resolved-IsOutcome ev n entry (refused code message) {s} known resolves h =
      final-IsOutcome (some entry) ev n _ s (finalize_keyed-IsFinal ev _ h) (
        λ e. cc e,
        λ c.
            let e : entry ≡ c.entry = some-injective _ _ (sym known ∙ c.known) in
            cc (
              sym resolves
              ∙ ap (λ x. resolve_verification_request js ev.params x target) e
              ∙ c.resolves),
      )
  resolved-IsOutcome ev n entry (Outcome.thrown message) known resolves h = cc h

  entry-IsOutcome :
      (ev : Event) (n : ℕ) (entry : Option ToolRegistryEntry) {s : StepOutcome}
      → find_tool ev.tool_id registry ≡ entry
      → run_prepared js stringify registry target policy query ev n
          (prepare_entry js stringify registry target policy ev n entry)
        ≡ done s
      → IsOutcome ev n s
  entry-IsOutcome ev n none {s} known h =
      final-IsOutcome none ev n _ s (finalize_keyed-IsFinal ev _ h)
        (λ e. cc e, λ c. cc (sym known ∙ c.known))
  entry-IsOutcome ev n (some entry) known h = resolved-IsOutcome ev n entry _ known refl h

  -- Whenever the verification of one observed call returns, its outcome has the call's `seq` and tool, counts its observations,
  -- carries the class of its failure and none when it is verified; and it is verified exactly when the tool is in the
  -- registry, the request of its entry resolves against the parameters, and the execution of that request is verified.
  pub step-IsOutcome :
      (n : ℕ) (ev : Event) {s : StepOutcome}
      → verify_tool_observed_step js stringify registry target policy query (some n) ev ≡ done s
      → IsOutcome ev n s
  unfolding verify_tool_observed_step prepare_step
  step-IsOutcome n ev h = entry-IsOutcome ev n _ refl h
