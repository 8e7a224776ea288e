-- ===== src/PlanTransition/Plan.antt =====
-- The result of a plan: the rules of its document on the rows of a diff.
use agentskeptic.Prelude.{
  ℕ, suc, ◌≡◌, ◌≢◌, ◌↔◌, ◌⊎◌, inl, inr, refl, Bool, true, false, some, List, [], ◌∷◌, all, is_empty,
  All, Bool-cases, ap, ◌∙◌, sym, and_parts,
}
use agentskeptic.Js.{Text, Runtime, nat}
use agentskeptic.Types.{verified, inconsistent, strong, normal, WorkflowStatus}
use agentskeptic.Types.Evidence.{PlanDiffRow}
use agentskeptic.Reconciler.Outcome.{is_verified}
use agentskeptic.VerificationDiagnostics.{
  StepOutcome, diagnosed, strip_failure_diagnostic, with_failure_diagnostic,
  failure_diagnostic_for_step, enrich_steps_with_failure_diagnostics,
}
use agentskeptic.VerificationDiagnostics.Steps.{IsClassifiable, enrich-some}
use agentskeptic.Aggregate.{WorkflowEngineResult, aggregate_workflow, with_steps}
use agentskeptic.Aggregate.Status.{verified_step, aggregate_status}
use agentskeptic.Pipeline.Complete.{is_verified_iff, complete_iff}
use agentskeptic.PlanTransition.{PlanRule, evaluate_rule, evaluate_plan_rules, plan_engine}
use agentskeptic.PlanTransition.Verdict.{Holds, kind-Decides}

-- A rule has one of two statuses.
abbrev IsSettled : StepOutcome → Type 0
IsSettled s = (s.status ≡ verified) ⊎ (s.status ≡ inconsistent)

IsSettled-IsClassifiable : (s : StepOutcome) → IsSettled s → IsClassifiable s
unfolding with_failure_diagnostic failure_diagnostic_for_step
IsSettled-IsClassifiable s (inl v) = (
  _,
  ap (λ x. diagnosed (strip_failure_diagnostic s) (failure_diagnostic_for_step x s.reasons)) v,
)
IsSettled-IsClassifiable s (inr i) = (
  _,
  ap (λ x. diagnosed (strip_failure_diagnostic s) (failure_diagnostic_for_step x s.reasons)) i,
)

module _ (js : Runtime) (is_match : Text → Text → Bool) (rows : List PlanDiffRow) where
  -- A rule of a plan is verified exactly when what it asks of the rows of the diff holds, and is inconsistent in every other case.
  pub rule-Holds :
      (rule : PlanRule) (seq : ℕ)
      → let s = evaluate_rule js is_match rows rule seq in
        ((s.status ≡ verified) ↔ Holds is_match rows rule.kind)
        × ((s.status ≢ verified) → s.status ≡ inconsistent)
  unfolding evaluate_rule
  rule-Holds rule seq = kind-Decides js is_match rows rule seq rule.kind

  rule-IsSettled : (rule : PlanRule) (seq : ℕ) → IsSettled (evaluate_rule js is_match rows rule seq)
  rule-IsSettled rule seq =
      let s = evaluate_rule js is_match rows rule seq in
      elim (Bool-cases (is_verified s.status)) [
        | inl e ↦ inl ((is_verified_iff s.status).0 e)
        | inr e ↦ inr ((rule-Holds rule seq).1 (λ v. cc (sym e ∙ (is_verified_iff s.status).1 v)))
      ]

  rules-IsClassifiable :
      (index : ℕ) (rules : List PlanRule)
      → All IsClassifiable (evaluate_plan_rules js is_match rows index rules)
  unfolding evaluate_plan_rules
  rules-IsClassifiable index [] = tt
  rules-IsClassifiable index (rule ∷ rules) = (
    IsSettled-IsClassifiable (evaluate_rule js is_match rows rule (suc index))
        (rule-IsSettled rule (suc index)),
    rules-IsClassifiable (suc index) rules,
  )

  rules_iff :
      (index : ℕ) (rules : List PlanRule)
      → (all verified_step (evaluate_plan_rules js is_match rows index rules) ≡ true)
        ↔ All (λ (rule : PlanRule). Holds is_match rows rule.kind) rules
  unfolding evaluate_plan_rules
  rules_iff index [] = (λ h. tt, λ h. refl)
  rules_iff index (rule ∷ rules) =
      let rest = rules_iff (suc index) rules in
      let own = (rule-Holds rule (suc index)).0 in
      let test = is_verified_iff (evaluate_rule js is_match rows rule (suc index)).status in
      (
        λ h.
            let (a, b) =
              and_parts (verified_step (evaluate_rule js is_match rows rule (suc index)))
                (all verified_step (evaluate_plan_rules js is_match rows (suc index) rules)) h in
            (own.0 (test.0 a), rest.0 b),
        λ (h, hs). rw (test.1 (own.1 h)) (rest.1 hs),
      )

  steps-empty_iff :
      (rules : List PlanRule)
      → (is_empty (evaluate_plan_rules js is_match rows 0 rules) ≡ false) ↔ (rules ≢ [])
  unfolding evaluate_plan_rules
  steps-empty_iff [] = (λ h. cc h, λ h. absurd (h refl))
  steps-empty_iff (rule ∷ rules) = (λ h k. cc k, λ h. refl)

  -- The result of a plan is never lost to the classification of its steps, and it is complete exactly when the plan has a rule and what each rule
  -- asks of the rows of the diff holds.
  pub plan-Holds :
      (workflow_id : Text) (rules : List PlanRule)
      → (r : WorkflowEngineResult) × (plan_engine js is_match workflow_id rows rules ≡ some r)
        × ((r.status ≡ WorkflowStatus.complete)
            ↔ ((rules ≢ []) × All (λ (rule : PlanRule). Holds is_match rows rule.kind) rules))
  unfolding plan_engine
  plan-Holds workflow_id rules =
      let steps = evaluate_plan_rules js is_match rows 0 rules in
      let (r, e) = result steps (enrich-some steps (rules-IsClassifiable 0 rules)) in
      let (status, others) =
        aggregate_status workflow_id steps [] (strong (nat 0) (nat 0)) normal e in
      let test = complete_iff steps [] in
      let some_rule = steps-empty_iff rules in
      let each = rules_iff 0 rules in
      (
        r,
        e,
        (
          λ c. let (a, b, v) = test.0 (status.0 c) in (some_rule.0 b, each.0 v),
          λ (b, v). status.1 (test.1 (refl, some_rule.1 b, each.1 v)),
        ),
      )
    where
      result :
          (steps : List StepOutcome)
          → (ts : List StepOutcome) × (enrich_steps_with_failure_diagnostics steps ≡ some ts)
          → (r : WorkflowEngineResult) × (aggregate_workflow workflow_id steps []
                (strong (nat 0) (nat 0))
                normal
              ≡ some r)
      result steps (ts, e) = (_, ap (with_steps workflow_id _ _ (strong (nat 0) (nat 0)) normal) e)
