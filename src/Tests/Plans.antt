-- ===== src/Tests/Plans.antt =====
-- The rules of a plan on the diff of a commit.
use agentskeptic.Prelude.{ℕ, ◌≡◌, ◌≢◌, ◌↔◌, refl, false, none, some, List, [], ◌∷◌, map, All}
use agentskeptic.Js.{Text, text_eq}
use agentskeptic.Types.{verified, inconsistent, WorkflowStatus}
use agentskeptic.Types.Evidence.{PlanDiffRowKind, Paths, PlanDiffRow}
use agentskeptic.Aggregate.{WorkflowEngineResult}
use agentskeptic.VerificationPolicy.Input.{done}
use agentskeptic.PlanTransition.{PlanRuleKind, PlanRule, evaluate_rule, plan_engine}
use agentskeptic.PlanTransition.Verdict.{Holds}
use agentskeptic.PlanTransition.Plan.{rule-Holds, plan-Holds}
use agentskeptic.PlanTransition.NameStatus.{parse_git_name_status_z}
use agentskeptic.PlanTransition.RoundTrip.{
  Change, OnePathKind, TwoPathKind, single_change, double_change, printed, row_of, parse-printed,
}
use agentskeptic.Tests.{runtime}

-- The file "a" is renamed to "b".
abbrev diff : List PlanDiffRow
diff = record { row_kind = PlanDiffRowKind.rename; paths = Paths.two (97 ∷ []) (98 ∷ []) } ∷ []

abbrev rename_rule : PlanRule
rename_rule = record {
  id = 114 ∷ [];
  description = none;
  kind = PlanRuleKind.require_rename_from_to (97 ∷ []) (98 ∷ []) false;
}

rule-Holds_example :
    let s = evaluate_rule runtime text_eq diff rename_rule 1 in
    ((s.status ≡ verified) ↔ Holds text_eq diff rename_rule.kind)
    × ((s.status ≢ verified) → s.status ≡ inconsistent)
rule-Holds_example = rule-Holds runtime text_eq diff rename_rule 1

plan-Holds_example :
    (r : WorkflowEngineResult) × (plan_engine runtime text_eq [] diff (rename_rule ∷ []) ≡ some r)
    × ((r.status ≡ WorkflowStatus.complete) ↔ (
        (rename_rule ∷ [] ≢ [])
        × All (λ (rule : PlanRule). Holds text_eq diff rule.kind) (rename_rule ∷ [])))
plan-Holds_example = plan-Holds runtime text_eq diff [] (rename_rule ∷ [])

-- The decoder of ASCII texts.
abbrev utf8 : List ℕ → Text
utf8 bytes = bytes

abbrev changes : List Change
changes =
    single_change OnePathKind.added (97 ∷ [])
    ∷ double_change TwoPathKind.renamed 57 (48 ∷ []) (98 ∷ []) (99 ∷ [])
    ∷ []

parse-printed_example :
    parse_git_name_status_z runtime utf8 (printed changes)
    ≡ done (map (row_of runtime utf8) changes)
parse-printed_example =
    parse-printed runtime utf8 (λ bytes h. refl) changes
      ((refl, tt), ((refl, (refl, tt), (refl, tt)), tt))
