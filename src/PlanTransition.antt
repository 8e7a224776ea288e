-- ===== src/PlanTransition.antt =====
-- planTransition.ts: the rules of a plan on the rows of a diff, and the result of a plan. `is_match` is the matcher of
-- paths that picomatch makes.
pub mod Quantifiers
pub mod Verdict
pub mod Plan
pub mod NameStatus
pub mod RoundTrip
use agentskeptic.Prelude.{
  ℕ, suc, Bool, true, false, not, ◌&&◌, Option, none, some, List, [], ◌∷◌, ◌++◌, map, any, keep,
  take, length, is_empty, leb, ◌==◌, if◌then◌else◌,
}
use agentskeptic.Js.{Text, Runtime, text, nat, join, trim}
use agentskeptic.WireReasonCodes.{Code, PlanRuleCode, plan_rule}
use agentskeptic.Types.{
  StepVerificationRequest, StepStatus, verified, inconsistent, Reason, strong, normal,
}
use agentskeptic.Types.Evidence.{
  Key, EvidenceValue, PlanDiffRowKind, add, modify, delete, rename, copy, type_change, unmerged,
  Paths, one, two, PlanDiffRow, StepField, leaf, diff_rows, path_failures, StepEvidence,
}
use agentskeptic.VerificationDiagnostics.{StepOutcome}
use agentskeptic.Aggregate.{WorkflowEngineResult, aggregate_workflow}

pub data PlanRuleKind : Type 0 where
  matching_rows_must_have_row_kinds : (pattern : Text) → List PlanDiffRowKind → PlanRuleKind
  forbid_matching_rows : (pattern : Text) → PlanRuleKind
  require_matching_row : (pattern : Text) → List PlanDiffRowKind → PlanRuleKind
  all_changed_paths_must_match_allowlist : (allow_patterns : List Text) → PlanRuleKind
  require_rename_from_to : (from_pattern to_pattern : Text) → (include_copy : Bool) → PlanRuleKind

pub record PlanRule : Type 0 where
  pub id : Text
  pub description : Option Text
  pub kind : PlanRuleKind

abbrev pub evidence_cap : ℕ
evidence_cap = 50

abbrev kind_tag : PlanDiffRowKind → ℕ
kind_tag add = 0
kind_tag modify = 1
kind_tag delete = 2
kind_tag rename = 3
kind_tag copy = 4
kind_tag type_change = 5
kind_tag unmerged = 6

-- `kinds.has(kind)`.
abbrev pub has_kind : List PlanDiffRowKind → PlanDiffRowKind → Bool
has_kind kinds kind = any (λ k. kind_tag k == kind_tag kind) kinds

-- `[...new Set(kinds)]`: the first of each.
pub distinct_kinds : List PlanDiffRowKind → List PlanDiffRowKind → List PlanDiffRowKind
distinct_kinds seen [] = []
distinct_kinds seen (k ∷ ks) =
    let rest = distinct_kinds seen ks in
    let fresh = distinct_kinds (k ∷ seen) ks in if has_kind seen k then rest else k ∷ fresh

abbrev kind_text : PlanDiffRowKind → Text
kind_text add = text "add"
kind_text modify = text "modify"
kind_text delete = text "delete"
kind_text rename = text "rename"
kind_text copy = text "copy"
kind_text type_change = text "type_change"
kind_text unmerged = text "unmerged"

abbrev kinds_text : Text → List PlanDiffRowKind → Text
kinds_text separator kinds = join separator (map kind_text (distinct_kinds [] kinds))

abbrev rule_kind_text : PlanRuleKind → Text
rule_kind_text (matching_rows_must_have_row_kinds p ks) = text "matchingRowsMustHaveRowKinds"
rule_kind_text (forbid_matching_rows p) = text "forbidMatchingRows"
rule_kind_text (require_matching_row p ks) = text "requireMatchingRow"
rule_kind_text (all_changed_paths_must_match_allowlist ps) =
    text "allChangedPathsMustMatchAllowlist"
rule_kind_text (require_rename_from_to a b c) = text "requireRenameFromTo"

-- `p.replace(/\\/g, "/")`.
unfoldable pub normalize_path_slashes : Text → Text
normalize_path_slashes [] = []
normalize_path_slashes (c ∷ s) =
    let rest = normalize_path_slashes s in (if c == 92 then 47 else c) ∷ rest

abbrev pub all_paths_in_row : PlanDiffRow → List Text
all_paths_in_row row = paths_of row.paths
  where
    paths_of : Paths → List Text
    paths_of (one p) = p ∷ []
    paths_of (two p q) = p ∷ q ∷ []

-- `capEvidence`: the items, and whether they are truncated.
abbrev cap_evidence : {A : Type 0} → List A → List A × Bool
cap_evidence xs = if leb (length xs) evidence_cap then (xs, false) else (take evidence_cap xs, true)

abbrev pub rename_kinds : Bool → List PlanDiffRowKind
rename_kinds include_copy = if include_copy then rename ∷ copy ∷ [] else rename ∷ []

module _ (is_match : Text → Text → Bool) where
  unfoldable pub path_matches_pattern : Text → Text → Bool
  unfolding normalize_path_slashes
  path_matches_pattern path pattern = is_match (normalize_path_slashes path) pattern

  abbrev pub row_touches_pattern : PlanDiffRow → Text → Bool
  row_touches_pattern row pattern = any (λ p. path_matches_pattern p pattern) (all_paths_in_row row)

  abbrev pub row_matches_pattern_and_kinds : PlanDiffRow → Text → List PlanDiffRowKind → Bool
  row_matches_pattern_and_kinds row pattern kinds =
      row_touches_pattern row pattern && has_kind kinds row.row_kind

  abbrev pub path_matches_any_allowlist : Text → List Text → Bool
  path_matches_any_allowlist path patterns = any (λ pat. path_matches_pattern path pat) patterns

  -- The rows that a rule on kinds rejects, and those that a rule forbids.
  abbrev pub violating : Text → List PlanDiffRowKind → List PlanDiffRow → List PlanDiffRow
  violating pattern kinds =
      keep (λ (row : PlanDiffRow).
        row_touches_pattern row pattern && not (has_kind kinds row.row_kind))

  abbrev pub forbidden : Text → List PlanDiffRow → List PlanDiffRow
  forbidden pattern = keep (λ (row : PlanDiffRow). row_touches_pattern row pattern)

  -- The paths that no entry of the allowlist matches, each with the kind of its row.
  unfoldable pub allowlist_failures : List Text → List PlanDiffRow → List (Text × PlanDiffRowKind)
  unfolding path_matches_pattern
  allowlist_failures patterns [] = []
  allowlist_failures patterns (row ∷ rows) =
      map (λ p. (p, row.row_kind))
        (keep (λ p. not (path_matches_any_allowlist p patterns)) (all_paths_in_row row))
      ++ allowlist_failures patterns rows

  abbrev pub both_match : Text → Text → Paths → Bool
  both_match from to (one p) = false
  both_match from to (two p q) = path_matches_pattern p from && path_matches_pattern q to

  abbrev pub is_rename : Text → Text → Bool → PlanDiffRow → Bool
  is_rename from to include_copy row =
      has_kind (rename_kinds include_copy) row.row_kind && both_match from to row.paths

module _ (js : Runtime) (is_match : Text → Text → Bool) where
  -- `rule.description?.trim() || …`.
  abbrev pub narrative : PlanRule → Text
  narrative rule = described rule.description
    where
      by_default : Text → Text
      by_default [] = rule_kind_text rule.kind ++ text " (" ++ rule.id ++ text ")"
      by_default (c ∷ s) = c ∷ s

      described : Option Text → Text
      described none = by_default []
      described (some d) = by_default (trim d)

  abbrev pub rule_outcome : PlanRule → ℕ → StepStatus → List Reason → StepEvidence → StepOutcome
  rule_outcome rule seq status reasons extra = record {
    seq = nat seq;
    tool_id = text "plan_transition.rule." ++ rule.id;
    release_critical = false;
    narrative = narrative rule;
    params_canonical = text "{}";
    verification_request = StepVerificationRequest.none;
    status = status;
    reasons = reasons;
    evidence =
        (Key.plan_transition, leaf (EvidenceValue.boolean true))
        ∷ (Key.rule_id, leaf (EvidenceValue.string rule.id))
        ∷ extra;
    repeat_observation_count = 1;
    evaluated_observation_ordinal = 1;
    failure_diagnostic = none;
    langgraph_checkpoint_key = none;
  }

  abbrev pub passed : PlanRule → ℕ → StepEvidence → StepOutcome
  passed rule seq extra = rule_outcome rule seq verified [] extra

  abbrev pub failed : PlanRule → ℕ → PlanRuleCode → Text → StepEvidence → StepOutcome
  failed rule seq code message extra =
      rule_outcome rule seq inconsistent
        (record { code = plan_rule code; message = message; field = none } ∷ []) extra

  abbrev row_count : List PlanDiffRow → StepEvidence
  row_count rows = (Key.row_count, leaf (EvidenceValue.number (nat (length rows)))) ∷ []

  abbrev with_rows : List PlanDiffRow → StepEvidence
  with_rows rows =
      let (items, truncated) = cap_evidence rows in
      (Key.violating_rows, diff_rows items)
      ∷ (Key.truncated, leaf (EvidenceValue.boolean truncated))
      ∷ []

  abbrev with_failures : List (Text × PlanDiffRowKind) → StepEvidence
  with_failures failures =
      let (items, truncated) = cap_evidence failures in
      (Key.allowlist_failures, path_failures items)
      ∷ (Key.truncated, leaf (EvidenceValue.boolean truncated))
      ∷ []

  abbrev pub evaluate_kind : List PlanDiffRow → PlanRule → ℕ → PlanRuleKind → StepOutcome
  evaluate_kind rows rule seq (matching_rows_must_have_row_kinds pattern kinds) =
      let bad = violating is_match pattern kinds rows in
      if not (is_empty bad)
      then failed rule seq PlanRuleCode.row_kind_mismatch
          (text "Rows matching pattern must have rowKinds "
            ++ kinds_text (text ", ") kinds
            ++ text "; found violating rows.")
          (with_rows bad)
      else passed rule seq (row_count rows)
  evaluate_kind rows rule seq (forbid_matching_rows pattern) =
      let bad = forbidden is_match pattern rows in
      if not (is_empty bad)
      then failed rule seq PlanRuleCode.forbidden_row
          (text "No diff row may match pattern " ++ js.json_text pattern ++ text ".")
          (with_rows bad)
      else passed rule seq []
  evaluate_kind rows rule seq (require_matching_row pattern kinds) =
      if not (any (λ row. row_matches_pattern_and_kinds is_match row pattern kinds) rows)
      then failed rule seq PlanRuleCode.required_row_missing
          (text "Expected at least one diff row matching pattern "
            ++ js.json_text pattern
            ++ text " with rowKinds "
            ++ kinds_text (text ", ") kinds
            ++ text ".")
          (row_count rows)
      else passed rule seq []
  evaluate_kind rows rule seq (all_changed_paths_must_match_allowlist patterns) =
      let bad = allowlist_failures is_match patterns rows in
      if not (is_empty bad)
      then failed rule seq PlanRuleCode.allowlist_violation
          (text "Every changed path must match at least one allowPatterns entry.")
          (with_failures bad)
      else passed rule seq []
  evaluate_kind rows rule seq (require_rename_from_to from to include_copy) =
      if not (any (is_rename is_match from to include_copy) rows)
      then failed rule seq PlanRuleCode.rename_mismatch
          (text "Expected "
            ++ kinds_text (text " or ") (rename_kinds include_copy)
            ++ text " from "
            ++ js.json_text from
            ++ text " to "
            ++ js.json_text to
            ++ text ".")
          (row_count rows)
      else passed rule seq []

  unfoldable pub evaluate_rule : List PlanDiffRow → PlanRule → ℕ → StepOutcome
  unfolding allowlist_failures path_matches_pattern
  evaluate_rule rows rule seq = evaluate_kind rows rule seq rule.kind

  -- From the place of the first rule.
  unfoldable pub evaluate_plan_rules : List PlanDiffRow → ℕ → List PlanRule → List StepOutcome
  unfolding evaluate_rule
  evaluate_plan_rules rows index [] = []
  evaluate_plan_rules rows index (rule ∷ rules) =
      evaluate_rule rows rule (suc index) ∷ evaluate_plan_rules rows (suc index) rules

  -- What `buildPlanTransitionWorkflowResult` aggregates from the rows of the diff and the rules of the plan.
  unfoldable pub plan_engine : Text → List PlanDiffRow → List PlanRule → Option WorkflowEngineResult
  unfolding evaluate_plan_rules aggregate_workflow
  plan_engine workflow_id rows rules =
      aggregate_workflow workflow_id (evaluate_plan_rules rows 0 rules) [] (strong (nat 0) (nat 0))
        normal
