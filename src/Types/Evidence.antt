-- ===== src/Types/Evidence.antt =====
-- `evidenceSummary`: an object whose keys are those that the reconcilers, the rollups, the policy
-- executor and the plan rules write, and whose values are what they write there.
use agentskeptic.Prelude.{ℕ, Bool, Option, none, some, List, [], ◌∷◌, map, ◌==◌, if◌then◌else◌}
use agentskeptic.Js.{Text, Number, Value, Row}
use agentskeptic.Types.{StepStatus, Reason, ExpectOp}

pub data Key : Type 0 where
  row_count row_keys field expected actual error : Key
  matched_row_count sample_rows raw check_id check_kind v orphan_row_count op : Key
  effect_count effects attempts elapsed_ms verification_window_ms poll_interval_ms : Key
  verification_kind plan_transition rule_id violating_rows allowlist_failures truncated : Key

abbrev tag : Key → ℕ
tag Key.row_count = 0
tag Key.row_keys = 1
tag Key.field = 2
tag Key.expected = 3
tag Key.actual = 4
tag Key.error = 5
tag Key.matched_row_count = 6
tag Key.sample_rows = 7
tag Key.raw = 8
tag Key.check_id = 9
tag Key.check_kind = 10
tag Key.v = 11
tag Key.orphan_row_count = 12
tag Key.op = 13
tag Key.effect_count = 14
tag Key.effects = 15
tag Key.attempts = 16
tag Key.elapsed_ms = 17
tag Key.verification_window_ms = 18
tag Key.poll_interval_ms = 19
tag Key.verification_kind = 20
tag Key.plan_transition = 21
tag Key.rule_id = 22
tag Key.violating_rows = 23
tag Key.allowlist_failures = 24
tag Key.truncated = 25

pub data EvidenceValue : Type 0 where
  null : EvidenceValue
  boolean : Bool → EvidenceValue
  number : Number → EvidenceValue
  string : Text → EvidenceValue
  strings : List Text → EvidenceValue
  op : ExpectOp → EvidenceValue
  raw : Value → EvidenceValue
  rows : List Row → EvidenceValue

-- The summary of one reconciliation.
abbrev pub Evidence : Type 0
Evidence = List (Key × EvidenceValue)

-- `evidenceSummary.key`.
unfoldable pub evidence_get : Key → Evidence → Option EvidenceValue
evidence_get k [] = none
evidence_get k ((j, x) ∷ e) = if tag j == tag k then some x else evidence_get k e

-- `EffectRow`: one check of a rollup.
pub record EffectRow : Type 0 where
  pub id : Text
  pub status : StepStatus
  pub reasons : List Reason
  pub evidence : Evidence

pub data PlanDiffRowKind : Type 0 where
  add modify delete rename copy type_change unmerged : PlanDiffRowKind

-- `paths` is a tuple of one or of two paths.
pub data Paths : Type 0 where
  one : Text → Paths
  two : Text → Text → Paths

pub record PlanDiffRow : Type 0 where
  pub row_kind : PlanDiffRowKind
  pub paths : Paths

pub data StepField : Type 0 where
  leaf : EvidenceValue → StepField
  effects : List EffectRow → StepField
  diff_rows : List PlanDiffRow → StepField
  path_failures : List (Text × PlanDiffRowKind) → StepField

-- The summary of a step.
abbrev pub StepEvidence : Type 0
StepEvidence = List (Key × StepField)

abbrev lift_field : Key × EvidenceValue → Key × StepField
lift_field (k, x) = (k, leaf x)

-- A reconciliation's summary as a step's.
abbrev pub as_step : Evidence → StepEvidence
as_step = map lift_field
