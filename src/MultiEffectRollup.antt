-- ===== src/MultiEffectRollup.antt =====
-- multiEffectRollup.ts: one status for several checks of a step.
pub mod Status
pub mod Order
use agentskeptic.Prelude.{
  ℕ, ◌+◌, Bool, true, false, not, ◌&&◌, ◌||◌, Option, none, some, List, [], ◌∷◌, ◌++◌, map, length,
  keep, any, is_empty, ◌==◌, if◌then◌else◌,
}
use agentskeptic.Prelude.Sort.{sort}
use agentskeptic.Js.{Text, Runtime, text, nat, join}
use agentskeptic.WireReasonCodes.{SqlVerificationOutcomeCode, code_text}
use agentskeptic.Types.{
  Scalar, IdentityEqPair, VerificationRequest, ResolvedEffect, ResolvedRelationalCheck, check_id,
  EffectPayload, StepVerificationRequest, StepStatus, verified, missing, inconsistent,
  incomplete_verification, partially_verified, uncertain, Reason,
}
use agentskeptic.Types.Evidence.{Key, EvidenceValue, Evidence, EffectRow, StepField, StepEvidence}
use agentskeptic.FailureCatalog.{format_operational_message}
use agentskeptic.Reconciler.{ReconcileOutput, because, utf16_le}

-- What the policy executor and the rollups return: `PolicyExecutionOutput`,
-- `MultiEffectRollupOutput` and `SqlRelationalRollupOutput` have the same fields.
pub record PolicyExecutionOutput : Type 0 where
  pub verification_request : StepVerificationRequest
  pub status : StepStatus
  pub reasons : List Reason
  pub evidence : StepEvidence

abbrev pub is_incomplete : EffectRow → Bool
is_incomplete r = elim r.status [
  | verified ↦ false
  | missing ↦ false
  | inconsistent ↦ false
  | incomplete_verification ↦ true
  | partially_verified ↦ false
  | uncertain ↦ false
]

abbrev pub is_verified_row : EffectRow → Bool
is_verified_row r = elim r.status [
  | verified ↦ true
  | missing ↦ false
  | inconsistent ↦ false
  | incomplete_verification ↦ false
  | partially_verified ↦ false
  | uncertain ↦ false
]

-- `e.status === "missing" || e.status === "inconsistent"`.
abbrev pub is_bad : EffectRow → Bool
is_bad r = elim r.status [
  | verified ↦ false
  | missing ↦ true
  | inconsistent ↦ true
  | incomplete_verification ↦ false
  | partially_verified ↦ false
  | uncertain ↦ false
]

-- The order by `compareUtf16Id` of the ids.
abbrev pub row_le : EffectRow → EffectRow → Bool
row_le a b = utf16_le a.id b.id

abbrev pub sorted_ids : List EffectRow → Text
sorted_ids rows = join (text ", ") (sort utf16_le (map (λ r. r.id) rows))

-- `e.reasons[0]?.code ?? "UNKNOWN"`.
abbrev first_code : List Reason → Text
first_code [] = text "UNKNOWN"
first_code (r ∷ rs) = code_text r.code

unfoldable pub format_per_effect_failure_codes : List EffectRow → Text
format_per_effect_failure_codes rows = join (text "; ") (
    map (λ (r : EffectRow). r.id ++ text " (" ++ first_code r.reasons ++ text ")")
      (sort row_le rows))

-- `{ effectCount, effects }`, to which the policy executor adds fields.
abbrev pub rollup_evidence : List EffectRow → StepEvidence → StepEvidence
rollup_evidence rows more =
    (Key.effect_count, StepField.leaf (EvidenceValue.number (nat (length rows))))
    ∷ (Key.effects, StepField.effects rows)
    ∷ more

module _ (js : Runtime) where
  incomplete_reason : List EffectRow → Reason
  incomplete_reason rows =
      because SqlVerificationOutcomeCode.multi_effect_incomplete
        (text "Incomplete verification for effects: " ++ sorted_ids rows)

  all_failed_reason : List EffectRow → Reason
  all_failed_reason rows = because SqlVerificationOutcomeCode.multi_effect_all_failed (
      format_operational_message (
        text "All "
        ++ js.number_text (nat (length rows))
        ++ text " effects failed: "
        ++ sorted_ids rows
        ++ text ". Per effect: "
        ++ format_per_effect_failure_codes rows))

  partial_reason : List EffectRow → List EffectRow → List EffectRow → Reason
  partial_reason rows passed bad = because SqlVerificationOutcomeCode.multi_effect_partial (
      format_operational_message (
        text "Verified "
        ++ js.number_text (nat (length passed))
        ++ text " of "
        ++ js.number_text (nat (length rows))
        ++ text " effects; not verified: "
        ++ sorted_ids bad
        ++ text ". Per effect: "
        ++ format_per_effect_failure_codes bad))

  unfoldable pub compute_multi_check_rollup_status : List EffectRow → StepStatus × List Reason
  unfolding incomplete_reason all_failed_reason partial_reason
  compute_multi_check_rollup_status rows =
      let incomplete = keep is_incomplete rows in
      let passed = keep is_verified_row rows in
      if not (is_empty incomplete)
      then (incomplete_verification, incomplete_reason incomplete ∷ [])
      else if length passed == length rows
      then (verified, [])
      else if length passed == 0
      then (inconsistent, all_failed_reason rows ∷ [])
      else (partially_verified, partial_reason rows passed (keep is_bad rows) ∷ [])

  abbrev pub rolled_up : StepVerificationRequest → List EffectRow → PolicyExecutionOutput
  rolled_up request rows =
      let (s, rs) = compute_multi_check_rollup_status rows in
      record {
        verification_request = request;
        status = s;
        reasons = rs;
        evidence = rollup_evidence rows [];
      }

-- The rows that `buildRollup` takes: an effect with its request's fields and its reconciliation.
pub record EffectInput : Type 0 where
  pub payload : EffectPayload
  pub row : EffectRow

abbrev pub input_le : EffectInput → EffectInput → Bool
input_le a b = utf16_le a.row.id b.row.id

abbrev pub effect_input : ResolvedEffect → ReconcileOutput → EffectInput
effect_input e rec = record {
  payload = record {
    id = e.id;
    table = e.request.table;
    identity_eq = e.request.identity_eq;
    required_fields = e.request.required_fields;
  };
  row = record { id = e.id; status = rec.status; reasons = rec.reasons; evidence = rec.evidence };
}

abbrev pub effect_rows : List EffectInput → List EffectRow
effect_rows = map (λ i. i.row)

abbrev pub effects_request : List EffectInput → StepVerificationRequest
effects_request inputs = StepVerificationRequest.sql_effects (map (λ i. i.payload) inputs)

unfoldable pub build_rollup : Runtime → List EffectInput → PolicyExecutionOutput
build_rollup js inputs = rolled_up js (effects_request inputs) (effect_rows inputs)

unfoldable pub rollup_multi_effects_from_reconciled_rows :
    Runtime → List EffectInput → PolicyExecutionOutput
unfolding build_rollup
rollup_multi_effects_from_reconciled_rows js inputs = build_rollup js (sort input_le inputs)

unfoldable pub rollup_multi_effects_sync :
    Runtime → (VerificationRequest → ReconcileOutput) → List ResolvedEffect → PolicyExecutionOutput
unfolding build_rollup
rollup_multi_effects_sync js reconcile effects =
    build_rollup js
      (sort input_le (map (λ (e : ResolvedEffect). effect_input e (reconcile e.request)) effects))

-- A relational check with its reconciliation.
abbrev pub CheckInput : Type 0
CheckInput = ResolvedRelationalCheck × ReconcileOutput

abbrev pub check_le : CheckInput → CheckInput → Bool
check_le a b = utf16_le (check_id a.0) (check_id b.0)

abbrev pub check_row : CheckInput → EffectRow
check_row (c, rec) = record {
  id = check_id c;
  status = rec.status;
  reasons = rec.reasons;
  evidence = rec.evidence;
}

unfoldable pub rollup_sql_relational_from_reconciled :
    Runtime → List CheckInput → PolicyExecutionOutput
rollup_sql_relational_from_reconciled js pairs =
    let sorted = sort check_le pairs in
    rolled_up js (StepVerificationRequest.sql_relational (map (λ p. p.0) sorted))
      (map check_row sorted)
