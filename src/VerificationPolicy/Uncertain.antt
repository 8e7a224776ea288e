-- ===== src/VerificationPolicy/Uncertain.antt =====
-- verificationPolicy.ts: the outputs when the window has passed.
use agentskeptic.Prelude.{ℕ, Option, some, List, [], ◌∷◌, ◌++◌, map, if◌then◌else◌}
use agentskeptic.Prelude.Sort.{sort}
use agentskeptic.Js.{Number, text, nat, number_le}
use agentskeptic.WireReasonCodes.{SqlVerificationOutcomeCode}
use agentskeptic.Types.{
  VerificationRequest, RowAbsentVerificationRequest, ResolvedEffect, ResolvedRelationalCheck,
  StateWitnessRequest, StepVerificationRequest, uncertain, Reason, VerificationPolicy,
  verification_window_ms, poll_interval_ms,
}
use agentskeptic.Types.Evidence.{
  Key, EvidenceValue, EffectRow, StepField, StepEvidence, evidence_get,
}
use agentskeptic.Reconciler.{ReconcileOutput, because}
use agentskeptic.MultiEffectRollup.{
  PolicyExecutionOutput, effect_rows, effects_request, input_le, CheckInput, check_row, check_le,
  rollup_evidence, sorted_ids,
}
use agentskeptic.VerificationPolicy.Classify.{to_effect_inputs}

-- `{ attempts, elapsedMs, verificationWindowMs, pollIntervalMs }`.
abbrev window_evidence : ℕ → Number → VerificationPolicy → StepEvidence
window_evidence attempts elapsed policy =
    (Key.attempts, StepField.leaf (EvidenceValue.number (nat attempts)))
    ∷ (Key.elapsed_ms, StepField.leaf (EvidenceValue.number elapsed))
    ∷ (
      Key.verification_window_ms,
      StepField.leaf (EvidenceValue.number (verification_window_ms policy)),
    )
    ∷ (Key.poll_interval_ms, StepField.leaf (EvidenceValue.number (poll_interval_ms policy)))
    ∷ []

abbrev uncertain_because : StepVerificationRequest → Reason → StepEvidence → PolicyExecutionOutput
uncertain_because request reason e = record {
  verification_request = request;
  status = uncertain;
  reasons = reason ∷ [];
  evidence = e;
}

abbrev not_observed : Reason
not_observed = because SqlVerificationOutcomeCode.row_not_observed_within_window (
    text
      "No row matched the key within the verification window; replication or processing delay is possible.")

-- What each of the builders takes after what was checked.
abbrev pub Expiry : Type 0
Expiry = ℕ → Number → VerificationPolicy → PolicyExecutionOutput

unfoldable pub build_uncertain_sql_row : VerificationRequest → Expiry
build_uncertain_sql_row request attempts elapsed policy =
    uncertain_because (StepVerificationRequest.sql_row request) not_observed
      (window_evidence attempts elapsed policy)

-- `typeof mc === "number" && mc >= 1 ? mc : 1`.
abbrev matched_or_one : Option EvidenceValue → Number
matched_or_one (some (EvidenceValue.number n)) = if number_le (nat 1) n then n else nat 1
matched_or_one _ = nat 1

-- `Array.isArray(sr) ? sr : []`.
abbrev rows_or_none : Option EvidenceValue → EvidenceValue
rows_or_none (some (EvidenceValue.rows rows)) = EvidenceValue.rows rows
rows_or_none (some (EvidenceValue.strings ts)) = EvidenceValue.strings ts
rows_or_none _ = EvidenceValue.rows []

unfoldable pub build_uncertain_sql_row_absent :
    RowAbsentVerificationRequest → ReconcileOutput → Expiry
unfolding evidence_get
build_uncertain_sql_row_absent request last attempts elapsed policy =
    uncertain_because (StepVerificationRequest.sql_row_absent request)
      (because SqlVerificationOutcomeCode.forbidden_rows_still_present_within_window (
        text
          "Forbidden row(s) still present within the verification window; replication or processing delay is possible."))
      (window_evidence attempts elapsed policy
        ++ (
          Key.matched_row_count,
          StepField.leaf (
              EvidenceValue.number
                (matched_or_one (evidence_get Key.matched_row_count last.evidence))),
        )
          ∷ (
            Key.sample_rows,
            StepField.leaf (rows_or_none (evidence_get Key.sample_rows last.evidence)),
          )
          ∷ [])

not_all_observed : List EffectRow → Reason
not_all_observed rows = because SqlVerificationOutcomeCode.multi_effect_uncertain_within_window (
    text
      "Not all effects were observable within the verification window; replication or processing delay is possible (effects: "
    ++ sorted_ids rows
    ++ text ").")

unfoldable pub build_uncertain_sql_effects : List (ResolvedEffect × ReconcileOutput) → Expiry
unfolding not_all_observed
build_uncertain_sql_effects pairs attempts elapsed policy =
    let inputs = sort input_le (to_effect_inputs pairs) in
    uncertain_because (effects_request inputs) (not_all_observed (effect_rows inputs))
      (rollup_evidence (effect_rows inputs) (window_evidence attempts elapsed policy))

unfoldable pub build_uncertain_sql_relational : List CheckInput → Expiry
unfolding not_all_observed
build_uncertain_sql_relational pairs attempts elapsed policy =
    let sorted = sort check_le pairs in
    uncertain_because (StepVerificationRequest.sql_relational (map (λ p. p.0) sorted))
      (not_all_observed (map check_row sorted))
      (rollup_evidence (map check_row sorted) (window_evidence attempts elapsed policy))

unfoldable pub build_uncertain_sql_relational_single : ResolvedRelationalCheck → Expiry
build_uncertain_sql_relational_single check attempts elapsed policy =
    uncertain_because (StepVerificationRequest.sql_relational (check ∷ [])) not_observed
      (window_evidence attempts elapsed policy)

unfoldable pub build_uncertain_state_witness : StateWitnessRequest → Expiry
build_uncertain_state_witness request attempts elapsed policy =
    uncertain_because (StepVerificationRequest.state_witness request)
      (because SqlVerificationOutcomeCode.row_not_observed_within_window (
        text
          "Expected state was not observed within the verification window; replication or processing delay is possible."))
      (window_evidence attempts elapsed policy)
