-- ===== src/VerificationDiagnostics/Classified.antt =====
-- The outputs of the reconcilers can be classified, so that classification does not throw on them.
use agentskeptic.Prelude.{
  ◌≡◌, refl, Bool, true, false, Option, none, some, List, [], ◌∷◌, arith, Option-cases, inl, inr,
}
use agentskeptic.Js.{Text, Value, Row, Runtime, row_get}
use agentskeptic.WireReasonCodes.{is_outcome, is_resolve_failure}
use agentskeptic.Types.{Scalar, VerificationRequest, StepStatus, Reason}
use agentskeptic.Types.Evidence.{EffectRow}
use agentskeptic.ValueVerification.{verification_scalars_equal}
use agentskeptic.Reconciler.Rows.{
  ReconcileOutput, Answer, returned, thrown, check_field, check_fields, found_field,
  reconcile_from_rows, compared, settle_rows, connector_error,
}
use agentskeptic.MultiEffectRollup.{compute_multi_check_rollup_status}
use agentskeptic.VerificationDiagnostics.{
  Diagnosis, omitted, given, unreachable, failure_diagnostic_for_step,
  failure_diagnostic_for_incomplete_verification,
}

abbrev pub is_classified : Diagnosis → Bool
is_classified omitted = true
is_classified (given d) = true
is_classified unreachable = false

abbrev pub Classified : StepStatus → List Reason → Type 0
Classified s rs = is_classified (failure_diagnostic_for_step s rs) ≡ true

abbrev pub Output : ReconcileOutput → Type 0
Output out = Classified out.status out.reasons

module _ (js : Runtime) where
  check_field-Classified :
      (ctx : Text) (row : Row) (f : Text × Scalar) {out : ReconcileOutput}
      → check_field js ctx row f ≡ some out
      → Output out
  unfolding check_field failure_diagnostic_for_step failure_diagnostic_for_incomplete_verification
      is_outcome is_resolve_failure
  check_field-Classified ctx row (k, e) {out} h = found (row_get (js.to_lower k) row) h
    where
      compare_classified :
          (a : Value)
          → compared js k ctx (verification_scalars_equal js e a) ≡ some out
          → Output out
      compare_classified a g = ground arith

      found : (o : Option Value) → found_field js ctx row k e o ≡ some out → Output out
      found none g = ground arith
      found (some a) g = ground (arith, compare_classified a)

  check_fields-Classified :
      (ctx : Text) (row : Row) (fs : List (Text × Scalar)) → Output (check_fields js ctx row fs)
  unfolding check_fields failure_diagnostic_for_step
  check_fields-Classified ctx row [] = refl
  check_fields-Classified ctx row (f ∷ fs) = elim (Option-cases (check_field js ctx row f)) [
    | inl e ↦ rw (e, check_fields) (check_fields-Classified ctx row fs)
    | inr (out, e) ↦ rw (e, check_fields) (check_field-Classified ctx row f e)
  ]

  pub rollup-Classified :
      (rows : List EffectRow)
      → let (s, rs) = compute_multi_check_rollup_status js rows in Classified s rs
  unfolding compute_multi_check_rollup_status failure_diagnostic_for_step
      failure_diagnostic_for_incomplete_verification is_outcome is_resolve_failure
  rollup-Classified rows = ground arith

  pub settle_rows-Classified :
      (req : VerificationRequest) (a : Answer) → Output (settle_rows js req a)
  unfolding reconcile_from_rows connector_error failure_diagnostic_for_step
      failure_diagnostic_for_incomplete_verification is_outcome is_resolve_failure
  settle_rows-Classified req (returned []) = refl
  settle_rows-Classified req (returned (row ∷ [])) = check_fields-Classified _ _ _
  settle_rows-Classified req (returned (r ∷ s ∷ rows)) = refl
  settle_rows-Classified req (thrown m) = refl
