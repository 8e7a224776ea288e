-- ===== src/Reconciler/Verified.antt =====
-- When a row check passes.
use agentskeptic.Prelude.{
  ◌≡◌, ◌↔◌, refl, Bool, true, false, not, ◌&&◌, Option, none, some, List, [], ◌∷◌, all, arith,
  Option-cases, inl, inr, sym, ◌∙◌,
}
use mathlib.Core.Bool.{false≢true}
use agentskeptic.Prelude.Sort.{sort, all-sort}
use agentskeptic.Js.{Text, Value, Row, Runtime, row_get}
use agentskeptic.Types.{Scalar, VerificationRequest, verified, missing}
use agentskeptic.ValueVerification.{
  VerificationCompareResult, ok, mismatch, verification_scalars_equal,
}
use agentskeptic.Reconciler.Outcome.{
  is_verified, is_missing, is_verified_iff, is_missing_iff, check_field-proper,
}
use agentskeptic.Reconciler.Rows.{
  Answer, returned, thrown, field_le, is_non_scalar, check_field, check_fields, found_field,
  reconcile_from_rows, lower_keys, reconcile_sql_row, build_select_by_identity_sql_sqlite,
  settle_rows, row_key_context, connector_error,
}

abbrev is_ok : VerificationCompareResult → Bool
is_ok ok = true
is_ok (mismatch e a) = false

module _ (js : Runtime) where
  abbrev value_holds : Scalar → Option Value → Bool
  value_holds e none = false
  value_holds e (some a) = not (is_non_scalar a) && is_ok (verification_scalars_equal js e a)

  -- The row has the field, in lower case, with a scalar that the comparison accepts.
  abbrev pub field_holds : Row → Text × Scalar → Bool
  field_holds row (k, e) = value_holds e (row_get (js.to_lower k) row)

  check_field-none :
      (ctx : Text) (row : Row) (f : Text × Scalar)
      → (check_field js ctx row f ≡ none) ↔ (field_holds row f ≡ true)
  unfolding check_field
  check_field-none ctx row (k, e) = found (row_get (js.to_lower k) row)
    where
      found : (o : Option Value) → (found_field js ctx row k e o ≡ none) ↔ (value_holds e o ≡ true)
      found none = ground arith
      found (some a) = ground arith

  check_fields-verified :
      (ctx : Text) (row : Row) (fs : List (Text × Scalar))
      → (is_verified (check_fields js ctx row fs).status ≡ true) ↔ (all (field_holds row) fs ≡ true)
  unfolding check_fields
  check_fields-verified ctx row [] = (λ h. refl, λ h. refl)
  check_fields-verified ctx row (f ∷ fs) = elim (Option-cases (check_field js ctx row f)) [
    | inl e ↦
        let holds = (check_field-none ctx row f).0 e in
        rw (e, check_fields, holds) (check_fields-verified ctx row fs)
    | inr (out, e) ↦
        let bad = (check_field-proper js ctx row f e).1 in
        rw (e, check_fields) (ground (arith, check_field-none ctx row f))
  ]

  check_fields-not_missing :
      (ctx : Text) (row : Row) (fs : List (Text × Scalar))
      → is_missing (check_fields js ctx row fs).status ≡ false
  unfolding check_fields
  check_fields-not_missing ctx row [] = refl
  check_fields-not_missing ctx row (f ∷ fs) = elim (Option-cases (check_field js ctx row f)) [
    | inl e ↦ rw (e, check_fields) (check_fields-not_missing ctx row fs)
    | inr (out, e) ↦ rw (e, check_fields) (check_field-proper js ctx row f e).2
  ]

  -- What a passing answer is.
  abbrev pub Confirms : VerificationRequest → Answer → Type 0
  Confirms req answer =
      (row : Row) × (answer ≡ returned (row ∷ []))
      × (all (field_holds (lower_keys js row)) req.required_fields ≡ true)

  settle-verified :
      (req : VerificationRequest) (a : Answer)
      → ((settle_rows js req a).status ≡ verified) ↔ Confirms req a
  unfolding reconcile_from_rows connector_error
  settle-verified req (returned []) = (λ h. cc, λ (row, e, h). cc)
  settle-verified req (returned (row ∷ [])) =
      let (to, from) =
        check_fields-verified (row_key_context req) (lower_keys js row)
          (sort (field_le js) req.required_fields) in
      let same = all-sort (field_le js) (field_holds (lower_keys js row)) req.required_fields in
      (
        λ h. (row, refl, sym same ∙ to ((is_verified_iff _).1 h)),
        λ (r, e, h). let p : row ≡ r = cc in (is_verified_iff _).0 (from (same ∙ rw p h)),
      )
  settle-verified req (returned (r ∷ s ∷ rows)) = (λ h. cc, λ (row, e, h). cc)
  settle-verified req (thrown m) = (λ h. cc, λ (row, e, h). cc)

  settle-missing :
      (req : VerificationRequest) (a : Answer)
      → ((settle_rows js req a).status ≡ missing) ↔ (a ≡ returned [])
  unfolding reconcile_from_rows connector_error
  settle-missing req (returned []) = (λ h. refl, λ h. refl)
  settle-missing req (returned (row ∷ [])) =
      let never =
        check_fields-not_missing (row_key_context req) (lower_keys js row)
          (sort (field_le js) req.required_fields) in
      (λ h. absurd (false≢true (sym never ∙ (is_missing_iff _).1 h)), λ h. cc)
  settle-missing req (returned (r ∷ s ∷ rows)) = (λ h. cc, λ h. cc)
  settle-missing req (thrown m) = (λ h. cc, λ h. cc)

  -- The answer to the statement that the row check sends.
  abbrev pub answer_of : (Text → List Text → Answer) → VerificationRequest → Answer
  answer_of query req = let sent = build_select_by_identity_sql_sqlite js req in query sent.0 sent.1

-- A row check passes exactly when its statement returns a single row in which every required field is
-- present under its lower-cased name, as a scalar that the comparison accepts; and it reports a
-- missing row exactly when the statement returns no row.
pub sql_row-verified_iff :
    (js : Runtime) (query : Text → List Text → Answer) (req : VerificationRequest)
    → (((reconcile_sql_row js query req).status ≡ verified)
        ↔ Confirms js req (answer_of js query req))
      × (((reconcile_sql_row js query req).status ≡ missing)
          ↔ (answer_of js query req ≡ returned []))
unfolding reconcile_sql_row
sql_row-verified_iff js query req = (settle-verified js req _, settle-missing js req _)
