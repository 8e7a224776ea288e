-- ===== src/Reconciler/Outcome.antt =====
-- What every reconciliation output has: reasons exactly when it is not verified, and a status that a
-- single check can have.
use agentskeptic.Prelude.{
  ◌≡◌, ◌↔◌, refl, Bool, true, false, not, ◌&&◌, Option, none, some, List, [], ◌∷◌, map, arith,
  is_empty, if◌then◌else◌, Option-cases, inl, inr,
}
use agentskeptic.Js.{Text, Value, Row, Runtime, row_get}
use agentskeptic.Types.{
  Scalar, VerificationRequest, StepStatus, verified, missing, inconsistent, incomplete_verification,
  partially_verified, uncertain, Reason,
}
use agentskeptic.ValueVerification.{verification_scalars_equal}
use agentskeptic.Reconciler.Rows.{
  ReconcileOutput, Answer, returned, thrown, check_field, check_fields, found_field,
  reconcile_from_rows, reconcile_sql_row, settle_rows, compared, lower_keys, connector_error,
}
use agentskeptic.Reconciler.Absent.{row_present}

abbrev pub is_verified : StepStatus → Bool
is_verified verified = true
is_verified _ = false

abbrev pub is_missing : StepStatus → Bool
is_missing missing = true
is_missing _ = false

pub is_verified_iff : (s : StepStatus) → (is_verified s ≡ true) ↔ (s ≡ verified)
is_verified_iff verified = ground arith
is_verified_iff _ = ground arith

pub is_missing_iff : (s : StepStatus) → (is_missing s ≡ true) ↔ (s ≡ missing)
is_missing_iff missing = ground arith
is_missing_iff _ = ground arith

-- Reasons are given exactly when the status is not `verified`.
abbrev pub is_explained : StepStatus → List Reason → Bool
is_explained s rs = if is_verified s then is_empty rs else not (is_empty rs)

-- The statuses of one reconciliation.
abbrev pub is_single : StepStatus → Bool
is_single verified = true
is_single missing = true
is_single inconsistent = true
is_single incomplete_verification = true
is_single partially_verified = false
is_single uncertain = false

abbrev pub is_proper : ReconcileOutput → Bool
is_proper out = is_explained out.status out.reasons && is_single out.status

module _ (js : Runtime) where
  pub check_field-proper :
      (ctx : Text) (row : Row) (f : Text × Scalar) {out : ReconcileOutput}
      → check_field js ctx row f ≡ some out
      → (is_proper out ≡ true) × (is_verified out.status ≡ false) × (is_missing out.status ≡ false)
  unfolding check_field
  check_field-proper ctx row (k, e) {out} h = found (row_get (js.to_lower k) row) h
    where
      compare_proper :
          (a : Value)
          → compared js k ctx (verification_scalars_equal js e a) ≡ some out
          → (is_proper out ≡ true)
            × (is_verified out.status ≡ false)
            × (is_missing out.status ≡ false)
      compare_proper a g = ground arith

      found :
          (o : Option Value)
          → found_field js ctx row k e o ≡ some out
          → (is_proper out ≡ true)
            × (is_verified out.status ≡ false)
            × (is_missing out.status ≡ false)
      found none g = ground arith
      found (some a) g = ground (arith, compare_proper a)

  check_fields-proper :
      (ctx : Text) (row : Row) (fs : List (Text × Scalar))
      → is_proper (check_fields js ctx row fs) ≡ true
  unfolding check_fields
  check_fields-proper ctx row [] = refl
  check_fields-proper ctx row (f ∷ fs) = elim (Option-cases (check_field js ctx row f)) [
    | inl e ↦ rw (e, check_fields) (check_fields-proper ctx row fs)
    | inr (out, e) ↦ rw (e, check_fields) (check_field-proper ctx row f e).0
  ]

  from_rows-proper :
      (rows : List Row) (req : VerificationRequest)
      → is_proper (reconcile_from_rows js rows req) ≡ true
  unfolding reconcile_from_rows
  from_rows-proper [] req = refl
  from_rows-proper (row ∷ []) req = check_fields-proper _ row _
  from_rows-proper (r ∷ s ∷ rows) req = refl

  settle-proper : (req : VerificationRequest) (a : Answer) → is_proper (settle_rows js req a) ≡ true
  unfolding connector_error
  settle-proper req (returned rows) = from_rows-proper (map (lower_keys js) rows) req
  settle-proper req (thrown m) = refl

  row_present-proper : (ctx : Text) (n : _) (a : Answer) → is_proper (row_present js ctx n a) ≡ true
  unfolding row_present
  row_present-proper ctx n (returned rows) = refl
  row_present-proper ctx n (thrown m) = refl

-- Whatever the database answers, a row check gives reasons exactly when its status is not verified,
-- and the status is never partially verified or uncertain.
pub sql_row-proper :
    (js : Runtime) (all : Text → List Text → Answer) (req : VerificationRequest)
    → is_proper (reconcile_sql_row js all req) ≡ true
unfolding reconcile_sql_row
sql_row-proper js all req = settle-proper js req _
