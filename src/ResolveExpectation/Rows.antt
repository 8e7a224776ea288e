-- ===== src/ResolveExpectation/Rows.antt =====
-- resolveExpectation.ts: equality lists, rows and rows that must be absent.
use agentskeptic.Prelude.{ℕ, ◌+◌, Bool, Option, none, some, List, [], ◌∷◌, ◌++◌, any, if◌then◌else◌}
use agentskeptic.Prelude.Sort.{sort}
use agentskeptic.Js.{Text, Runtime, text, text_eq, nat}
use agentskeptic.Js.Json.{
  Json, Fields, undefined, null, boolean, number, string, array, object, other, no_fields, field,
}
use agentskeptic.WireReasonCodes.{RegistryResolverCode}
use agentskeptic.Types.{Scalar, IdentityEqPair, VerificationRequest, RowAbsentVerificationRequest}
use agentskeptic.Types.Registry.{
  RegistryEqualityPair, SqlRowVerificationSpec, SqlRowAbsentVerificationSpec,
}
use agentskeptic.JsonPointer.{get_pointer}
use agentskeptic.Reconciler.{utf16_le}
use agentskeptic.ResolveExpectation.Outcome.{Outcome, ok, refused, thrown, ◌>>=◌}
use agentskeptic.ResolveExpectation.Specs.{
  is_ident, resolve_column, resolve_table_ident, resolve_key_value,
}

abbrev pub column_le : IdentityEqPair → IdentityEqPair → Bool
column_le a b = utf16_le a.column b.column

-- The loop over neighbours: the first column that is that of its predecessor.
unfoldable pub first_repeated : List IdentityEqPair → Option Text
first_repeated [] = none
first_repeated (a ∷ []) = none
first_repeated (a ∷ b ∷ pairs) =
    let rest = first_repeated (b ∷ pairs) in
    if text_eq b.column a.column then some b.column else rest

abbrev pub unless_repeated :
    Text → List IdentityEqPair → Option Text → Outcome (List IdentityEqPair)
unless_repeated label sorted none = ok sorted
unless_repeated label sorted (some column) =
    refused RegistryResolverCode.equality_duplicate_column
      (label ++ text "duplicate equality column: " ++ column)

unfoldable pub normalize_sorted_identity_eq :
    Text → List IdentityEqPair → Outcome (List IdentityEqPair)
unfolding first_repeated
normalize_sorted_identity_eq label pairs =
    let sorted = sort column_le pairs in unless_repeated label sorted (first_repeated sorted)

-- `if (!valRes.ok) return { …, message: label + valRes.message }`.
abbrev pub relabelled {ℓ} : {A : Type ℓ} → Text → Outcome A → Outcome A
relabelled label (ok a) = ok a
relabelled label (refused code message) = refused code (label ++ message)
relabelled label (thrown message) = thrown message

abbrev pub list_or_empty {ℓ} : {A : Type ℓ} → Option (List A) → List A
list_or_empty none = []
list_or_empty (some xs) = xs

abbrev pub proto : Text
proto = text "__proto__"

module _ (js : Runtime) (params : Json) where
  -- `name[i]`.
  abbrev pub indexed : Text → ℕ → Text
  indexed name i = name ++ text "[" ++ js.number_text (nat i) ++ text "]"

  -- A round of the loops over pairs: the column, a test of it, and its value.
  unfoldable pub resolve_pair :
      (Text → Outcome Text) → Text → RegistryEqualityPair → Outcome IdentityEqPair
  resolve_pair test label p = do
    column ← resolve_column js params (label ++ text ".column") p.column
    tested ← test column
    value ← relabelled (label ++ text ". ") (resolve_key_value js params p.value)
    ok (record { column = tested; value = value })

  -- The loops from index `i` on.
  unfoldable pub resolve_pairs :
      (Text → Outcome Text) → Text → ℕ → List RegistryEqualityPair → Outcome (List IdentityEqPair)
  unfolding resolve_pair
  resolve_pairs test name i [] = ok []
  resolve_pairs test name i (p ∷ ps) = do
    pair ← resolve_pair test (indexed name i) p
    rest ← resolve_pairs test name (i + 1) ps
    ok (pair ∷ rest)

  unfoldable pub resolve_registry_equality_list :
      Text → List RegistryEqualityPair → Outcome (List IdentityEqPair)
  unfolding resolve_pairs
  resolve_registry_equality_list label specs = do
    raw ← resolve_pairs ok (label ++ text "identityEq") 0 specs
    normalize_sorted_identity_eq label raw

  -- A value of `requiredFields` or of metadata: a scalar.
  abbrev pub field_scalar : Text → Text → Json → Outcome Scalar
  field_scalar name wrong undefined =
      refused RegistryResolverCode.required_fields_value_undefined
        (name ++ text " must not be undefined")
  field_scalar name wrong null = ok Scalar.null
  field_scalar name wrong (boolean b) = ok (Scalar.boolean b)
  field_scalar name wrong (number n) = ok (Scalar.number n)
  field_scalar name wrong (string s) = ok (Scalar.string s)
  field_scalar name wrong (array xs) =
      refused RegistryResolverCode.required_fields_value_not_scalar (name ++ wrong)
  field_scalar name wrong (object fs) =
      refused RegistryResolverCode.required_fields_value_not_scalar (name ++ wrong)
  field_scalar name wrong (other kind shown) =
      refused RegistryResolverCode.required_fields_value_not_scalar (name ++ wrong)

  -- `record[key] = value` on a plain object: a scalar under the key `__proto__` makes no field.
  abbrev pub assigned : Text → Scalar → List (Text × Scalar) → List (Text × Scalar)
  assigned key value rest = if text_eq key proto then rest else (key, value) ∷ rest

  -- The loop over the fields of an object; `test` is the test of a key.
  unfoldable pub scalar_fields :
      (Text → Outcome Text) → Text → Text → Fields → Outcome (List (Text × Scalar))
  scalar_fields test name wrong no_fields = ok []
  scalar_fields test name wrong (field k v fs) = do
    key ← test k
    value ← field_scalar (name ++ text "." ++ k) wrong v
    rest ← scalar_fields test name wrong fs
    ok (assigned key value rest)

  -- `getPointer(params, pointer)`, which must be an object.
  abbrev pub object_found : Text → Text → Json → Outcome Fields
  object_found name ptr undefined =
      refused RegistryResolverCode.required_fields_pointer_missing
        (name ++ text " missing at " ++ ptr)
  object_found name ptr null =
      refused RegistryResolverCode.required_fields_pointer_missing
        (name ++ text " missing at " ++ ptr)
  object_found name ptr (object fs) = ok fs
  object_found name ptr _ =
      refused RegistryResolverCode.required_fields_not_object
        (name ++ text " must be object at " ++ ptr)

  unfoldable pub object_at : Text → Text → Outcome Fields
  object_at name ptr = do got ← get_pointer js params ptr; object_found name ptr got

  abbrev pub check_key : Text → Text → Outcome Text
  check_key label k =
      if is_ident k
      then ok k
      else refused RegistryResolverCode.invalid_identifier
          (label ++ text "requiredFields key: " ++ k)

  abbrev pub not_scalar : Text
  not_scalar = text " must be string, number, boolean, or null"

  unfoldable pub resolve_sql_row_spec : Text → SqlRowVerificationSpec → Outcome VerificationRequest
  unfolding resolve_registry_equality_list scalar_fields object_at
  resolve_sql_row_spec label spec = do
    table ← resolve_table_ident js params (label ++ text "table") spec.table
    identity ← resolve_registry_equality_list label spec.identity_eq
    raw ← object_at (label ++ text "requiredFields") spec.required_fields
    fields ← scalar_fields (check_key label) (label ++ text "requiredFields") not_scalar raw
    ok (record { table = table; identity_eq = identity; required_fields = fields })

  -- The test that a filter column is not an identity column.
  abbrev pub not_identity : Text → List IdentityEqPair → Text → Outcome Text
  not_identity label identity column =
      if any (λ (p : IdentityEqPair). text_eq p.column column) identity
      then refused RegistryResolverCode.filter_eq_overlaps_identity
          (label ++ text "filterEq column " ++ column ++ text " duplicates identityEq")
      else ok column

  unfoldable pub resolve_sql_row_absent_spec :
      Text → SqlRowAbsentVerificationSpec → Outcome RowAbsentVerificationRequest
  unfolding resolve_registry_equality_list resolve_pairs
  resolve_sql_row_absent_spec label spec = do
    table ← resolve_table_ident js params (label ++ text "table") spec.table
    identity ← resolve_registry_equality_list label spec.identity_eq
    raw ←
        resolve_pairs (not_identity label identity) (label ++ text "filterEq") 0
          (list_or_empty spec.filter_eq)
    filters ← normalize_sorted_identity_eq (label ++ text "filterEq: ") raw
    ok (record { table = table; identity_eq = identity; filter_eq = filters })
