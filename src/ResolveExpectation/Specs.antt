-- ===== src/ResolveExpectation/Specs.antt =====
-- resolveExpectation.ts: strings, identifiers, key values, numbers and scalars of a spec.
use agentskeptic.Prelude.{
  ℕ, Bool, true, false, not, ◌&&◌, ◌||◌, [], ◌∷◌, ◌++◌, all, ltb, ◌==◌, if◌then◌else◌,
}
use agentskeptic.Js.{Text, Number, Runtime, text, is_finite}
use agentskeptic.Js.Json.{Json, undefined, null, boolean, number, string, array, object, other}
use agentskeptic.WireReasonCodes.{RegistryResolverCode}
use agentskeptic.Types.{Scalar}
use agentskeptic.Types.Registry.{
  RegistryStringSpec, RegistryScalarSpec, RegistryNumberOrPointerSpec,
}
use agentskeptic.JsonPointer.{get_pointer}
use agentskeptic.ResolveExpectation.Outcome.{Outcome, ok, refused, ◌>>=◌}

abbrev pub is_letter : ℕ → Bool
is_letter c = (not (ltb c 97) && not (ltb 122 c)) || (not (ltb c 65) && not (ltb 90 c)) || c == 95

abbrev pub is_word : ℕ → Bool
is_word c = is_letter c || (not (ltb c 48) && not (ltb 57 c))

-- `IDENT`: `/^[a-zA-Z_][a-zA-Z0-9_]*$/`.
unfoldable pub is_ident : Text → Bool
is_ident [] = false
is_ident (c ∷ s) = is_letter c && all is_word s

abbrev pub boolean_text : Bool → Text
boolean_text true = text "true"
boolean_text false = text "false"

module _ (js : Runtime) (params : Json) where
  abbrev pub non_empty_string : Text → Text → Json → Outcome Text
  non_empty_string label ptr undefined =
      refused RegistryResolverCode.string_spec_pointer_missing
        (label ++ text ": missing at " ++ ptr)
  non_empty_string label ptr null =
      refused RegistryResolverCode.string_spec_pointer_missing
        (label ++ text ": missing at " ++ ptr)
  non_empty_string label ptr (string []) =
      refused RegistryResolverCode.string_spec_empty (label ++ text ": empty string at " ++ ptr)
  non_empty_string label ptr (string (c ∷ s)) = ok (c ∷ s)
  non_empty_string label ptr _ =
      refused RegistryResolverCode.string_spec_type (label ++ text ": expected string at " ++ ptr)

  unfoldable pub resolve_string_spec : Text → RegistryStringSpec → Outcome Text
  resolve_string_spec label (RegistryStringSpec.const []) =
      refused RegistryResolverCode.const_string_empty
        (label ++ text ": const must be non-empty string")
  resolve_string_spec label (RegistryStringSpec.const (c ∷ s)) = ok (c ∷ s)
  resolve_string_spec label (RegistryStringSpec.pointer ptr) = do
    got ← get_pointer js params ptr
    non_empty_string label ptr got

  -- `if (!IDENT.test(value)) return …`.
  unfoldable pub check_ident : Text → Text → Outcome Text
  check_ident label value =
      if is_ident value
      then ok value
      else refused RegistryResolverCode.invalid_identifier (label ++ text ": " ++ value)

  -- A string that must be an identifier, as for every column.
  unfoldable pub resolve_column : Text → RegistryStringSpec → Outcome Text
  unfolding resolve_string_spec check_ident
  resolve_column label spec = do value ← resolve_string_spec label spec; check_ident label value

  abbrev pub table_name : Text → Text → Json → Outcome Text
  table_name label ptr (string (c ∷ s)) = ok (c ∷ s)
  table_name label ptr _ =
      refused RegistryResolverCode.table_pointer_invalid
        (label ++ text ": expected non-empty string at " ++ ptr)

  abbrev pub table_of : Text → RegistryStringSpec → Outcome Text
  table_of label (RegistryStringSpec.const value) = ok value
  table_of label (RegistryStringSpec.pointer ptr) = do
    got ← get_pointer js params ptr
    table_name label ptr got

  unfoldable pub resolve_table_ident : Text → RegistryStringSpec → Outcome Text
  unfolding check_ident
  resolve_table_ident label spec = do value ← table_of label spec; check_ident label value

  -- `String(value)` of a scalar.
  abbrev pub scalar_text : Scalar → Text
  scalar_text Scalar.null = text "null"
  scalar_text (Scalar.boolean b) = boolean_text b
  scalar_text (Scalar.number n) = js.number_text n
  scalar_text (Scalar.string s) = s

  abbrev pub key_value : Text → Json → Outcome Text
  key_value ptr undefined =
      refused RegistryResolverCode.key_value_pointer_missing (text "key.value missing at " ++ ptr)
  key_value ptr null =
      refused RegistryResolverCode.key_value_pointer_missing (text "key.value missing at " ++ ptr)
  key_value ptr (array xs) =
      refused RegistryResolverCode.key_value_not_scalar (text "key.value must be scalar at " ++ ptr)
  key_value ptr (object fs) =
      refused RegistryResolverCode.key_value_not_scalar (text "key.value must be scalar at " ++ ptr)
  key_value ptr (boolean b) = ok (boolean_text b)
  key_value ptr (number n) = ok (js.number_text n)
  key_value ptr (string s) = ok s
  key_value ptr (other kind shown) = ok shown

  unfoldable pub resolve_key_value : RegistryScalarSpec → Outcome Text
  resolve_key_value (RegistryScalarSpec.const c) = ok (scalar_text c)
  resolve_key_value (RegistryScalarSpec.pointer ptr) = do
    got ← get_pointer js params ptr
    key_value ptr got

  abbrev pub finite_or : RegistryResolverCode → Text → Number → Outcome Number
  finite_or code message n = if is_finite n then ok n else refused code message

  abbrev pub number_found :
      RegistryResolverCode → RegistryResolverCode → Text → Text → Json → Outcome Number
  number_found missing wrong missing_text wrong_text undefined = refused missing missing_text
  number_found missing wrong missing_text wrong_text null = refused missing missing_text
  number_found missing wrong missing_text wrong_text (number n) = finite_or wrong wrong_text n
  number_found missing wrong missing_text wrong_text _ = refused wrong wrong_text

  unfoldable pub resolve_expect_number : Text → RegistryNumberOrPointerSpec → Outcome Number
  resolve_expect_number label (RegistryNumberOrPointerSpec.const n) =
      finite_or RegistryResolverCode.relational_expect_value_invalid
        (label ++ text ": const must be a finite number") n
  resolve_expect_number label (RegistryNumberOrPointerSpec.pointer ptr) = do
    got ← get_pointer js params ptr
    number_found RegistryResolverCode.relational_expect_value_invalid
        RegistryResolverCode.relational_expect_value_invalid
        (label ++ text ": missing number at " ++ ptr)
        (label ++ text ": expected finite number at " ++ ptr) got

  -- `resolveNumberOrPointer` of a spec that is given, as it is at every call.
  unfoldable pub resolve_number_or_pointer : Text → RegistryNumberOrPointerSpec → Outcome Number
  resolve_number_or_pointer label (RegistryNumberOrPointerSpec.const n) =
      finite_or RegistryResolverCode.key_value_spec_invalid
        (label ++ text ": const must be finite number") n
  resolve_number_or_pointer label (RegistryNumberOrPointerSpec.pointer ptr) = do
    got ← get_pointer js params ptr
    number_found RegistryResolverCode.key_value_pointer_missing
        RegistryResolverCode.key_value_not_scalar (label ++ text ": missing at " ++ ptr)
        (label ++ text ": expected number at " ++ ptr) got

  abbrev pub assertion_scalar : Text → Text → Json → Outcome Scalar
  assertion_scalar label ptr undefined =
      refused RegistryResolverCode.key_value_pointer_missing (label ++ text ": missing at " ++ ptr)
  assertion_scalar label ptr null = ok Scalar.null
  assertion_scalar label ptr (boolean b) = ok (Scalar.boolean b)
  assertion_scalar label ptr (number n) = ok (Scalar.number n)
  assertion_scalar label ptr (string s) = ok (Scalar.string s)
  assertion_scalar label ptr (array xs) =
      refused RegistryResolverCode.key_value_not_scalar
        (label ++ text ": must be scalar at " ++ ptr)
  assertion_scalar label ptr (object fs) =
      refused RegistryResolverCode.key_value_not_scalar
        (label ++ text ": must be scalar at " ++ ptr)
  assertion_scalar label ptr (other kind shown) =
      refused RegistryResolverCode.key_value_not_scalar
        (label ++ text ": unsupported scalar at " ++ ptr)

  unfoldable pub resolve_scalar_or_pointer_for_assertion :
      Text → RegistryScalarSpec → Outcome Scalar
  resolve_scalar_or_pointer_for_assertion label (RegistryScalarSpec.const c) = ok c
  resolve_scalar_or_pointer_for_assertion label (RegistryScalarSpec.pointer ptr) = do
    got ← get_pointer js params ptr
    assertion_scalar label ptr got
