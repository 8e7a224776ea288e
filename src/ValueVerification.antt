-- ===== src/ValueVerification.antt =====
-- valueVerification.ts: when a value that the database returned is the expected scalar.
pub mod Agreement
use agentskeptic.Prelude.{
  ℕ, ◌-◌, ◌^◌, Bool, true, false, not, ◌&&◌, ◌||◌, Option, none, some, if◌then◌else◌,
}
use agentskeptic.Prelude.Int.{ℤ, pos, negsuc}
use agentskeptic.Js.{
  Text, Number, nan, infinity, neg_infinity, finite, Value, Runtime, text, text_eq, trim, nat,
  number_eq, number_le, is_finite, is_integer,
}
use agentskeptic.Types.{Scalar}

pub data VerificationCompareResult : Type 0 where
  ok : VerificationCompareResult
  mismatch : (expected actual : Text) → VerificationCompareResult

abbrev pub same : Bool → Bool → Bool
same true b = b
same false b = not b

abbrev pub boolean_text : Bool → Text
boolean_text true = text "true"
boolean_text false = text "false"

abbrev pub max_safe_integer : Number
max_safe_integer = nat (2 ^ 53 - 1)

abbrev pub min_safe_integer : Number
min_safe_integer = finite (negsuc (2 ^ 53 - 2)) 0

module _ (js : Runtime) where
  number_display : Number → Text
  number_display nan = text "NaN"
  number_display infinity = text "Infinity"
  number_display neg_infinity = text "-Infinity"
  number_display (finite m e) = js.number_text (finite m e)

  unfoldable pub canonical_verification_display_for_expected : Scalar → Text
  unfolding number_display
  canonical_verification_display_for_expected Scalar.null = text "null"
  canonical_verification_display_for_expected (Scalar.boolean b) = boolean_text b
  canonical_verification_display_for_expected (Scalar.number n) = number_display n
  canonical_verification_display_for_expected (Scalar.string s) = js.json_text s

  unfoldable pub canonical_verification_display_for_actual : Value → Text
  unfolding number_display
  canonical_verification_display_for_actual Value.null = text "null"
  canonical_verification_display_for_actual Value.undefined = text "null"
  canonical_verification_display_for_actual (Value.boolean b) = boolean_text b
  canonical_verification_display_for_actual (Value.number n) = number_display n
  canonical_verification_display_for_actual (Value.string s) = js.json_text s
  canonical_verification_display_for_actual (Value.bigint k) = js.json_text (js.bigint_text k)
  canonical_verification_display_for_actual (Value.date (some iso) shown) = js.json_text iso
  canonical_verification_display_for_actual (Value.date none shown) = js.json_text shown
  canonical_verification_display_for_actual (Value.object shown) = js.json_text shown
  canonical_verification_display_for_actual (Value.other shown) = js.json_text shown

  fail : Scalar → Value → VerificationCompareResult
  unfolding canonical_verification_display_for_expected canonical_verification_display_for_actual
  fail expected actual =
      mismatch (canonical_verification_display_for_expected expected)
        (canonical_verification_display_for_actual actual)

  -- The tests of an expected boolean.
  unfoldable pub boolean_matches : Bool → Value → Bool
  boolean_matches expected (Value.boolean b) = same b expected
  boolean_matches expected (Value.number n) =
      is_finite n && ((expected && number_eq n (nat 1)) || (not expected && number_eq n (nat 0)))
  boolean_matches expected _ = false

  -- `JSON.parse` gave a number: it is finite, equal, and printed alike.
  parsed_matches : Number → Option Number → Bool
  parsed_matches expected none = false
  parsed_matches expected (some parsed) =
      is_finite parsed
      && number_eq parsed expected
      && text_eq (js.number_text parsed) (js.number_text expected)

  -- The tests of an expected finite number.
  unfoldable pub number_matches : Number → Value → Bool
  unfolding parsed_matches
  number_matches expected (Value.number n) = is_finite n && number_eq n expected
  number_matches expected (Value.bigint k) =
      is_integer expected
      && number_le min_safe_integer expected
      && number_le expected max_safe_integer
      && number_eq (finite k 0) expected
  number_matches expected (Value.string s) = parsed_matches expected (js.parse_number (trim s))
  number_matches expected _ = false

  -- The tests of an expected string, already trimmed.
  unfoldable pub string_matches : Text → Value → Bool
  string_matches e (Value.string s) = text_eq (trim s) e
  string_matches e (Value.number n) = is_finite n && text_eq e (js.number_text n)
  string_matches e (Value.boolean b) = text_eq e (boolean_text b)
  string_matches e (Value.date (some iso) shown) = text_eq e iso
  string_matches e _ = false

  -- `expected` is not null, and `actual` neither null nor undefined.
  scalar_matches : Scalar → Value → Bool
  unfolding boolean_matches number_matches string_matches
  scalar_matches Scalar.null actual = false
  scalar_matches (Scalar.boolean b) actual = boolean_matches b actual
  scalar_matches (Scalar.number n) actual = is_finite n && number_matches n actual
  scalar_matches (Scalar.string s) actual = string_matches (trim s) actual

  unfoldable pub verification_scalars_equal : Scalar → Value → VerificationCompareResult
  unfolding scalar_matches fail
  verification_scalars_equal Scalar.null Value.null = ok
  verification_scalars_equal Scalar.null Value.undefined = ok
  verification_scalars_equal expected Value.null = fail expected Value.null
  verification_scalars_equal expected Value.undefined = fail expected Value.undefined
  verification_scalars_equal expected actual =
      if scalar_matches expected actual then ok else fail expected actual
