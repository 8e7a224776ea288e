-- ===== src/ValueVerification/Agreement.antt =====
-- When `verificationScalarsEqual` accepts, as a relation between scalars and values.
use agentskeptic.Prelude.{
  ◌≡◌, ◌↔◌, refl, Bool, true, false, Option, none, some, arith, if◌then◌else◌, and_parts,
}
use agentskeptic.Prelude.Int.{ℤ}
use agentskeptic.Js.{
  Text, Number, finite, Value, Runtime, text_eq_iff, trim, nat, number_eq, number_le, is_finite,
  is_integer,
}
use agentskeptic.Types.{Scalar}
use agentskeptic.ValueVerification.{
  ok, mismatch, boolean_text, max_safe_integer, min_safe_integer, boolean_matches, number_matches,
  string_matches, verification_scalars_equal, scalar_matches, parsed_matches,
}

module _ (js : Runtime) where
  pub data Agrees : Scalar → Value → Type 0 where
    null_null : Agrees Scalar.null Value.null
    null_undefined : Agrees Scalar.null Value.undefined
    same_boolean : {b : Bool} → Agrees (Scalar.boolean b) (Value.boolean b)
    one_is_true :
        {n : Number}
        → is_finite n ≡ true
        → number_eq n (nat 1) ≡ true
        → Agrees (Scalar.boolean true) (Value.number n)
    zero_is_false :
        {n : Number}
        → is_finite n ≡ true
        → number_eq n (nat 0) ≡ true
        → Agrees (Scalar.boolean false) (Value.number n)
    equal_numbers :
        {n m : Number}
        → is_finite n ≡ true
        → is_finite m ≡ true
        → number_eq m n ≡ true
        → Agrees (Scalar.number n) (Value.number m)
    safe_bigint :
        {n : Number} {k : ℤ}
        → is_integer n ≡ true
        → number_le min_safe_integer n ≡ true
        → number_le n max_safe_integer ≡ true
        → number_eq (finite k 0) n ≡ true
        → Agrees (Scalar.number n) (Value.bigint k)
    canonical_numeral :
        {n m : Number} {s : Text}
        → is_finite n ≡ true
        → js.parse_number (trim s) ≡ some m
        → is_finite m ≡ true
        → number_eq m n ≡ true
        → js.number_text m ≡ js.number_text n
        → Agrees (Scalar.number n) (Value.string s)
    equal_trimmed : {e s : Text} → trim s ≡ trim e → Agrees (Scalar.string e) (Value.string s)
    shown_number :
        {e : Text} {n : Number}
        → is_finite n ≡ true
        → trim e ≡ js.number_text n
        → Agrees (Scalar.string e) (Value.number n)
    shown_boolean :
        {e : Text} {b : Bool} → trim e ≡ boolean_text b → Agrees (Scalar.string e) (Value.boolean b)
    shown_date :
        {e iso shown : Text} → trim e ≡ iso → Agrees (Scalar.string e) (Value.date (some iso) shown)

  Agrees-complete : {e : Scalar} {a : Value} → Agrees e a → verification_scalars_equal js e a ≡ ok
  unfolding verification_scalars_equal
  Agrees-complete null_null = refl
  Agrees-complete null_undefined = refl
  Agrees-complete (same_boolean {b = true}) = refl
  Agrees-complete (same_boolean {b = false}) = refl
  Agrees-complete (one_is_true f e) = ground arith
  Agrees-complete (zero_is_false f e) = ground arith
  Agrees-complete (equal_numbers f g e) = ground arith
  Agrees-complete (safe_bigint {n = finite m i} w lo hi e) = ground arith
  Agrees-complete (safe_bigint {n} w lo hi e) = unfold is_integer in ground arith
  Agrees-complete (canonical_numeral {n} {m} f p g e t) =
      rw p (ground (arith, text_eq_iff (js.number_text m) (js.number_text n)))
  Agrees-complete (equal_trimmed {e} {s} p) = ground (arith, text_eq_iff (trim s) (trim e))
  Agrees-complete (shown_number {e} {n} f p) =
      ground (arith, text_eq_iff (trim e) (js.number_text n))
  Agrees-complete (shown_boolean {e} {b} p) = ground (arith, text_eq_iff (trim e) (boolean_text b))
  Agrees-complete (shown_date {e} {iso} p) = ground (arith, text_eq_iff (trim e) iso)

  if-ok : {b : Bool} (x y : Text) → (if b then ok else mismatch x y) ≡ ok → b ≡ true
  if-ok {b = true} x y h = refl
  if-ok {b = false} x y h = cc

  boolean_sound :
      (b : Bool) (a : Value) → boolean_matches js b a ≡ true → Agrees (Scalar.boolean b) a
  unfolding boolean_matches
  boolean_sound true (Value.boolean true) h = same_boolean
  boolean_sound false (Value.boolean false) h = same_boolean
  boolean_sound true (Value.boolean false) h = cc
  boolean_sound false (Value.boolean true) h = cc
  boolean_sound true (Value.number n) h = one_is_true (ground arith) (ground arith)
  boolean_sound false (Value.number n) h = zero_is_false (ground arith) (ground arith)
  boolean_sound _ _ h = cc

  numeral_sound :
      (n : Number) (s : Text) (o : Option Number)
      → is_finite n ≡ true
      → js.parse_number (trim s) ≡ o
      → parsed_matches js n o ≡ true
      → Agrees (Scalar.number n) (Value.string s)
  unfolding parsed_matches
  numeral_sound n s none f p h = cc
  numeral_sound n s (some m) f p h =
      canonical_numeral f p (ground arith) (ground arith)
        ((text_eq_iff (js.number_text m) (js.number_text n)).0 (ground arith))

  number_sound :
      (n : Number) (a : Value)
      → is_finite n ≡ true
      → number_matches js n a ≡ true
      → Agrees (Scalar.number n) a
  unfolding number_matches
  number_sound n (Value.number m) f h = equal_numbers f (ground arith) (ground arith)
  number_sound n (Value.bigint k) f h =
      safe_bigint (ground arith) (ground arith) (ground arith) (ground arith)
  number_sound n (Value.string s) f h = numeral_sound n s (js.parse_number (trim s)) f refl h
  number_sound n _ f h = cc

  string_sound :
      (e : Text) (a : Value) → string_matches js (trim e) a ≡ true → Agrees (Scalar.string e) a
  unfolding string_matches
  string_sound e (Value.string s) h = equal_trimmed ((text_eq_iff (trim s) (trim e)).0 h)
  string_sound e (Value.number n) h =
      shown_number (ground arith) ((text_eq_iff (trim e) (js.number_text n)).0 (ground arith))
  string_sound e (Value.boolean b) h = shown_boolean ((text_eq_iff (trim e) (boolean_text b)).0 h)
  string_sound e (Value.date (some iso) shown) h = shown_date ((text_eq_iff (trim e) iso).0 h)
  string_sound e _ h = cc

  scalar_sound : (e : Scalar) (a : Value) → scalar_matches js e a ≡ true → Agrees e a
  unfolding scalar_matches
  scalar_sound Scalar.null a h = cc
  scalar_sound (Scalar.boolean b) a h = boolean_sound b a h
  scalar_sound (Scalar.number n) a h =
      let (f, m) = and_parts (is_finite n) (number_matches js n a) h in number_sound n a f m
  scalar_sound (Scalar.string s) a h = string_sound s a h

  Agrees-sound : (e : Scalar) (a : Value) → verification_scalars_equal js e a ≡ ok → Agrees e a
  unfolding verification_scalars_equal
  Agrees-sound Scalar.null Value.null h = null_null
  Agrees-sound Scalar.null Value.undefined h = null_undefined
  Agrees-sound (Scalar.boolean b) Value.null h = cc
  Agrees-sound (Scalar.boolean b) Value.undefined h = cc
  Agrees-sound (Scalar.number n) Value.null h = cc
  Agrees-sound (Scalar.number n) Value.undefined h = cc
  Agrees-sound (Scalar.string s) Value.null h = cc
  Agrees-sound (Scalar.string s) Value.undefined h = cc
  Agrees-sound e (Value.boolean b) h = scalar_sound e (Value.boolean b) (if-ok _ _ h)
  Agrees-sound e a h = scalar_sound e a (if-ok _ _ h)

-- The comparison accepts a value for an expected scalar exactly when they agree: null with null or
-- undefined, equal booleans, the finite numbers 1 and 0 for true and false, equal finite numbers, a
-- bigint that equals an expected safe integer, a text that parses to the expected finite number and
-- is printed alike, texts that are equal when trimmed, and for an expected text a finite number,
-- a boolean or a valid date that is shown as the trimmed text.
pub equal-Agrees_iff :
    (js : Runtime) (e : Scalar) (a : Value)
    → (verification_scalars_equal js e a ≡ ok) ↔ Agrees js e a
equal-Agrees_iff js e a = (Agrees-sound js e a, Agrees-complete js)
