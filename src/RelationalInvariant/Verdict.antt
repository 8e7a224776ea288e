-- ===== src/RelationalInvariant/Verdict.antt =====
-- relationalInvariant.ts: what a relational check asks of the scalar of its result row, and its verdict on it.
use agentskeptic.Prelude.{
  ◌^◌, ◌≤◌, ℕ, zero, suc, ◌≡◌, ◌↔◌, refl, Bool, true, false, not, ◌&&◌, Option, none, some, arith,
  inl, inr, sym, ◌∙◌, Option-cases,
}
use mathlib.Core.Option.{some-injective}
use mathlib.Core.Path.{subst}
use native.Mathlib.Nat.{pow-suc}
use agentskeptic.Prelude.Int.{pos, negsuc}
use agentskeptic.Js.{
  text, Number, nan, infinity, neg_infinity, finite, Value, Row, Runtime, nat, number_eq, number_le,
  row_get,
}
use agentskeptic.Types.{
  ResolvedRelationalCheck, related_exists, aggregate, join_count, anti_join, ExpectOp, eq, gte, lte,
}
use agentskeptic.Reconciler.{normalize_count_v, is_zero}
use agentskeptic.Reconciler.Outcome.{is_verified, is_missing}
use agentskeptic.Reconciler.Scalars.{IsNumeral, normalize_count_v-IsNumeral, Picks, coalesce-Picks}
use agentskeptic.RelationalInvariant.{
  normalize_numeric_actual, compare_expect, scalar_of, verdict, unusable,
}

-- What a check asks of its scalar.
abbrev pub meets : ResolvedRelationalCheck → Number → Bool
meets (related_exists c) n = number_eq n (nat 1)
meets (anti_join c) n = is_zero n
meets (aggregate c) n = compare_expect n c.expect_op c.expect_value
meets (join_count c) n = compare_expect n c.expect_op c.expect_value

abbrev pub meets_scalar : ResolvedRelationalCheck → Option Number → Bool
meets_scalar check none = false
meets_scalar check (some n) = meets check n

-- The related row is known to be absent: only an existence check can say so.
abbrev pub denies_scalar : ResolvedRelationalCheck → Option Number → Bool
denies_scalar (related_exists c) (some n) = number_eq n (nat 0) && not (number_eq n (nat 1))
denies_scalar _ _ = false

module _ (js : Runtime) where
  pub verdict-verified :
      (check : ResolvedRelationalCheck) (raw : Value)
      → is_verified (verdict js check raw).status
        ≡ meets_scalar check (normalize_numeric_actual raw)
  unfolding unusable
  verdict-verified (related_exists c) raw = ground arith
  verdict-verified (anti_join c) raw = ground arith
  verdict-verified (aggregate c) raw = ground arith
  verdict-verified (join_count c) raw = ground arith

  pub verdict-missing :
      (check : ResolvedRelationalCheck) (raw : Value)
      → is_missing (verdict js check raw).status
        ≡ denies_scalar check (normalize_numeric_actual raw)
  unfolding unusable
  verdict-missing (related_exists c) raw = ground arith
  verdict-missing (anti_join c) raw = ground arith
  verdict-missing (aggregate c) raw = ground arith
  verdict-missing (join_count c) raw = ground arith

-- A value that reads as the number of a scalar: a truth value, or one that reads as a number.
pub data IsActual : Value → Number → Type 0 where
  true_is : IsActual (Value.boolean true) (nat 1)
  false_is : IsActual (Value.boolean false) (nat 0)
  numeral_is : {v : Value} {n : Number} → IsNumeral v n → IsActual v n

-- `actual op expected`.
abbrev pub IsExpected : Number → ExpectOp → Number → Type 0
IsExpected actual eq expected = number_eq actual expected ≡ true
IsExpected actual gte expected = number_le expected actual ≡ true
IsExpected actual lte expected = number_le actual expected ≡ true

-- What a check asks of the number: 1 of an existence check, 0 of an anti join, and its expectation of the others.
abbrev pub Meets : ResolvedRelationalCheck → Number → Type 0
Meets (related_exists c) n = number_eq n (nat 1) ≡ true
Meets (anti_join c) n = number_eq n (nat 0) ≡ true
Meets (aggregate c) n = IsExpected n c.expect_op c.expect_value
Meets (join_count c) n = IsExpected n c.expect_op c.expect_value

-- The related row is absent: an existence check reads 0.
abbrev pub DeniesRow : ResolvedRelationalCheck → Number → Type 0
DeniesRow (related_exists c) n = number_eq n (nat 0) ≡ true
DeniesRow _ n = ⊥

-- The scalar of a row, in its column "v" or else "V", reads as a number of which something holds.
abbrev pub Reads : Row → (Number → Type 0) → Type 0
Reads row P =
    (v : Value) × (n : Number) × Picks (row_get (text "v") row) (row_get (text "V") row) v
    × IsActual v n
    × P n

IsActual-numeral :
    (v : Value)
    → normalize_numeric_actual v ≡ normalize_count_v v
    → (n : Number) → normalize_numeric_actual v ≡ some n
    → IsActual v n
IsActual-numeral v e n h = numeral_is ((normalize_count_v-IsNumeral v n).0 (sym e ∙ h))

IsActual-read : (v : Value) (n : Number) → normalize_numeric_actual v ≡ some n → IsActual v n
unfolding normalize_numeric_actual normalize_count_v
IsActual-read (Value.boolean true) n h =
    subst (IsActual (Value.boolean true)) (some-injective _ _ h) true_is
IsActual-read (Value.boolean false) n h =
    subst (IsActual (Value.boolean false)) (some-injective _ _ h) false_is
IsActual-read Value.undefined n h = cc h
IsActual-read Value.null n h = cc h
IsActual-read (Value.number x) n h = IsActual-numeral (Value.number x) refl n h
IsActual-read (Value.bigint x) n h = IsActual-numeral (Value.bigint x) refl n h
IsActual-read (Value.string s) n h = cc h
IsActual-read (Value.date d s) n h = cc h
IsActual-read (Value.object s) n h = cc h
IsActual-read (Value.other s) n h = cc h

numeral-actual :
    (v : Value) (n : Number) → normalize_count_v v ≡ some n → normalize_numeric_actual v ≡ some n
unfolding normalize_numeric_actual normalize_count_v
numeral-actual Value.undefined n h = cc h
numeral-actual Value.null n h = cc h
numeral-actual (Value.boolean b) n h = cc h
numeral-actual (Value.number x) n h = h
numeral-actual (Value.bigint x) n h = h
numeral-actual (Value.string s) n h = cc h
numeral-actual (Value.date d s) n h = cc h
numeral-actual (Value.object s) n h = cc h
numeral-actual (Value.other s) n h = cc h

number_of_actual : {v : Value} {n : Number} → IsActual v n → normalize_numeric_actual v ≡ some n
unfolding normalize_numeric_actual
number_of_actual true_is = refl
number_of_actual false_is = refl
number_of_actual (numeral_is {v} {n} h) = numeral-actual v n ((normalize_count_v-IsNumeral v n).1 h)

-- The number of the scalar, of which something holds.
abbrev HasNumber : (Number → Type 0) → Value → Type 0
HasNumber P v = (n : Number) × (normalize_numeric_actual v ≡ some n) × P n

pub Reads_iff : (row : Row) (P : Number → Type 0) → HasNumber P (scalar_of row) ↔ Reads row P
unfolding scalar_of normalize_numeric_actual
Reads_iff row P = (to, from)
  where
    none_read : ¬ HasNumber P Value.undefined
    none_read (n, h, p) = cc h

    picked :
        HasNumber P (scalar_of row)
        ↔ ((v : Value) × Picks (row_get (text "v") row) (row_get (text "V") row) v × HasNumber P v)
    picked =
        coalesce-Picks (HasNumber P) none_read (row_get (text "v") row) (row_get (text "V") row)

    to : HasNumber P (scalar_of row) → Reads row P
    to h = let (v, picks, (n, a, p)) = picked.0 h in (v, n, picks, IsActual-read v n a, p)

    from : Reads row P → HasNumber P (scalar_of row)
    from (v, n, picks, a, p) = picked.1 (v, picks, (n, number_of_actual a, p))

IsExpected-iff :
    (n : Number) (op : ExpectOp) (m : Number) → (compare_expect n op m ≡ true) ↔ IsExpected n op m
unfolding compare_expect
IsExpected-iff n eq m = (λ h. h, λ h. h)
IsExpected-iff n gte m = (λ h. h, λ h. h)
IsExpected-iff n lte m = (λ h. h, λ h. h)

meets_iff : (check : ResolvedRelationalCheck) (n : Number) → (meets check n ≡ true) ↔ Meets check n
meets_iff (related_exists c) n = (λ h. h, λ h. h)
meets_iff (anti_join c) n = (λ h. h, λ h. h)
meets_iff (aggregate c) n = IsExpected-iff n c.expect_op c.expect_value
meets_iff (join_count c) n = IsExpected-iff n c.expect_op c.expect_value

pub meets_scalar_iff :
    (check : ResolvedRelationalCheck) (v : Value)
    → (meets_scalar check (normalize_numeric_actual v) ≡ true) ↔ HasNumber (Meets check) v
meets_scalar_iff check v = (
  λ h. elim (Option-cases (normalize_numeric_actual v)) [
    | inl e ↦ let q : false ≡ true = rw e at h in cc q
    | inr (n, e) ↦ (n, e, (meets_iff check n).0 (rw e at h))
  ],
  λ (n, e, m). rw e ((meets_iff check n).1 m),
)

pow_pos : (i : ℕ) → 1 ≤ 2 ^ i
pow_pos zero = omega arith
pow_pos (suc i) = rw pow-suc (omega (arith, pow_pos i))

-- No number is both 0 and 1.
zero-not_one : (n : Number) → number_eq n (nat 0) ≡ true → number_eq n (nat 1) ≡ false
unfolding number_eq
zero-not_one nan h = refl
zero-not_one infinity h = refl
zero-not_one neg_infinity h = refl
zero-not_one (finite (pos a) e) h = ground (arith, pow_pos e)
zero-not_one (finite (negsuc a) e) h = refl

denies_iff :
    (check : ResolvedRelationalCheck) (n : Number)
    → (denies_scalar check (some n) ≡ true) ↔ DeniesRow check n
denies_iff (related_exists c) n = (λ h. ground arith, λ h. ground (arith, zero-not_one n h))
denies_iff (anti_join c) n = (λ h. cc h, λ h. absurd h)
denies_iff (aggregate c) n = (λ h. cc h, λ h. absurd h)
denies_iff (join_count c) n = (λ h. cc h, λ h. absurd h)

denies-none : (check : ResolvedRelationalCheck) → denies_scalar check none ≡ false
denies-none (related_exists c) = refl
denies-none (anti_join c) = refl
denies-none (aggregate c) = refl
denies-none (join_count c) = refl

pub denies_scalar_iff :
    (check : ResolvedRelationalCheck) (v : Value)
    → (denies_scalar check (normalize_numeric_actual v) ≡ true) ↔ HasNumber (DeniesRow check) v
denies_scalar_iff check v = (
  λ h. elim (Option-cases (normalize_numeric_actual v)) [
    | inl e ↦ let q : false ≡ true = sym (denies-none check) ∙ (rw e at h) in cc q
    | inr (n, e) ↦ (n, e, (denies_iff check n).0 (rw e at h))
  ],
  λ (n, e, m). rw e ((denies_iff check n).1 m),
)
