-- ===== src/Reconciler/Scalars.antt =====
-- Which values of a database read as numbers, and which of two columns is read, described apart from the code that reads them.
use agentskeptic.Prelude.{
  ℕ, suc, ◌^◌, ◌<◌, ◌≡◌, ◌↔◌, refl, Bool, true, false, ◌&&◌, Option, none, some, arith, sym,
  Bool-cases, inl, inr, if◌then◌else◌,
}
use mathlib.Core.Option.{some-injective}
use mathlib.Core.Path.{subst}
use agentskeptic.Prelude.Int.{ℤ, pos, negsuc}
use agentskeptic.Js.{
  Number, nan, infinity, neg_infinity, finite, nat, Value, or_undefined, number_le,
}
use agentskeptic.ValueVerification.{max_safe_integer, min_safe_integer}
use agentskeptic.Reconciler.Absent.{normalize_count_v, coalesce}

-- A value that reads as a number: a finite number, or a bigint that a number holds exactly.
pub data IsNumeral : Value → Number → Type 0 where
  number_is : (m : ℤ) (e : ℕ) → IsNumeral (Value.number (finite m e)) (finite m e)
  natural_is : (k : ℕ) → k < 2 ^ 53 → IsNumeral (Value.bigint (pos k)) (nat k)
  negative_is : (k : ℕ) → suc k < 2 ^ 53 → IsNumeral (Value.bigint (negsuc k)) (finite (negsuc k) 0)

abbrev is_safe : ℤ → Bool
is_safe k = number_le min_safe_integer (finite k 0) && number_le (finite k 0) max_safe_integer

is_safe-natural : (k : ℕ) → (is_safe (pos k) ≡ true) ↔ (k < 2 ^ 53)
unfolding number_le
is_safe-natural k = ground arith

is_safe-negative : (k : ℕ) → (is_safe (negsuc k) ≡ true) ↔ (suc k < 2 ^ 53)
unfolding number_le
is_safe-negative k = ground arith

if-some :
    {A : Type 0} (b : Bool) (a n : A) → (if b then some a else none) ≡ some n → (b ≡ true) × (a ≡ n)
if-some true a n h = (refl, some-injective _ _ h)
if-some false a n h = cc h

IsNumeral-read : (v : Value) (n : Number) → normalize_count_v v ≡ some n → IsNumeral v n
unfolding normalize_count_v
IsNumeral-read Value.undefined n h = cc h
IsNumeral-read Value.null n h = cc h
IsNumeral-read (Value.boolean b) n h = cc h
IsNumeral-read (Value.number nan) n h = cc h
IsNumeral-read (Value.number infinity) n h = cc h
IsNumeral-read (Value.number neg_infinity) n h = cc h
IsNumeral-read (Value.number (finite m e)) n h =
    subst (IsNumeral (Value.number (finite m e))) (some-injective _ _ h) (number_is m e)
IsNumeral-read (Value.bigint (pos k)) n h =
    let (s, e) = if-some (is_safe (pos k)) (nat k) n h in
    subst (IsNumeral (Value.bigint (pos k))) e (natural_is k ((is_safe-natural k).0 s))
IsNumeral-read (Value.bigint (negsuc k)) n h =
    let (s, e) = if-some (is_safe (negsuc k)) (finite (negsuc k) 0) n h in
    subst (IsNumeral (Value.bigint (negsuc k))) e (negative_is k ((is_safe-negative k).0 s))
IsNumeral-read (Value.string s) n h = cc h
IsNumeral-read (Value.date d s) n h = cc h
IsNumeral-read (Value.object s) n h = cc h
IsNumeral-read (Value.other s) n h = cc h

count_of_numeral : {v : Value} {n : Number} → IsNumeral v n → normalize_count_v v ≡ some n
unfolding normalize_count_v
count_of_numeral (number_is m e) = refl
count_of_numeral (natural_is k h) = rw ((is_safe-natural k).1 h) refl
count_of_numeral (negative_is k h) = rw ((is_safe-negative k).1 h) refl

pub normalize_count_v-IsNumeral :
    (v : Value) (n : Number) → (normalize_count_v v ≡ some n) ↔ IsNumeral v n
normalize_count_v-IsNumeral v n = (IsNumeral-read v n, count_of_numeral)

abbrev pub is_given : Value → Bool
is_given Value.undefined = false
is_given Value.null = false
is_given _ = true

-- The value that is read of two columns: the first unless it is missing, undefined or null, else the second.
pub data Picks : Option Value → Option Value → Value → Type 0 where
  first_column : {v : Value} {b : Option Value} → is_given v ≡ true → Picks (some v) b v
  second_column : {u v : Value} → is_given u ≡ false → Picks (some u) (some v) v
  only_second : {v : Value} → Picks none (some v) v

coalesce-given : (v b : Value) → is_given v ≡ true → coalesce v b ≡ v
coalesce-given Value.undefined b h = cc h
coalesce-given Value.null b h = cc h
coalesce-given (Value.boolean x) b h = refl
coalesce-given (Value.number x) b h = refl
coalesce-given (Value.bigint x) b h = refl
coalesce-given (Value.string x) b h = refl
coalesce-given (Value.date x y) b h = refl
coalesce-given (Value.object x) b h = refl
coalesce-given (Value.other x) b h = refl

coalesce-not_given : (v b : Value) → is_given v ≡ false → coalesce v b ≡ b
coalesce-not_given Value.undefined b h = refl
coalesce-not_given Value.null b h = refl
coalesce-not_given (Value.boolean x) b h = cc h
coalesce-not_given (Value.number x) b h = cc h
coalesce-not_given (Value.bigint x) b h = cc h
coalesce-not_given (Value.string x) b h = cc h
coalesce-not_given (Value.date x y) b h = cc h
coalesce-not_given (Value.object x) b h = cc h
coalesce-not_given (Value.other x) b h = cc h

-- What holds of the value that is read, if it does not hold of `undefined`.
module _ (R : Value → Type 0) (given : ¬ R Value.undefined) where
  second_read :
      (a b : Option Value)
      → ((v : Value) → Picks a (some v) v)
      → R (or_undefined b)
      → (v : Value) × Picks a b v × R v
  second_read a none p r = absurd (given r)
  second_read a (some v) p r = (v, p v, r)

  reads :
      (a b : Option Value)
      → R (coalesce (or_undefined a) (or_undefined b))
      → (v : Value) × Picks a b v × R v
  reads none b r = second_read none b (λ v. only_second) r
  reads (some u) b r = elim (Bool-cases (is_given u)) [
    | inl g ↦ (u, first_column g, subst R (coalesce-given u (or_undefined b) g) r)
    | inr g ↦
        second_read (some u) b (λ v. second_column g)
          (subst R (coalesce-not_given u (or_undefined b) g) r)
  ]

  read_by :
      {a b : Option Value} {v : Value}
      → Picks a b v
      → R v
      → R (coalesce (or_undefined a) (or_undefined b))
  read_by (first_column {v} {b} g) r = subst R (sym (coalesce-given v (or_undefined b) g)) r
  read_by (second_column {u} {v} g) r = subst R (sym (coalesce-not_given u v g)) r
  read_by only_second r = r

  pub coalesce-Picks :
      (a b : Option Value)
      → R (coalesce (or_undefined a) (or_undefined b)) ↔ ((v : Value) × Picks a b v × R v)
  coalesce-Picks a b = (reads a b, λ (v, p, r). read_by p r)
