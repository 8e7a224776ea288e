-- ===== src/Js/Numbers.antt =====
-- JavaScript's numbers as they are compared: a finite one is m / 2^e, which every double is. The
-- two zeros are one value here, as `===` and `<` treat them.
use agentskeptic.Prelude.{ℕ, ◌%◌, ◌^◌, ◌≡◌, refl, Bool, true, false, ◌==◌}
use agentskeptic.Prelude.Int.{ℤ, pos, negsuc, ltb_ℤ, leb_ℤ, eqb_ℤ, abs, scale}

pub data Number : Type 0 where
  nan infinity neg_infinity : Number
  finite : ℤ → ℕ → Number

abbrev pub nat : ℕ → Number
nat n = finite (pos n) 0

-- `a === b`.
unfoldable pub number_eq : Number → Number → Bool
number_eq infinity infinity = true
number_eq neg_infinity neg_infinity = true
number_eq (finite a i) (finite b j) = eqb_ℤ (scale a (2 ^ j)) (scale b (2 ^ i))
number_eq _ _ = false

-- `a < b`.
unfoldable pub number_lt : Number → Number → Bool
number_lt neg_infinity infinity = true
number_lt neg_infinity (finite b j) = true
number_lt (finite a i) infinity = true
number_lt (finite a i) (finite b j) = ltb_ℤ (scale a (2 ^ j)) (scale b (2 ^ i))
number_lt _ _ = false

-- `a <= b`.
unfoldable pub number_le : Number → Number → Bool
number_le infinity infinity = true
number_le neg_infinity neg_infinity = true
number_le neg_infinity infinity = true
number_le neg_infinity (finite b j) = true
number_le (finite a i) infinity = true
number_le (finite a i) (finite b j) = leb_ℤ (scale a (2 ^ j)) (scale b (2 ^ i))
number_le _ _ = false

-- `Number.isFinite`.
abbrev pub is_finite : Number → Bool
is_finite (finite a i) = true
is_finite _ = false

-- `Number.isInteger`.
unfoldable pub is_integer : Number → Bool
is_integer (finite a i) = abs a % 2 ^ i == 0
is_integer _ = false

number_tests :
    (number_lt (finite (negsuc 0) 1) (nat 0) ≡ true)
    × (number_eq (finite (pos 6) 1) (nat 3) ≡ true)
    × (is_integer (finite (pos 3) 1) ≡ false)
    × (number_le nan nan ≡ false)
unfolding number_lt number_eq is_integer number_le
number_tests = (refl, refl, refl, refl)
