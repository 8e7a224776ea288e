-- ===== src/Js/Strings.antt =====
-- A string is the list of its UTF-16 code units, as JavaScript counts, compares and cuts it.
use Prim.Native.Char.{code}
use Prim.Native.String.{String}
use agentskeptic.Prelude.{
  ℕ, ◌+◌, ◌-◌, ◌/◌, ◌%◌, ◌≡◌, ◌↔◌, refl, Bool, true, false, not, ◌&&◌, ◌||◌, List, [], ◌∷◌, ◌++◌,
  arith, ltb, leb, ◌==◌, if◌then◌else◌,
}
use agentskeptic.Prelude.Sort.{IsOrder}

abbrev pub Text : Type 0
Text = List ℕ

-- The code units of one code point: one, or a surrogate pair.
units : ℕ → Text
units c =
    if ltb c 0x10000
    then c ∷ []
    else (0xd800 + (c - 0x10000) / 0x400) ∷ (0xdc00 + (c - 0x10000) % 0x400) ∷ []

-- A literal. It stays shut in proofs.
unfoldable pub text : String → Text
unfolding units
text String.[] = []
text (String.◌∷◌ c s) = units (code c) ++ text s

-- `a === b` on strings.
unfoldable pub text_eq : Text → Text → Bool
text_eq [] [] = true
text_eq (x ∷ xs) (y ∷ ys) = x == y && text_eq xs ys
text_eq _ _ = false

-- `a < b` on strings: by code units.
unfoldable pub text_lt : Text → Text → Bool
text_lt [] [] = false
text_lt [] (y ∷ ys) = true
text_lt (x ∷ xs) [] = false
text_lt (x ∷ xs) (y ∷ ys) = ltb x y || (x == y && text_lt xs ys)

pub text_eq_iff : (a b : Text) → (text_eq a b ≡ true) ↔ (a ≡ b)
unfolding text_eq
text_eq_iff [] [] = ground arith
text_eq_iff [] (y ∷ ys) = ground arith
text_eq_iff (x ∷ xs) [] = ground arith
text_eq_iff (x ∷ xs) (y ∷ ys) = ground (arith, text_eq_iff xs ys)

pub text_lt_trans : (a b c : Text) → text_lt b a ≡ false → text_lt c b ≡ false → text_lt c a ≡ false
unfolding text_lt
text_lt_trans [] [] [] h k = refl
text_lt_trans [] [] (z ∷ zs) h k = refl
text_lt_trans [] (y ∷ ys) [] h k = ground arith
text_lt_trans [] (y ∷ ys) (z ∷ zs) h k = refl
text_lt_trans (x ∷ xs) [] [] h k = ground arith
text_lt_trans (x ∷ xs) [] (z ∷ zs) h k = ground arith
text_lt_trans (x ∷ xs) (y ∷ ys) [] h k = ground arith
text_lt_trans (x ∷ xs) (y ∷ ys) (z ∷ zs) h k = ground (arith, text_lt_trans xs ys zs)

pub text_lt_asymm : (a b : Text) → text_lt a b ≡ true → text_lt b a ≡ false
unfolding text_lt
text_lt_asymm [] [] h = refl
text_lt_asymm [] (y ∷ ys) h = refl
text_lt_asymm (x ∷ xs) [] h = ground arith
text_lt_asymm (x ∷ xs) (y ∷ ys) h = ground (arith, text_lt_asymm xs ys)

-- ECMAScript's WhiteSpace and LineTerminator, which `trim` removes.
unfoldable pub is_whitespace : ℕ → Bool
is_whitespace c =
    (leb 9 c && leb c 13)
    || c == 32
    || c == 0xa0
    || c == 0x1680
    || (leb 0x2000 c && leb c 0x200a)
    || c == 0x2028
    || c == 0x2029
    || c == 0x202f
    || c == 0x205f
    || c == 0x3000
    || c == 0xfeff

unfoldable pub trim_start : Text → Text
trim_start [] = []
trim_start (c ∷ s) = let rest = trim_start s in if is_whitespace c then rest else c ∷ s

abbrev pub trim_last : ℕ → Text → Text
trim_last c [] = if is_whitespace c then [] else c ∷ []
trim_last c (d ∷ s) = c ∷ d ∷ s

unfoldable pub trim_end : Text → Text
trim_end [] = []
trim_end (c ∷ s) = trim_last c (trim_end s)

-- `s.trim()`.
unfoldable pub trim : Text → Text
unfolding trim_start trim_end
trim s = trim_end (trim_start s)

-- `parts.join(separator)`.
unfoldable pub join : Text → List Text → Text
join separator [] = []
join separator (p ∷ []) = p
join separator (p ∷ q ∷ ps) = p ++ separator ++ join separator (q ∷ ps)

-- `not (b < a)` is a total order.
pub text-IsOrder : IsOrder (λ a b. not (text_lt b a))
text-IsOrder = record {
  total = λ a b h. ground (arith, text_lt_asymm b a);
  trans = λ a b c h k. ground (arith, text_lt_trans a b c);
}

text_tests :
    (text "aé𝔸" ≡ 97 ∷ 233 ∷ 0xd835 ∷ 0xdd38 ∷ [])
    × (text_lt (text "𝔸") (text "ﬀ") ≡ true)
    × (trim (text " a b ") ≡ text "a b")
unfolding text text_lt trim is_whitespace
text_tests = (refl, refl, refl)
