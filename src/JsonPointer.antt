-- ===== src/JsonPointer.antt =====
-- jsonPointer.ts: reading a value at an RFC 6901 pointer.
pub mod RoundTrip
use agentskeptic.Prelude.{
  ℕ, ◌+◌, ◌*◌, ◌-◌, Bool, true, false, not, ◌&&◌, ◌||◌, Option, none, some, List, [], ◌∷◌, ◌++◌,
  map, ltb, ◌==◌, if◌then◌else◌,
}
use agentskeptic.Js.{Text, Runtime, text}
use agentskeptic.Js.Json.{
  Json, undefined, null, boolean, number, string, array, object, other, field_at, item_at,
}
use agentskeptic.ResolveExpectation.Outcome.{Outcome, ok, thrown}

abbrev pub slash : ℕ
slash = 47

abbrev pub tilde : ℕ
tilde = 126

-- `s.split("/")`: the piece that `c` belongs to, and the pieces after it.
abbrev pub add_to_first : ℕ → List Text → List Text
add_to_first c [] = (c ∷ []) ∷ []
add_to_first c (p ∷ ps) = (c ∷ p) ∷ ps

unfoldable pub split_slash : Text → List Text
split_slash [] = [] ∷ []
split_slash (c ∷ s) =
    let rest = split_slash s in if c == slash then [] ∷ rest else add_to_first c rest

-- `s.replace(/ab/g, "r")` for two different units `a` and `b`: from the left, none inside another.
unfoldable pub replace_pair : ℕ → ℕ → ℕ → Text → Text
replace_pair a b r [] = []
replace_pair a b r (x ∷ []) = x ∷ []
replace_pair a b r (x ∷ y ∷ s) = elim (x == a && y == b) [
  | true ↦ r ∷ replace_pair a b r s
  | false ↦ x ∷ replace_pair a b r (y ∷ s)
]

-- `p.replace(/~1/g, "/").replace(/~0/g, "~")`.
unfoldable pub unescape_token : Text → Text
unfolding replace_pair
unescape_token p = replace_pair tilde 48 tilde (replace_pair tilde 49 slash p)

-- The digits of a number that is printed without a leading zero.
abbrev pub is_digit : ℕ → Bool
is_digit c = not (ltb c 48) && not (ltb 57 c)

unfoldable pub digits_value : ℕ → Text → Option ℕ
digits_value n [] = some n
digits_value n (c ∷ s) =
    let rest = digits_value (n * 10 + (c - 48)) s in if is_digit c then rest else none

-- `Number.parseInt(tok, 10)` where `String(idx) === tok` and `idx >= 0`. Where the number is too large to be exact it is beyond
-- the length of every array.
unfoldable pub array_index : Text → Option ℕ
unfolding digits_value
array_index [] = none
array_index (c ∷ []) = digits_value 0 (c ∷ [])
array_index (c ∷ d ∷ s) = if c == 48 then none else digits_value 0 (c ∷ d ∷ s)

abbrev pub item_if : Option ℕ → Json → Json
item_if none cur = undefined
item_if (some n) (array xs) = item_at n xs
item_if (some n) cur = undefined

-- One round of the walk. From `undefined` on the value stays undefined.
unfoldable pub step : Json → Text → Json
unfolding array_index
step (array xs) tok = item_if (array_index tok) (array xs)
step (object fs) tok = field_at tok fs
step undefined tok = undefined
step null tok = undefined
step (boolean b) tok = undefined
step (number n) tok = undefined
step (string s) tok = undefined
step (other kind shown) tok = undefined

unfoldable pub walk : Json → List Text → Json
unfolding step
walk cur [] = cur
walk cur (tok ∷ parts) = walk (step cur tok) parts

unfoldable pub get_pointer : Runtime → Json → Text → Outcome Json
unfolding walk split_slash unescape_token
get_pointer js doc [] = ok doc
get_pointer js doc (c ∷ s) =
    if c == slash
    then ok (walk doc (map unescape_token (split_slash s)))
    else thrown (text "Invalid JSON Pointer: must start with /, got " ++ js.json_text (c ∷ s))
