-- ===== src/Js/Values.antt =====
-- Values of type `unknown` as a database driver returns them, plain objects, and the built-ins
-- that the sources call and whose results they only compare or show.
use agentskeptic.Prelude.{Bool, Option, none, some, List, [], ◌∷◌, if◌then◌else◌}
use agentskeptic.Prelude.Int.{ℤ}
use agentskeptic.Js.Strings.{Text, text_eq}
use agentskeptic.Js.Numbers.{Number}

pub data Value : Type 0 where
  undefined : Value
  null : Value
  boolean : Bool → Value
  number : Number → Value
  bigint : ℤ → Value
  string : Text → Value
  -- A `Date`, by its `toISOString()`; `none` is an invalid date. The text is `String(date)`.
  date : Option Text → Text → Value
  -- Any other object, by `String(object)`.
  object : Text → Value
  -- A function or a symbol, by `String(value)`.
  other : Text → Value

-- A plain object with its own fields in order. Inherited names are not among them.
abbrev pub Row : Type 0
Row = List (Text × Value)

-- `row[key]`, `none` where the object has no such field.
unfoldable pub row_get : Text → Row → Option Value
row_get k [] = none
row_get k ((j, v) ∷ r) = if text_eq j k then some v else row_get k r

-- `row.v ?? row.V` and other reads, where a missing field reads as `undefined`.
abbrev pub or_undefined : Option Value → Value
or_undefined none = undefined
or_undefined (some v) = v

-- Built-in functions that the sources call.
pub record Runtime : Type 0 where
  -- `String(n)`, which is `JSON.stringify(n)` of a finite number.
  pub number_text : Number → Text
  -- `n.toString()` of a bigint.
  pub bigint_text : ℤ → Text
  -- `JSON.stringify(s)` of a string.
  pub json_text : Text → Text
  -- `JSON.parse(s)` where the result is a number; `none` where it is another value or throws.
  pub parse_number : Text → Option Number
  -- `s.toLowerCase()`.
  pub to_lower : Text → Text
  -- `a.localeCompare(b) <= 0`.
  pub locale_le : Text → Text → Bool
