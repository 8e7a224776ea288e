-- ===== src/Js/Json.antt =====
-- Values of type `unknown` inside the parameters of a tool call: what JSON can hold, `undefined`, and other
-- values. The fields of an object are distinct, and are its own.
use agentskeptic.Prelude.{ℕ, zero, suc, Bool, if◌then◌else◌}
use agentskeptic.Js.Strings.{Text, text_eq}
use agentskeptic.Js.Numbers.{Number}

mutual
  pub data Json : Type 0 where
    undefined : Json
    null : Json
    boolean : Bool → Json
    number : Number → Json
    string : Text → Json
    array : Items → Json
    object : Fields → Json
    -- Any other value, by its `typeof` and its `String(value)`.
    other : Text → Text → Json

  pub data Items : Type 0 where
    no_items : Items
    item : Json → Items → Items

  pub data Fields : Type 0 where
    no_fields : Fields
    field : Text → Json → Fields → Fields

-- `object[key]`.
unfoldable pub field_at : Text → Fields → Json
field_at k no_fields = undefined
field_at k (field j v fs) = let rest = field_at k fs in if text_eq j k then v else rest

-- `array[n]`, which is undefined from the length on.
unfoldable pub item_at : ℕ → Items → Json
item_at n no_items = undefined
item_at zero (item x xs) = x
item_at (suc n) (item x xs) = item_at n xs
