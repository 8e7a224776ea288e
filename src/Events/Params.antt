-- ===== src/Events/Params.antt =====
-- canonicalParams.ts: the canonical text of the parameters of a tool call.
use agentskeptic.Prelude.{Bool, true, false, not, List, [], ◌∷◌, ◌++◌, map, if◌then◌else◌}
use agentskeptic.Prelude.Sort.{sort}
use agentskeptic.Js.Json.{
  Json, Items, Fields, undefined, null, boolean, number, string, array, object, other, no_items,
  item, no_fields, field,
}
use agentskeptic.Js.{Text, Runtime, text, text_lt, join, is_finite}

abbrev boolean_json : Bool → Text
boolean_json true = text "true"
boolean_json false = text "false"

-- The order of the keys: not greater by code units.
abbrev key_le : Text × Text → Text × Text → Bool
key_le a b = not (text_lt b.0 a.0)

module _ (js : Runtime) where
  abbrev field_json : Text × Text → Text
  field_json (k, v) = js.json_text k ++ text ":" ++ v

  unfoldable mutual
    pub canonical_json_for_params : Json → Text
    canonical_json_for_params null = text "null"
    canonical_json_for_params (boolean b) = boolean_json b
    canonical_json_for_params (number n) = if is_finite n then js.number_text n else text "null"
    canonical_json_for_params (string s) = js.json_text s
    canonical_json_for_params (array xs) =
        text "[" ++ join (text ",") (canonical_items xs) ++ text "]"
    canonical_json_for_params (object fs) =
        text "{" ++ join (text ",") (map field_json (sort key_le (canonical_fields fs))) ++ text "}"
    canonical_json_for_params undefined = text "__non_json_params:undefined__"
    canonical_json_for_params (other kind shown) = text "__non_json_params:" ++ kind ++ text "__"

    canonical_items : Items → List Text
    canonical_items no_items = []
    canonical_items (item x xs) = canonical_json_for_params x ∷ canonical_items xs

    -- Each key with the canonical text of its value.
    canonical_fields : Fields → List (Text × Text)
    canonical_fields no_fields = []
    canonical_fields (field k x fs) = (k, canonical_json_for_params x) ∷ canonical_fields fs
