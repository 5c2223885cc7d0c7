-- ===== src/Agent/Service/Json.antt =====
-- validateInput, validateOutput and validateRequiredFields of internal/agent/service.go. What
-- encoding/json makes of a text is a parameter.
use blender_shot_preview.Prelude.{
  String, Bool, true, false, not, ◌&&◌, ◌||◌, Option, none, some, List, [], ◌∷◌, Result, ok, err,
  ◌>>◌, refuse_if, ◌==◌, if◌then◌else◌, lookup,
}
use blender_shot_preview.Agent.Types.{AgentDefinition}

-- A decoded value, of which only its kind is read, and of a number whether it is the float64 of its
-- int64.
pub data JsonValue : Type 0 where
  json_null json_boolean json_string json_array json_object : JsonValue
  json_number : Bool → JsonValue

-- What validateRequiredFields reads of a schema; the type of a property by its name.
pub record Schema : Type 0 where
  pub schema_type : String
  pub required : List String
  pub properties : List (String × String)

-- encoding/json: Unmarshal into map[string]any, which makes an empty map of null, and into the
-- schema's structure, and Marshal of a definition.
pub record Codec : Type 0 where
  pub parse_map : String → Option (List (String × JsonValue))
  pub parse_schema : String → Option Schema
  pub marshal : AgentDefinition → Option String

-- matchesJSONType
unfoldable pub matches_json_type : JsonValue → String → Bool
matches_json_type json_null expected = false
matches_json_type json_boolean expected = expected == "boolean"
matches_json_type json_string expected = expected == "string"
matches_json_type json_array expected = expected == "array"
matches_json_type json_object expected = expected == "object"
matches_json_type (json_number integral) expected =
    expected == "number" || (expected == "integer" && integral)

abbrev pub is_there : Option JsonValue → Bool
is_there none = false
is_there (some v) = true

abbrev pub has_required : List String → List (String × JsonValue) → Bool
has_required [] value = true
has_required (field ∷ fields) value = is_there (lookup field value) && has_required fields value

abbrev pub fits : Option JsonValue → String → Bool
fits none expected = true
fits (some v) expected = expected == "" || matches_json_type v expected

abbrev pub has_types : List (String × String) → List (String × JsonValue) → Bool
has_types [] value = true
has_types ((field, expected) ∷ properties) value =
    fits (lookup field value) expected && has_types properties value

-- validateRequiredFields, past the decoding of the schema
abbrev pub check_fields : Schema → List (String × JsonValue) → Result String (Unit {0})
check_fields schema value =
    refuse_if (not (has_required schema.required value)) "missing required field"
    >> refuse_if (not (schema.schema_type == "") && not (schema.schema_type == "object"))
        "schema root type must be object"
    >> refuse_if (not (has_types schema.properties value)) "field has another type"

abbrev pub checked : Option Schema → List (String × JsonValue) → Result String (Unit {0})
checked none value = err "invalid schema"
checked (some schema) value = check_fields schema value

abbrev pub decoded : Codec → String → Option (List (String × JsonValue)) → Result String (Unit {0})
decoded c schema none = err "must match configured JSON schema"
decoded c schema (some value) = checked (c.parse_schema schema) value

-- validateInput and validateOutput; the texts of the errors are shortened.
unfoldable pub validate_json : Codec → String → String → Result String (Unit {0})
validate_json c schema text = if schema == "" then ok tt else decoded c schema (c.parse_map text)
