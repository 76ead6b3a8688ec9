-- ===== src/Llm/Gemini/Schemas.antt =====
-- packages/agent/pkg/llm/gemini/provider.go, convertSchema: JSON schemas for genai. A type assertion
-- is a case of the value.
use gm_agent.Prelude.{String, List, [], ◌∷◌, ◌==◌, if◌then◌else◌}
use gm_agent.Prelude.Dict.{Dict}
use gm_agent.Types.Json.{Json, Items, Members, text, array, object, nil, cons, end, member}

pub data GenaiType : Type 0 where
  string_type number_type integer_type boolean_type array_type object_type : GenaiType

-- A map of properties that is nil is `none`.
mutual
  pub data Schema : Type 0 where
    schema : GenaiType → String → Properties → List String → Schema

  pub data Properties : Type 0 where
    nil_map : Properties
    empty : Properties
    property : String → Schema → Properties → Properties

unfoldable pub to_genai_type : String → GenaiType
to_genai_type t =
    if t == "string"
    then string_type
    else if t == "number"
    then number_type
    else if t == "integer"
    then integer_type
    else if t == "boolean"
    then boolean_type
    else if t == "array"
    then array_type
    else if t == "object"
    then object_type
    else string_type

unfoldable pub text_or_empty : Json → String
text_or_empty (text s) = s
text_or_empty _ = ""

unfoldable pub get_string : Members → String → String
unfolding text_or_empty
get_string end key = ""
get_string (member name v rest) key =
    let later = get_string rest key in if name == key then text_or_empty v else later

-- The texts of a `[]any`; a `[]string` is another type.
unfoldable pub texts_of : Items → List String
texts_of nil = []
texts_of (cons (text s) rest) = s ∷ texts_of rest
texts_of (cons _ rest) = texts_of rest

unfoldable pub required_in : Json → List String
unfolding texts_of
required_in (array items) = texts_of items
required_in _ = []

unfoldable pub required_of : Members → List String
unfolding required_in
required_of end = []
required_of (member name v rest) =
    let later = required_of rest in if name == "required" then required_in v else later

unfoldable mutual
  unfolding to_genai_type get_string required_of

  pub properties_of : Members → Properties
  properties_of end = nil_map
  properties_of (member name (object ps) rest) =
      let found = convert_all ps in
      let later = properties_of rest in if name == "properties" then found else later
  properties_of (member name _ rest) =
      let later = properties_of rest in if name == "properties" then nil_map else later

  pub convert_all : Members → Properties
  convert_all end = empty
  convert_all (member name (object ms) rest) =
      property name
        (schema (to_genai_type (get_string ms "type")) (get_string ms "description")
          (properties_of ms) (required_of ms))
        (convert_all rest)
  convert_all (member name _ rest) = convert_all rest

unfoldable pub convert_schema : Members → Schema
unfolding to_genai_type get_string required_of properties_of
convert_schema ms =
    schema (to_genai_type (get_string ms "type")) (get_string ms "description") (properties_of ms)
      (required_of ms)

unfoldable pub members_of : Dict Json → Members
members_of [] = end
members_of ((name, v) ∷ entries) = member name v (members_of entries)
