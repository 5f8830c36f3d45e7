-- ===== src/Json.antt =====
-- `serde_json::Value`, and the methods of it that the program calls.
use local_mcp.Common.{Bool, Option, none, some, List, [], ◌∷◌, if◌then◌else◌}
use local_mcp.Common.Str.{Str, str_eq}

mutual
  pub data Json : Type 0 where
    null : Json
    boolean : Bool → Json
    -- as it is printed
    number : Str → Json
    string : Str → Json
    array : Items → Json
    object : Fields → Json

  pub data Items : Type 0 where
    end : Items
    item : Json → Items → Items

  pub data Fields : Type 0 where
    close : Fields
    field : Str → Json → Fields → Fields

abbrev get_field : Str → Fields → Option Json
get_field key close = none
get_field key (field k v rest) = if str_eq k key then some v else get_field key rest

-- `value.get(key)`
unfoldable pub get : Str → Json → Option Json
get key (object fields) = get_field key fields
get key _ = none

-- `Value::as_array`
abbrev pub as_array : Json → Option Items
as_array (array items) = some items
as_array _ = none

-- `items.iter().filter_map(Value::as_str)`
abbrev pub strings : Items → List Str
strings end = []
strings (item (string s) items) = s ∷ strings items
strings (item _ items) = strings items

-- `json!([...])` of strings
abbrev pub of_strings : List Str → Items
of_strings [] = end
of_strings (s ∷ rest) = item (string s) (of_strings rest)
