-- ===== src/Mcp/Json.antt =====
-- The values of serde_json that the program looks into. A number is kept as its text.
use microsoft_agt_rust.Prelude.{
  Bool, true, false, String, Option, none, some, str_eq, if◌then◌else◌, ℕ,
}
use text.Mathlib.Text.{find?}

mutual
  pub data Value : Type 0 where
    null : Value
    boolean : Bool → Value
    number : String → Value
    string : String → Value
    array : Items → Value
    object : Fields → Value

  pub data Items : Type 0 where
    nil : Items
    cons : Value → Items → Items

  pub data Fields : Type 0 where
    end : Fields
    field : String → Value → Fields → Fields

unfoldable pub get_field : String → Fields → Option Value
get_field k end = none
get_field k (field j v fs) = if str_eq j k then some v else get_field k fs

-- `value.get(key)`
unfoldable pub get : String → Value → Option Value
unfolding get_field
get k (object fs) = get_field k fs
get k null = none
get k (boolean b) = none
get k (number n) = none
get k (string s) = none
get k (array xs) = none

-- `as_str`
unfoldable pub as_str : Value → Option String
as_str (string s) = some s
as_str null = none
as_str (boolean b) = none
as_str (number n) = none
as_str (array xs) = none
as_str (object fs) = none

text_of : Option Value → Option String
unfolding as_str
text_of none = none
text_of (some v) = as_str v

-- `args.get(name).and_then(|v| v.as_str())`
unfoldable pub str_arg : String → Value → Option String
unfolding get text_of
str_arg name args = text_of (get name args)

found : Option ℕ → Bool
found none = false
found (some i) = true

-- `val.contains(pattern)`, where there is a value.
unfoldable pub has_pattern : String → Option String → Bool
unfolding found
has_pattern pattern none = false
has_pattern pattern (some val) = found (find? val pattern)
