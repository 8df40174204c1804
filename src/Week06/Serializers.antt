-- ===== src/Week06/Serializers.antt =====
-- week06/src/serializers.c: nodes as JSON objects, and how the fields of a value are read.
pub mod RoundTrip
use networks_course.Prelude.{
  ℕ, ◌-◌, ◌%◌, ◌^◌, Bytes, ℤ, pos, negsuc, Option, Run, ok, fault, ◌>>=◌, ◌>>◌, access, in_bounds,
  length, codes, ltb,
}
use networks_course.Week06.Machine.{Machine}
use networks_course.Week06.Known.{Node}
use networks_course.Week06.Json.Value.{Json, boolean, integer, string}
use networks_course.Week06.Json.Interface.{
  create_json_object, create_json_string, json_get_property, json_set_property,
}

-- `value->string_value`, where it is read as a string: it is null in a value that is no string.
unfoldable pub string_value : Json → Run Bytes
string_value (string text) = ok text
string_value _ = fault

-- `value->int_value`
unfoldable pub int_value : Json → ℤ
int_value (integer n) = n
int_value (boolean n) = n
int_value _ = pos 0

-- An `int` as an `unsigned short`.
unfoldable pub to_uint16 : ℤ → ℕ
to_uint16 (pos n) = n % 2 ^ 16
to_uint16 (negsuc n) = 2 ^ 16 - 1 - n % 2 ^ 16

-- `json_get_property` on a pointer that may be null, where the result must not be null.
unfoldable pub property : Option Json → Bytes → Run Json
property value key = access value >>= λ object'. access (json_get_property object' key)

-- `strcpy` of a string property into an array of `n` bytes.
unfoldable pub copy_property : ℕ → Option Json → Bytes → Run Bytes
copy_property n value key = do
  found ← property value key
  text ← string_value found
  in_bounds (ltb (length text) n)
  ok text

unfoldable pub serialize_node : Machine → Node → Run Json
serialize_node m node = do
  named ← json_set_property m create_json_object (codes "name") (create_json_string node.name)
  located ← json_set_property m named (codes "ip") (create_json_string node.ip)
  json_set_property m located (codes "listen_port") (integer (pos node.port))

unfoldable pub deserialize_node : Option Json → Run Node
deserialize_node value = do
  name ← copy_property 20 value (codes "name")
  ip ← copy_property 20 value (codes "ip")
  port ← property value (codes "listen_port")
  ok (record { name = name; ip = ip; port = to_uint16 (int_value port) })
