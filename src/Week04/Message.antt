-- ===== src/Week04/Message.antt =====
-- The structs of week04/common.h and week05/common.h as their bytes on a little-endian machine, and
-- the greeting of week04/server.c and week05/server.c.

pub mod Laws
use networks_course.Prelude.{
  ℕ, ◌%◌, ◌^◌, Bytes, Bool, false, ◌||◌, [], ◌∷◌, ◌++◌, Run, ok, ◌>>=◌, ◌>>◌, in_bounds, take, drop,
  codes, c_str, ◌==◌,
}
use networks_course.Week06d.Wire.{to_le, from_le, strcpy}
use networks_course.Week06.Json.Serializer.{decimal}

-- `test_struct_t`: the arrays `name` and `group` of 1024 bytes each, with what stands in them.
pub record TestStruct : Type 0 where
  pub name : Bytes
  pub age : ℕ
  pub group : Bytes

abbrev pub field_size : ℕ
field_size = 1024

abbrev pub message_size : ℕ
message_size = 4096

abbrev pub data_buffer_size : ℕ
data_buffer_size = 10240

-- The bytes of a `test_struct_t`.
unfoldable pub struct_bytes : TestStruct → Bytes
struct_bytes s = s.name ++ (to_le 4 s.age ++ s.group)

-- What a user enters: two words and a number, as `scanf` reads them.
pub record Student : Type 0 where
  pub name : Bytes
  pub age : ℕ
  pub group : Bytes

-- The three `scanf` of a client.
unfoldable pub enter : TestStruct → Student → Run TestStruct
enter client_data student = do
  name ← strcpy client_data.name student.name
  group ← strcpy client_data.group student.group
  ok (record { name = name; age = student.age % 2 ^ 32; group = group })

-- Whether a string that starts here ends in the array.
unfoldable pub terminated : Bytes → Bool
terminated [] = false
terminated (c ∷ cs) = c == 0 || terminated cs

-- A string that is read from an array: without a terminator it is read behind the array.
unfoldable pub read_string : Bytes → Run Bytes
read_string bytes = in_bounds (terminated bytes) >> ok (c_str bytes)

-- The text that `sprintf` makes.
unfoldable pub greeting : Bytes → ℕ → Bytes → Bytes
greeting name age group =
    codes "Hello "
    ++ (name
        ++ (codes ", who is "
            ++ (decimal 10 age
                ++ (codes " years old, and studies in " ++ (group ++ codes " group\n")))))

-- `sprintf(result.message, …)` on the fields of the struct in the data buffer: the array afterwards.
unfoldable pub greet : Bytes → Bytes → Run Bytes
greet data_buffer message = do
  name ← read_string data_buffer
  group ← read_string (drop 1028 data_buffer)
  strcpy message (greeting name (from_le (take 4 (drop 1024 data_buffer))) group)
