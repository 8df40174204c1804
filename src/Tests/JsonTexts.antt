-- ===== src/Tests/JsonTexts.antt =====
-- week06: a value that is written and read again.
use networks_course.Prelude.{
  ◌≡◌, refl, Bytes, pos, [], none, ok, read, write, replicate, codes, c_str, arith,
}
use networks_course.Week06.Json.Value.{Json, of_slots, null, integer, array, object, slot}
use networks_course.Week06.Json.Interface.{
  create_json_object, create_json_string, create_json_array, json_array_append, append_pairs,
  json_object_to_array,
}
use networks_course.Week06.Vector.{
  vector_create, grow, move_up, insert_grown, vector_insert, vector_append,
}
use networks_course.Week06.Hashmap.{hashmap_create, hashmap_get_entries}
use networks_course.Week06.Json.Tokenizer.Texts.{IsPlain}
use networks_course.Week06.Json.Serializer.{
  decimal, print_int, quoted, join, serialize_json_at, serialize_json,
}
use networks_course.Week06.Json.Parser.{deserialize_json, parsed}
use networks_course.Week06.Json.Parser.Trees.{
  Tree, l_null, l_int, l_array, l_object, only, more, only_member,
}
use networks_course.Week06.Json.RoundTrip.Made.{
  Made, deserialize_json-serialize_json, made_null, made_integer, made_array, made_object,
  created_array, appended, created_object,
}
use networks_course.Tests.Json.{machine, machine-Distinct, no_properties, with_ab, first_set}

abbrev one_element : Json
one_element = array (slot (integer (pos 12)) (of_slots (replicate 5 none))) 1 3

abbrev two_elements : Json
two_elements =
    array (slot (integer (pos 12)) (slot (object with_ab) (of_slots (replicate 4 none)))) 2 3

abbrev text_of_two : Bytes
text_of_two = codes "[12,{\"ab\":null}]"

array_program : Unit {0}
unfolding create_json_array vector_create json_array_append vector_append vector_insert grow move_up
    insert_grown read write
array_program = tt

first_appended :
    json_array_append machine (create_json_array machine) (integer (pos 12)) ≡ ok one_element
unfolding array_program
first_appended = refl

second_appended : json_array_append machine one_element (object with_ab) ≡ ok two_elements
unfolding array_program
second_appended = refl

two_elements-text : serialize_json machine two_elements ≡ ok text_of_two
unfolding array_program serialize_json serialize_json_at print_int decimal quoted join
    json_object_to_array append_pairs hashmap_get_entries create_json_string c_str
two_elements-text = refl

created_object_is : object no_properties ≡ create_json_object
unfolding create_json_object hashmap_create
created_object_is = refl

ab-IsPlain : IsPlain (codes "ab")
unfolding IsPlain
ab-IsPlain = (λ e. omega arith, λ e. omega arith, (λ e. omega arith, λ e. omega arith, tt))

ab-c_str : c_str (codes "ab") ≡ codes "ab"
unfolding c_str
ab-c_str = refl

with_ab-Made : Made machine (object with_ab)
with_ab-Made =
    made_object (object no_properties) (codes "ab") null (object with_ab)
      (created_object _ created_object_is) ab-IsPlain ab-c_str made_null first_set

two_elements-Made : Made machine two_elements
two_elements-Made = made_array two_elements (
    appended one_element (object with_ab) two_elements
      (appended (create_json_array machine) (integer (pos 12)) one_element (created_array _ refl)
        (made_integer 12 (omega arith)) first_appended)
      with_ab-Made second_appended)

deserialize_json-serialize_json_example :
    deserialize_json machine text_of_two ≡ parsed two_elements []
deserialize_json-serialize_json_example =
    deserialize_json-serialize_json machine machine-Distinct two_elements text_of_two
      two_elements-Made two_elements-text (omega arith)

abbrev two_tree : Tree
two_tree = l_array (more (l_int (codes "12")) (only (l_object (only_member (codes "ab") l_null))))
