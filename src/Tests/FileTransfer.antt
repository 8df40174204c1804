-- ===== src/Tests/FileTransfer.antt =====
-- week06: a file of two words.
use networks_course.Prelude.{Bytes, List, [], ◌∷◌, ok, codes, c_str, read, write}
use networks_course.Hash.{char_value, hash_step, hash_from, polynomial_hash}
use networks_course.Week06.Hashmap.{
  hashmap_create, add_to_chain, hashmap_add_element, hashmap_get_entries,
}
use networks_course.Week06.Vector.{
  vector_create, grow, move_up, insert_grown, vector_insert, vector_append,
}
use networks_course.Week06.Json.Interface.{
  json_hash_fn, create_json_object, create_json_string, create_json_array, json_array_append,
  append_pairs, json_object_to_array, copies_key, json_set_property,
}
use networks_course.Week06.Json.Serializer.{quoted, join, serialize_json_at, serialize_json}
use networks_course.Week06.Json.Value.{Json, null, string}
use networks_course.Week06.Handlers.{Packing}
use networks_course.Tests.Peers.{machine, result_or}

abbrev packing : Packing
packing = record { pack = λ type payload. ok (string type); pack_from = ok null }

-- An object with one property, and the text of a message with a body.
abbrev object_with : Bytes → Json → Json
object_with key v = result_or null (json_set_property machine create_json_object key v)

abbrev framed_text : Json → Bytes
framed_text body = result_or [] (serialize_json machine (object_with (codes "body") body))

abbrev word_payload : Bytes → Json
word_payload word = object_with (codes "next_word") (create_json_string word)

wire_program : Unit {0}
unfolding json_set_property create_json_object hashmap_create copies_key hashmap_add_element
    add_to_chain json_hash_fn polynomial_hash hash_from hash_step char_value read write
    create_json_string c_str create_json_array vector_create json_array_append vector_append
    vector_insert grow move_up insert_grown serialize_json serialize_json_at quoted join
    json_object_to_array append_pairs hashmap_get_entries
wire_program = tt

abbrev words : List Bytes
words = codes "to" ∷ codes "be" ∷ []
