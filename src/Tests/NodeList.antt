-- ===== src/Tests/NodeList.antt =====
-- week06: a list of one node that is asked for and answered.
use networks_course.Prelude.{
  ◌≡◌, refl, pos, [], map, Option, none, some, ok, read, write, codes, c_str, arith,
}
use networks_course.Hash.{char_value, hash_step, hash_from, polynomial_hash}
use networks_course.Week06.Known.{known_node, get_known_nodes}
use networks_course.Week06.Hashmap.{
  hashmap_create, hashmap_get_entries, add_to_chain, hashmap_add_element,
}
use networks_course.Week06.Vector.{
  vector_create, grow, move_up, insert_grown, vector_insert, vector_append,
}
use networks_course.Week06.Json.Value.{Json, null}
use networks_course.Week06.Json.Interface.{
  json_hash_fn, create_json_object, create_json_string, json_get_property, create_json_array,
  json_array_append, copies_key, json_set_property, append_pairs, json_object_to_array,
  json_destroy,
}
use networks_course.Week06.Json.Interface.Objects.{
  json_set_property-Extends, create_json_object-IsObject, json_get_property-create,
}
use networks_course.Week06.Serializers.{serialize_node}
use networks_course.Week06.Handlers.{Packing, Handled, append_nodes, get_node_list_handler}
use networks_course.Week06.Bootstrap.{Remote, b_get_known_nodes}
use networks_course.Week06.Bootstrap.NodeList.{
  node_of, AllSendable, b_get_known_nodes-get_node_list_handler,
}
use networks_course.Tests.Peers.{machine, machine-Distinct, result_or, tables}

-- A pack that makes an object with the payload.
abbrev packing : Packing
packing = record {
  pack = λ type payload. json_set_property machine create_json_object (codes "payload") payload;
  pack_from = ok null;
}

abbrev handled : Handled
handled =
    result_or
      (record { response = none; keep_alive = pos 0; tables = tables; sent = []; upload = none })
      (get_node_list_handler machine packing tables)

abbrev value_or_null : Option Json → Json
value_or_null (some value) = value
value_or_null none = null

abbrev packed : Json
packed = value_or_null handled.response

abbrev request : Json
request = result_or null (packing.pack (codes "get_node_list") null)

-- Whatever is asked for, the list is answered.
abbrev remote : Remote
remote = record {
  connect_plain = λ ip port. pos 4;
  send_receive_sock = λ sock ip request'. ok (some packed, none);
}

list_program : Unit {0}
unfolding serialize_node json_set_property copies_key create_json_object hashmap_create
    hashmap_add_element add_to_chain json_hash_fn polynomial_hash hash_from hash_step char_value
    read write create_json_string c_str known_node get_known_nodes hashmap_get_entries
    get_node_list_handler append_nodes create_json_array vector_create json_array_append
    vector_append vector_insert grow move_up insert_grown json_destroy json_object_to_array
    append_pairs
list_program = tt

answered : get_node_list_handler machine packing tables ≡ ok handled
unfolding list_program
answered = refl

packed_answer : handled.response ≡ some packed
unfolding list_program
packed_answer = refl

asked : packing.pack (codes "get_node_list") null ≡ ok request
unfolding list_program
asked = refl

destroyed : json_destroy machine packed ≡ ok tt
unfolding list_program
destroyed = refl

sendable : AllSendable (get_known_nodes tables.known_nodes)
unfolding list_program
sendable = (
  record { name_text = refl; ip_text = refl; ip_fits = omega arith; port_fits = omega arith },
  tt,
)

arrives :
    (payload : Json)
    → packing.pack (codes "node_list_response") payload ≡ ok packed
    → json_get_property packed (codes "payload") ≡ some payload
arrives payload e =
    (json_set_property-Extends machine machine-Distinct create_json_object (codes "payload") payload
      packed create_json_object-IsObject e (json_get_property-create (codes "payload"))).self

b_get_known_nodes-get_node_list_handler_example :
    b_get_known_nodes machine packing remote (pos 4) (codes "10.0.0.9")
    ≡ ok (map node_of (get_known_nodes tables.known_nodes))
b_get_known_nodes-get_node_list_handler_example =
    b_get_known_nodes-get_node_list_handler machine packing machine-Distinct tables handled packed
      remote (pos 4) (codes "10.0.0.9") request packed none sendable answered packed_answer asked
      refl arrives destroyed
