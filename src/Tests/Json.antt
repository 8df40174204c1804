-- ===== src/Tests/Json.antt =====
-- week06: JSON texts and objects.
use networks_course.Prelude.{
  ◌+◌, ◌≡◌, ◌≢◌, refl, Bytes, pos, false, [], ◌∷◌, none, some, ok, read, set, replicate, codes,
  str_eq,
}
use networks_course.Hash.{polynomial_hash, hash_from, hash_step, char_value}
use networks_course.Week06.Machine.{Machine, Distinct}
use networks_course.Week06.Hashmap.{
  hashmap_add_element, add_to_chain, hashmap_look_up_element, look_up_chain,
}
use networks_course.Week06.Json.Value.{null, integer, object, Table, of_table}
use networks_course.Week06.Json.Interface.{
  json_hash_fn, json_hash_compare_fn, copies_key, json_set_property, json_get_property,
}
use networks_course.Week06.Json.Interface.Properties.{
  json_get_property-json_set_property, json_set_property-twice,
}
use networks_course.Week06.Json.Tokenizer.{
  t_null, t_int, t_left_bracket, t_right_bracket, t_comma, t_colon, tokenize_json, tokenize,
  next_token, emit, literal, span, strchr, is_prefix, string_token, string_body, number,
}
use networks_course.Week06.Json.Parser.{parse_json, parse_fuel}
use networks_course.Week06.Json.Parser.Fuel.{Within, parse_json_total}

-- An allocator that gives some bytes more than are asked for.
abbrev pub machine : Machine
machine = record { usable = λ n. n + 24; entry_reads_as = λ stored key. false }

pub machine-Distinct : Distinct machine
machine-Distinct = record { no_key = λ stored key. refl }

parse_json_total_example : Within 3 (
    parse_json machine
      (parse_fuel (t_left_bracket ∷ t_null ∷ t_colon ∷ []))
      (t_left_bracket ∷ t_null ∷ t_colon ∷ []))
parse_json_total_example = parse_json_total machine (t_left_bracket ∷ t_null ∷ t_colon ∷ [])

json_program : Unit {0}
unfolding json_set_property copies_key hashmap_add_element add_to_chain json_hash_fn polynomial_hash
    hash_from hash_step char_value read json_get_property hashmap_look_up_element look_up_chain
    json_hash_compare_fn str_eq
json_program = tt

tokenizer_program : Unit {0}
unfolding tokenize_json tokenize next_token emit literal span strchr is_prefix string_token
    string_body number
tokenizer_program = tt

tokens_test :
    tokenize_json (codes "[nu, 12]")
    ≡ (t_left_bracket ∷ t_null ∷ t_comma ∷ t_int (codes "12") ∷ t_right_bracket ∷ [], pos 0)
unfolding tokenizer_program
tokens_test = refl

abbrev pub no_properties : Table
no_properties = of_table (replicate 63 [])

-- The hash of "ab" is 17.
abbrev pub with_ab : Table
with_ab = of_table (set (replicate 63 []) 17 ((codes "ab", null) ∷ []))

abbrev with_both : Table
with_both =
    of_table (set (replicate 63 []) 17 ((codes "ab", null) ∷ (codes "ab", integer (pos 5)) ∷ []))

pub first_set :
    json_set_property machine (object no_properties) (codes "ab") null ≡ ok (object with_ab)
unfolding json_program
first_set = refl

absent : json_get_property (object no_properties) (codes "ab") ≡ none
unfolding json_program
absent = refl

second_set :
    json_set_property machine (object with_ab) (codes "ab") (integer (pos 5))
    ≡ ok (object with_both)
unfolding json_program
second_set = refl

json_get_property-json_set_property_example :
    (json_get_property (object with_ab) (codes "ab") ≡ some null)
    × ((k : Bytes)
        → k ≢ codes "ab"
        → json_get_property (object with_ab) k ≡ json_get_property (object no_properties) k)
json_get_property-json_set_property_example =
    json_get_property-json_set_property machine machine-Distinct no_properties (codes "ab") null
      (object with_ab) first_set absent

json_set_property-twice_example :
    json_get_property (object with_both) (codes "ab")
    ≡ json_get_property (object with_ab) (codes "ab")
json_set_property-twice_example =
    json_set_property-twice machine machine-Distinct no_properties (codes "ab") null
      (integer (pos 5)) with_ab (object with_both) first_set second_set
