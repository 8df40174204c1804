-- ===== src/Week06/Json/Interface.antt =====
-- week06/src/ds/json/interface.c: making, reading and changing values. A value is a tree: what the
-- source changes in place is returned.
pub mod Properties
pub mod Objects
pub mod Arrays
use networks_course.Prelude.{
  ℕ, zero, suc, ◌+◌, Bytes, ℤ, Bool, false, List, [], ◌∷◌, map, Option, none, some, Run, ok, fault,
  ◌>>=◌, ◌>>◌, in_bounds, length, str_eq, c_str, leb,
}
use mathlib.Core.Option
use networks_course.Hash.{polynomial_hash, hashmap_entries}
use networks_course.Week06.Machine.{Machine}
use networks_course.Week06.Vector.{
  vector_create, vector_append, vector_remove, vector_index, vector_length,
}
use networks_course.Week06.Hashmap.{
  hashmap_create, hashmap_add_element, hashmap_look_up_element, hashmap_get_entries,
}
use networks_course.Week06.Json.Value.{
  Json, null, string, array, object, Slots, no_slots, empty_slot, slot, Chain, chain_end, entry,
  Table, no_buckets, bucket, to_table, of_table, of_vector, array_value,
}

unfoldable pub json_hash_fn : Bytes × Json → ℤ
json_hash_fn kv = polynomial_hash kv.0 257 hashmap_entries

unfoldable pub json_hash_compare_fn : Bytes × Json → Bytes × Json → Bool
json_hash_compare_fn a b = str_eq a.0 b.0

unfoldable pub create_json_object : Json
create_json_object = object (of_table (hashmap_create hashmap_entries))

unfoldable pub create_json_string : Bytes → Json
create_json_string data' = string (c_str data')

unfoldable pub json_get_property : Json → Bytes → Option Json
unfolding json_hash_compare_fn hashmap_look_up_element
json_get_property (object t) property =
    Option.map (λ kv. kv.1)
      (hashmap_look_up_element json_hash_compare_fn (property, null) (to_table t))
json_get_property _ property = none

unfoldable pub json_array_length : Json → Run ℕ
json_array_length value = do array' ← array_value value; ok (vector_length array')

unfoldable pub json_array_index : Json → ℕ → Run (Option Json)
json_array_index value index = do array' ← array_value value; vector_index array' index

module _ (m : Machine) where
  unfoldable pub create_json_array : Json
  create_json_array = of_vector (vector_create m.usable)

  unfoldable pub json_array_append : Json → Json → Run Json
  json_array_append value element = do
    array' ← array_value value
    array'' ← vector_append m.usable array' element
    ok (of_vector array'')

  unfoldable pub json_array_remove : Json → ℕ → Run Json
  json_array_remove value index = do
    array' ← array_value value
    array'' ← vector_remove m.usable array' index
    ok (of_vector array'')

  -- `calloc(strlen(property + 1), 1)`, and a `strcpy` of the property with its terminator. For the
  -- empty property the length is read behind the terminator.
  unfoldable pub copies_key : Bytes → Bool
  copies_key [] = false
  copies_key (c ∷ cs) = leb (length (c ∷ cs) + 1) (m.usable (length cs))

  unfoldable pub json_set_property : Json → Bytes → Json → Run Json
  json_set_property (object t) property value = do
    in_bounds (copies_key property)
    t' ←
        hashmap_add_element json_hash_fn (λ stored kv. m.entry_reads_as stored.0 kv.0)
          (property, value) (to_table t)
    ok (object (of_table t'))
  json_set_property other property value = ok other

  -- The loops of `json_object_to_array`: an array of pairs.
  unfoldable pub append_pairs : List (Bytes × Json) → Json → Run Json
  append_pairs [] array' = ok array'
  append_pairs ((property, value) ∷ next) array' = do
    mini_array ← json_array_append create_json_array (create_json_string property)
    mini_array' ← json_array_append mini_array value
    array'' ← json_array_append array' mini_array'
    append_pairs next array''

  -- `none` is the null pointer.
  unfoldable pub json_object_to_array : Json → Run (Option Json)
  json_object_to_array (object t) = do
    array' ← append_pairs (hashmap_get_entries (to_table t)) create_json_array
    ok (some array')
  json_object_to_array _ = ok none

  -- `json_destroy`: whether it can be run to its end. What it frees is not used again.
  unfoldable mutual
    pub json_destroy : Json → Run (Unit {0})
    json_destroy (array s n c) = destroy_slots s n
    json_destroy (object t) = do array' ← json_object_to_array (object t); destroy_table t
    json_destroy _ = ok tt

    -- The first `n` elements.
    pub destroy_slots : Slots → ℕ → Run (Unit {0})
    destroy_slots s zero = ok tt
    destroy_slots no_slots (suc n) = fault
    destroy_slots (empty_slot s) (suc n) = fault
    destroy_slots (slot v s) (suc n) = json_destroy v >>= λ _. destroy_slots s n

    pub destroy_chain : Chain → Run (Unit {0})
    destroy_chain chain_end = ok tt
    destroy_chain (entry k v c) = json_destroy v >>= λ _. destroy_chain c

    pub destroy_table : Table → Run (Unit {0})
    destroy_table no_buckets = ok tt
    destroy_table (bucket c t) = destroy_chain c >>= λ _. destroy_table t
