-- ===== src/Week06/Json/Interface/Objects.antt =====
-- Objects of week06/src/ds/json/interface.c that are built property by property.
use mathlib.Core.Option
use networks_course.Prelude.{
  ℕ, zero, suc, ◌≡◌, ◌≢◌, refl, sym, ap, ◌∙◌, Bytes, Bool, [], none, some, ok, replicate,
}
use networks_course.Hash.{hashmap_entries}
use networks_course.Week06.Machine.{Machine, Distinct}
use networks_course.Week06.Hashmap.{hashmap_create, look_up_chain, hashmap_look_up_element}
use networks_course.Week06.Json.Value.{Json, Table, null, object}
use networks_course.Week06.Json.Interface.{
  json_hash_compare_fn, create_json_object, json_get_property, json_set_property,
}
use networks_course.Week06.Json.Interface.Properties.{
  to_table-of_table, set-Set, json_get_property-json_set_property,
}

abbrev pub IsObject : Json → Type 0
IsObject o = (t : Table) × (o ≡ object t)

-- The object `o'` is `o` with one more property.
pub record Extends (o : Json) (k : Bytes) (v o' : Json) : Type 0 where
  pub is_object : IsObject o'
  pub self : json_get_property o' k ≡ some v
  pub others : (k' : Bytes) → k' ≢ k → json_get_property o' k' ≡ json_get_property o k'

pub json_set_property-Extends :
    (m : Machine)
    → Distinct m
    → (o : Json) (k : Bytes) (v o' : Json) → IsObject o
    → json_set_property m o k v ≡ ok o'
    → json_get_property o k ≡ none
    → Extends o k v o'
json_set_property-Extends m d o k v o' (t, e) h n =
    let h' : json_set_property m (object t) k v ≡ ok o' =
      ap (λ x. json_set_property m x k v) (sym e) ∙ h in
    let s = set-Set m d t k v o' h' in
    let (found, kept) =
      json_get_property-json_set_property m d t k v o' h'
        (ap (λ x. json_get_property x k) (sym e) ∙ n) in
    record {
      is_object = (s.table', s.o'-eq);
      self = found;
      others = λ k' ne. kept k' ne ∙ ap (λ x. json_get_property x k') (sym e);
    }

look_up-replicate :
    {E : Type 0} (compare_fn : E → E → Bool) (element : E) (n : ℕ)
    → hashmap_look_up_element compare_fn element (replicate n []) ≡ none
unfolding hashmap_look_up_element look_up_chain
look_up-replicate compare_fn element zero = refl
look_up-replicate compare_fn element (suc n) = look_up-replicate compare_fn element n

pub create_json_object-IsObject : IsObject create_json_object
unfolding create_json_object
create_json_object-IsObject = (_, refl)

pub json_get_property-create : (k : Bytes) → json_get_property create_json_object k ≡ none
unfolding json_get_property create_json_object hashmap_create
json_get_property-create k = ap (Option.map (λ kv. kv.1)) (
    ap (hashmap_look_up_element json_hash_compare_fn (k, null))
      (to_table-of_table (replicate hashmap_entries []))
    ∙ look_up-replicate json_hash_compare_fn (k, null) hashmap_entries)
