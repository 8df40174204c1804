-- ===== src/Week06/Json/Value.antt =====
-- `json_t` of week06/include/ds/json.h, and its containers as those of the library.
use networks_course.Prelude.{ℕ, Bytes, ℤ, List, [], ◌∷◌, Option, none, some, Run, ok, fault}
use networks_course.Week06.Vector.{Vector}
use networks_course.Week06.Hashmap.{Hashmap}

-- `Slots` are the pointers of an array's vector, `Table` the buckets of an object's table.
mutual
  pub data Json : Type 0 where
    null : Json
    boolean : ℤ → Json
    integer : ℤ → Json
    string : Bytes → Json
    array : Slots → ℕ → ℕ → Json
    object : Table → Json

  pub data Slots : Type 0 where
    no_slots : Slots
    empty_slot : Slots → Slots
    slot : Json → Slots → Slots

  pub data Chain : Type 0 where
    chain_end : Chain
    entry : Bytes → Json → Chain → Chain

  pub data Table : Type 0 where
    no_buckets : Table
    bucket : Chain → Table → Table

abbrev pub to_slots : Slots → List (Option Json)
to_slots no_slots = []
to_slots (empty_slot s) = none ∷ to_slots s
to_slots (slot v s) = some v ∷ to_slots s

abbrev pub of_slots : List (Option Json) → Slots
of_slots [] = no_slots
of_slots (none ∷ s) = empty_slot (of_slots s)
of_slots (some v ∷ s) = slot v (of_slots s)

abbrev pub to_chain : Chain → List (Bytes × Json)
to_chain chain_end = []
to_chain (entry k v c) = (k, v) ∷ to_chain c

abbrev pub of_chain : List (Bytes × Json) → Chain
of_chain [] = chain_end
of_chain ((k, v) ∷ c) = entry k v (of_chain c)

abbrev pub to_table : Table → Hashmap (Bytes × Json)
to_table no_buckets = []
to_table (bucket c t) = to_chain c ∷ to_table t

abbrev pub of_table : Hashmap (Bytes × Json) → Table
of_table [] = no_buckets
of_table (c ∷ t) = bucket (of_chain c) (of_table t)

abbrev pub of_vector : Vector Json → Json
of_vector v = array (of_slots v.slots) v.length v.capacity

-- A pointer that is not set is null: `array_value` of what is not an array.
abbrev pub array_value : Json → Run (Vector Json)
array_value (array s n c) = ok (record { slots = to_slots s; length = n; capacity = c })
array_value _ = fault
