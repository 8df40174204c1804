-- ===== src/Week06/Refcounter.antt =====
-- week06/src/ds/refcounter.c: how often a pointer is referred to. A pointer is its address.
pub mod Counts
use mathlib.Core.Option
use networks_course.Prelude.{
  ℕ, ℤ, pos, ◌+ℤ◌, rem, int_eq, ◌-ℤ◌, to_int32, Bool, List, [], ◌∷◌, map, Option, none, some, Run,
  ok, ◌==◌, if◌then◌else◌,
}
use networks_course.Hash.{hashmap_entries}
use networks_course.Week06.Hashmap.{
  Hashmap, hashmap_create, hashmap_look_up_element, hashmap_add_element, hashmap_remove_element,
}

pub record RefcounterEntry : Type 0 where
  pub ptr : ℕ
  pub refs : ℤ

-- The remainder of the address as an `int`.
unfoldable pub refcounter_hash_fn : RefcounterEntry → ℤ
refcounter_hash_fn element = rem (to_int32 element.ptr) hashmap_entries

-- `a->ptr == b->ptr`, which is 1 for the same pointer.
unfoldable pub refcounter_compare_fn : RefcounterEntry → RefcounterEntry → ℤ
refcounter_compare_fn a b = if a.ptr == b.ptr then pos 1 else pos 0

-- What the table takes for a match.
unfoldable pub matches : RefcounterEntry → RefcounterEntry → Bool
matches a b = int_eq (refcounter_compare_fn a b) (pos 0)

-- The first match of a chain, changed in place; and of a table.
unfoldable pub change_chain :
    RefcounterEntry
    → (RefcounterEntry → RefcounterEntry)
    → List RefcounterEntry
    → Option (List RefcounterEntry)
change_chain mock f [] = none
change_chain mock f (value ∷ next) =
    let rest = change_chain mock f next in
    if matches mock value then some (f value ∷ next) else Option.map (λ next'. value ∷ next') rest

unfoldable pub change_value :
    RefcounterEntry
    → (RefcounterEntry → RefcounterEntry)
    → Hashmap RefcounterEntry
    → Hashmap RefcounterEntry
change_value mock f [] = []
change_value mock f (chain ∷ chains) = elim (change_chain mock f chain) [
  | some chain' ↦ chain' ∷ chains
  | none ↦ chain ∷ change_value mock f chains
]

unfoldable pub init_refcounter : Hashmap RefcounterEntry
init_refcounter = hashmap_create hashmap_entries

abbrev pub entry_of : ℕ → ℕ → RefcounterEntry
entry_of ptr refs = record { ptr = ptr; refs = pos refs }

-- `compare_entry` compares the memory of a table's entry, as its list holds it, with an element.
module _ (compare_entry : RefcounterEntry → RefcounterEntry → Bool) where
  unfoldable pub incref : ℕ → Hashmap RefcounterEntry → Run (Hashmap RefcounterEntry)
  incref ptr table = elim (hashmap_look_up_element matches (entry_of ptr 0) table) [
    | some value ↦
        ok (change_value (entry_of ptr 0) (λ v. record v { refs = v.refs +ℤ pos 1 }) table)
    | none ↦ hashmap_add_element refcounter_hash_fn compare_entry (entry_of ptr 1) table
  ]

  unfoldable pub decref : ℕ → Hashmap RefcounterEntry → Run (Hashmap RefcounterEntry)
  decref ptr table = elim (hashmap_look_up_element matches (entry_of ptr 0) table) [
    | some value ↦
        (let value' = record value { refs = value.refs -ℤ pos 1 } in
          let table' =
            change_value (entry_of ptr 0) (λ v. record v { refs = v.refs -ℤ pos 1 }) table in
          if int_eq value'.refs (pos 0)
          then hashmap_remove_element refcounter_hash_fn compare_entry value' table'
          else ok table')
    | none ↦ ok table
  ]
