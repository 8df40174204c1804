-- ===== src/Week06/Hashmap.antt =====
-- week06/src/ds/hashmap.c: a table of linked lists over pointers to elements. The functions that the
-- caller installs are parameters: `hash_fn`, whether `compare_fn(a, b) == 0`, and whether
-- `compare_fn(*pos, element) == 0`, where `*pos` is the list entry that holds the stored element.
pub mod Keys
use networks_course.Prelude.{
  ℕ, ℤ, Bool, List, [], ◌∷◌, ◌++◌, Option, none, some, Run, ok, ◌>>=◌, ◌>>◌, access, read, set,
  replicate, if◌then◌else◌,
}
use networks_course.Hash.{bucket_index}

abbrev pub Hashmap {ℓ} : Type ℓ → Type ℓ
Hashmap E = List (List E)

unfoldable pub hashmap_create {ℓ} : {E : Type ℓ} → ℕ → Hashmap E
hashmap_create size = replicate size []

-- The order of `hashmap_for_each_element` and of `hashmap_get_entries`.
unfoldable pub hashmap_get_entries {ℓ} : {E : Type ℓ} → Hashmap E → List E
hashmap_get_entries [] = []
hashmap_get_entries (current ∷ chains) = current ++ hashmap_get_entries chains

-- A callback changes a state.
unfoldable pub for_each_in_chain {ℓ κ} : {E : Type ℓ} {S : Type κ} → (E → S → S) → List E → S → S
for_each_in_chain callback [] s = s
for_each_in_chain callback (value ∷ next) s = for_each_in_chain callback next (callback value s)

unfoldable pub hashmap_for_each_element {ℓ κ} :
    {E : Type ℓ} {S : Type κ} → (E → S → S) → Hashmap E → S → S
unfolding for_each_in_chain
hashmap_for_each_element callback [] s = s
hashmap_for_each_element callback (chain ∷ chains) s =
    hashmap_for_each_element callback chains (for_each_in_chain callback chain s)

-- The search goes on while nothing is found.
abbrev pub or_else {ℓ} : {E : Type ℓ} → Option E → Option E → Option E
or_else (some v) o = some v
or_else none o = o

module _ {ℓ} {E : Type ℓ} (compare_fn : E → E → Bool) where
  unfoldable pub look_up_chain : E → List E → Option E
  look_up_chain element [] = none
  look_up_chain element (value ∷ next) =
      if compare_fn element value then some value else look_up_chain element next

  -- All buckets are searched, in order.
  unfoldable pub hashmap_look_up_element : E → Hashmap E → Option E
  hashmap_look_up_element element [] = none
  hashmap_look_up_element element (chain ∷ chains) =
      or_else (look_up_chain element chain) (hashmap_look_up_element element chains)

module _ {ℓ} {E : Type ℓ} (hash_fn : E → ℤ) (compare_entry : E → E → Bool) where
  unfoldable pub add_to_chain : E → List E → List E
  add_to_chain element [] = element ∷ []
  add_to_chain element (value ∷ next) =
      if compare_entry value element then element ∷ next else value ∷ add_to_chain element next

  unfoldable pub hashmap_add_element : E → Hashmap E → Run (Hashmap E)
  hashmap_add_element element self = do
    i ← access (bucket_index (hash_fn element))
    chain ← read self i
    ok (set self i (add_to_chain element chain))

  unfoldable pub remove_from_chain : E → List E → List E
  remove_from_chain element [] = []
  remove_from_chain element (value ∷ next) =
      if compare_entry value element then next else value ∷ remove_from_chain element next

  unfoldable pub hashmap_remove_element : E → Hashmap E → Run (Hashmap E)
  hashmap_remove_element element self = do
    i ← access (bucket_index (hash_fn element))
    chain ← read self i
    ok (set self i (remove_from_chain element chain))
