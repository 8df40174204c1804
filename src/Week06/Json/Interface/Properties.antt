-- ===== src/Week06/Json/Interface/Properties.antt =====
-- The properties of an object of week06/src/ds/json/interface.c: what is read after setting them.
use mathlib.Core.Option
use mathlib.Core.Option.{some-injective}
use networks_course.Prelude.{
  ◌≡◌, ◌≢◌, refl, sym, ap, ap₂, subst, ◌∙◌, Bytes, List, [], ◌∷◌, ◌++◌, Option, none, some, ok,
  ok-injective, >>=-eq-ok, >>-eq-ok, get_elem?, set, get_elem?-set_self, get_elem?-lt, str_eq_refl,
  str_eq_ne,
}
use networks_course.Week06.Machine.{Machine, Distinct}
use networks_course.Week06.Hashmap.{Hashmap}
use networks_course.Week06.Hashmap.Keys.{
  Added, hashmap_add_element-Added, look_up_chain-append_ne, look_up-set_same, look_up-set_new,
  look_up_chain-append_twice,
}
use networks_course.Week06.Json.Value.{
  Json, Chain, Table, to_chain, of_chain, to_table, of_table, null, object, chain_end, entry,
  no_buckets, bucket,
}
use networks_course.Week06.Json.Interface.{
  json_hash_fn, json_hash_compare_fn, json_get_property, copies_key, json_set_property,
}

to_chain-of_chain : (c : List (Bytes × Json)) → to_chain (of_chain c) ≡ c
to_chain-of_chain [] = refl
to_chain-of_chain ((k, v) ∷ c) = ap (λ l. (k, v) ∷ l) (to_chain-of_chain c)

pub to_table-of_table : (t : Hashmap (Bytes × Json)) → to_table (of_table t) ≡ t
to_table-of_table [] = refl
to_table-of_table (c ∷ t) = ap₂ (λ x y. x ∷ y) (to_chain-of_chain c) (to_table-of_table t)

-- How `json_set_property` changes an object where it returns.
pub record Set (t : Table) (k : Bytes) (v o' : Json) : Type 0 where
  pub table' : Table
  pub o'-eq : o' ≡ object table'
  pub added : Added json_hash_fn (k, v) (to_table t) (to_table table')

pub set-Set :
    (m : Machine)
    → Distinct m
    → (t : Table) (k : Bytes) (v o' : Json) → json_set_property m (object t) k v ≡ ok o'
    → Set t k v o'
unfolding json_set_property
set-Set m d t k v o' h =
    let (_, h') = >>-eq-ok (copies_key m k) _ h in
    let (t', e, h'') = >>=-eq-ok _ _ h' in
    record {
      table' = of_table t';
      o'-eq = sym (ok-injective h'');
      added =
          subst (λ x. Added json_hash_fn (k, v) (to_table t) x) (sym (to_table-of_table t'))
            (hashmap_add_element-Added json_hash_fn _ (k, v) (to_table t) t'
              (λ a b. d.no_key a.0 b.0) e);
    }

map-none : (o : Option (Bytes × Json)) → Option.map (λ kv. kv.1) o ≡ none → o ≡ none
map-none none h = refl
map-none (some kv) h = cc

-- Setting a property that the object does not have and then getting it gives the value set; every
-- other property is as it was. Assumed is that the memory of a table's entry is never taken for a
-- key, and that setting returns.
pub json_get_property-json_set_property :
    (m : Machine)
    → Distinct m
    → (t : Table) (k : Bytes) (v o' : Json) → json_set_property m (object t) k v ≡ ok o'
    → json_get_property (object t) k ≡ none
    → (json_get_property o' k ≡ some v)
      × ((k' : Bytes) → k' ≢ k → json_get_property o' k' ≡ json_get_property (object t) k')
unfolding json_get_property json_hash_compare_fn
json_get_property-json_set_property m d t k v o' h n =
    let s = set-Set m d t k v o' h in
    let a = s.added in
    (
      rw (s.o'-eq, a.table'-eq)
          (ap (Option.map (λ kv. kv.1)) (
            look_up-set_new json_hash_compare_fn (k, null) (k, v) (to_table t) a.index a.chain
              a.found (str_eq_refl k) (map-none _ n))),
      λ k' ne.
          rw (s.o'-eq, a.table'-eq)
            (ap (Option.map (λ kv. kv.1)) (
              look_up-set_same json_hash_compare_fn (k', null) (k, v) (to_table t) a.index a.chain _
                a.found
                (look_up_chain-append_ne json_hash_compare_fn (k', null) (k, v) a.chain
                  (str_eq_ne k' k ne)))),
    )

abbrev entries_of : Json → Hashmap (Bytes × Json)
entries_of (object t) = to_table t
entries_of _ = []

-- Setting a property a second time has no effect that getting it shows: the first value stays, where
-- the memory of a table's entry is never taken for a key and both calls return.
pub json_set_property-twice :
    (m : Machine)
    → Distinct m
    → (t : Table) (k : Bytes) (v w : Json) (t' : Table) (o'' : Json)
    → json_set_property m (object t) k v ≡ ok (object t')
    → json_set_property m (object t') k w ≡ ok o''
    → json_get_property o'' k ≡ json_get_property (object t') k
unfolding json_get_property json_hash_compare_fn json_hash_fn
json_set_property-twice m d t k v w t' o'' h h' =
    let s = set-Set m d t k v (object t') h in
    let s' = set-Set m d t' k w o'' h' in
    let a = s.added in
    let b = s'.added in
    let tables : to_table t' ≡ set (to_table t) a.index (a.chain ++ (k, v) ∷ []) =
      ap entries_of s.o'-eq ∙ a.table'-eq in
    let chains : b.chain ≡ a.chain ++ (k, v) ∷ [] = some-injective _ _ (
      sym b.found
      ∙ ap₂ get_elem? tables (some-injective _ _ (sym b.hashed ∙ a.hashed))
      ∙ get_elem?-set_self (to_table t) a.index _ (get_elem?-lt (to_table t) a.index a.found)) in
    rw (s'.o'-eq, b.table'-eq)
      (ap (Option.map (λ kv. kv.1)) (
        look_up-set_same json_hash_compare_fn (k, null) (k, w) (to_table t') b.index b.chain _
          b.found
          (rw chains (
            look_up_chain-append_twice json_hash_compare_fn (k, null) (k, v) a.chain (k, w)
              (str_eq_refl k) (str_eq_refl k)))))

of_chain-to_chain : (c : Chain) → of_chain (to_chain c) ≡ c
of_chain-to_chain chain_end = refl
of_chain-to_chain (entry k v c) = ap (λ l. entry k v l) (of_chain-to_chain c)

pub of_table-to_table : (t : Table) → of_table (to_table t) ≡ t
of_table-to_table no_buckets = refl
of_table-to_table (bucket c t) = ap₂ (λ x y. bucket x y) (of_chain-to_chain c) (of_table-to_table t)
