-- ===== src/Week06/Json/RoundTrip/Objects.antt =====
-- Objects that are made by setting properties which are read back: the buckets of their tables.
use mathlib.Core.Option.{some-injective}
use networks_course.Week06.Json.Tokenizer.Texts.{IsPlain}
use networks_course.Week06.Json.RoundTrip.{ReadBack}
use networks_course.Prelude.{
  ℕ, zero, suc, ◌+◌, ◌<◌, ◌≡◌, refl, sym, ap, subst, ◌∙◌, Bytes, true, List, [], ◌∷◌, ◌++◌, some,
  ok, >>-eq-ok, length, get_elem?, set, replicate, c_str, arith, length-append, length-set,
  length-replicate,
}
use networks_course.Hash.{hashmap_entries, bucket_index}
use networks_course.Week06.Machine.{Machine, Distinct}
use networks_course.Week06.Hashmap.{Hashmap, hashmap_create, hashmap_get_entries}
use networks_course.Week06.Json.Value.{Json, Table, to_table, of_table, object}
use networks_course.Week06.Json.Interface.{
  json_hash_fn, create_json_object, copies_key, json_set_property,
}
use networks_course.Week06.Json.Interface.Properties.{to_table-of_table, set-Set, of_table-to_table}
use networks_course.Week06.Json.RoundTrip.Pairs.{PairRead, PairsRead, append_pairs_read}

-- Every property stands in the bucket that its key selects.
abbrev pub ChainHashed : ℕ → List (Bytes × Json) → Type 0
ChainHashed i [] = Unit {0}
ChainHashed i (kv ∷ c) = (bucket_index (json_hash_fn kv) ≡ some i) × ChainHashed i c

abbrev pub TableHashed : ℕ → Hashmap (Bytes × Json) → Type 0
TableHashed i [] = Unit {0}
TableHashed i (c ∷ t) = ChainHashed i c × TableHashed (suc i) t

ChainHashed-end :
    (i : ℕ) (c : List (Bytes × Json)) (kv : Bytes × Json)
    → ChainHashed i c
    → bucket_index (json_hash_fn kv) ≡ some i
    → ChainHashed i (c ++ kv ∷ [])
ChainHashed-end i [] kv r h = (h, tt)
ChainHashed-end i (x ∷ c) kv (e, r) h = (e, ChainHashed-end i c kv r h)

TableHashed-set :
    (s : ℕ) (t : Hashmap (Bytes × Json)) (j : ℕ) (c : List (Bytes × Json)) (kv : Bytes × Json)
    → TableHashed s t
    → get_elem? t j ≡ some c
    → bucket_index (json_hash_fn kv) ≡ some (s + j)
    → TableHashed s (set t j (c ++ kv ∷ []))
TableHashed-set s [] j c kv r f h = tt
TableHashed-set s (x ∷ t) zero c kv (rx, rt) f h = (
  ChainHashed-end s c kv (subst (ChainHashed s) (some-injective _ _ f) rx)
      (h ∙ ap some (omega arith)),
  rt,
)
TableHashed-set s (x ∷ t) (suc j) c kv (rx, rt) f h =
    (rx, TableHashed-set (suc s) t j c kv rt f (h ∙ ap some (omega arith)))

TableHashed-replicate : (s n : ℕ) → TableHashed s (replicate n [])
TableHashed-replicate s zero = tt
TableHashed-replicate s (suc n) = (tt, TableHashed-replicate (suc s) n)

length-hashmap_get_entries :
    (t : Hashmap (Bytes × Json)) (j : ℕ) (c : List (Bytes × Json)) (kv : Bytes × Json)
    → get_elem? t j ≡ some c
    → 0 < length (hashmap_get_entries (set t j (c ++ kv ∷ [])))
unfolding hashmap_get_entries
length-hashmap_get_entries [] j c kv h = cc
length-hashmap_get_entries (x ∷ t) zero c kv h =
    omega (arith, length-append (c ++ kv ∷ []) (hashmap_get_entries t), length-append c (kv ∷ []))
length-hashmap_get_entries (x ∷ t) (suc j) c kv h = omega (
  arith,
  length-append x (hashmap_get_entries (set t j (c ++ kv ∷ []))),
  length-hashmap_get_entries t j c kv h,
)

module _ (m : Machine) where
  abbrev pub TableRead : Hashmap (Bytes × Json) → Type 0
  TableRead [] = Unit {0}
  TableRead (c ∷ t) = PairsRead m c × TableRead t

  TableRead-set :
      (t : Hashmap (Bytes × Json)) (j : ℕ) (c : List (Bytes × Json)) (kv : Bytes × Json)
      → TableRead t
      → get_elem? t j ≡ some c
      → PairRead m kv
      → TableRead (set t j (c ++ kv ∷ []))
  TableRead-set [] j c kv r f h = tt
  TableRead-set (x ∷ t) zero c kv (rx, rt) f h =
      (append_pairs_read m c (kv ∷ []) (subst (PairsRead m) (some-injective _ _ f) rx) (h, tt), rt)
  TableRead-set (x ∷ t) (suc j) c kv (rx, rt) f h = (rx, TableRead-set t j c kv rt f h)

  TableRead-replicate : (n : ℕ) → TableRead (replicate n [])
  TableRead-replicate zero = tt
  TableRead-replicate (suc n) = (tt, TableRead-replicate n)

  pub record ObjectRead (o : Json) : Type 0 where
    pub table : Hashmap (Bytes × Json)
    pub o-eq : o ≡ object (of_table table)
    pub sized : length table ≡ hashmap_entries
    pub hashed : TableHashed 0 table
    pub read : TableRead table

  pub create-ObjectRead : ObjectRead create_json_object
  unfolding create_json_object hashmap_create
  create-ObjectRead = record {
    table = replicate hashmap_entries [];
    o-eq = refl;
    sized = length-replicate {A = List (Bytes × Json)} hashmap_entries [];
    hashed = TableHashed-replicate 0 hashmap_entries;
    read = TableRead-replicate hashmap_entries;
  }

  -- The property fits the memory that is allocated for it.
  copies_key-set :
      (o : Json) (t : Table) (k : Bytes) (v o' : Json)
      → o ≡ object t
      → json_set_property m o k v ≡ ok o'
      → copies_key m k ≡ true
  unfolding json_set_property
  copies_key-set o t k v o' e h =
      (>>-eq-ok (copies_key m k) _ (ap (λ x. json_set_property m x k v) (sym e) ∙ h)).0

  -- A property is added to an object that is read back.
  pub record Grown (o' : Json) : Type 0 where
    pub object_read : ObjectRead o'
    pub filled : 0 < length (hashmap_get_entries object_read.table)

  pub set-Grown :
      Distinct m
      → (o : Json) (k : Bytes) (v o' : Json) → ObjectRead o
      → IsPlain k
      → c_str k ≡ k
      → ReadBack m v
      → json_set_property m o k v ≡ ok o'
      → Grown o'
  set-Grown d o k v o' r plain same value h =
      let h' : json_set_property m (object (of_table r.table)) k v ≡ ok o' =
        ap (λ x. json_set_property m x k v) (sym r.o-eq) ∙ h in
      let s = set-Set m d (of_table r.table) k v o' h' in
      let a = s.added in
      let before : to_table (of_table r.table) ≡ r.table = to_table-of_table r.table in
      let found : get_elem? r.table a.index ≡ some a.chain =
        ap (λ t. get_elem? t a.index) (sym before) ∙ a.found in
      let pair : PairRead m (k, v) = record {
        plain = plain;
        text = same;
        copied = copies_key-set o (of_table r.table) k v o' r.o-eq h;
        value = value;
      } in
      let after : of_table (set r.table a.index (a.chain ++ (k, v) ∷ [])) ≡ s.table' =
        ap (λ t. of_table (set t a.index (a.chain ++ (k, v) ∷ []))) (sym before)
        ∙ ap of_table (sym a.table'-eq)
        ∙ of_table-to_table s.table' in
      record {
        object_read = record {
          table = set r.table a.index (a.chain ++ (k, v) ∷ []);
          o-eq = s.o'-eq ∙ ap object (sym after);
          sized = length-set r.table a.index _ ∙ r.sized;
          hashed =
              TableHashed-set 0 r.table a.index a.chain (k, v) r.hashed found
                (a.hashed ∙ ap some (omega arith));
          read = TableRead-set r.table a.index a.chain (k, v) r.read found pair;
        };
        filled = length-hashmap_get_entries r.table a.index a.chain (k, v) found;
      }
