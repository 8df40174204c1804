-- ===== src/Week06/Json/RoundTrip/Rebuilt.antt =====
-- The properties of an object, set again one after the other, make the same object.
use networks_course.Prelude.{
  suc, ◌<◌, ◌≡◌, refl, sym, ap, ap₂, subst, ◌∙◌, Bytes, true, List, [], ◌∷◌, ◌++◌, append-nil,
  append_assoc, some, ok, ◌>>=◌, read, ok-injective, >>=-eq-ok, length, replicate, arith,
  length-append, get_elem?-middle, set-middle,
}
use networks_course.Hash.{bucket_index}
use networks_course.Week06.Machine.{Machine, Distinct}
use networks_course.Week06.Hashmap.{
  Hashmap, hashmap_create, hashmap_get_entries, hashmap_add_element,
}
use networks_course.Week06.Hashmap.Keys.{add_to_chain-append}
use networks_course.Week06.Json.Value.{Json, of_chain, of_table, object}
use networks_course.Week06.Json.Interface.{
  json_hash_fn, create_json_object, copies_key, json_set_property, json_object_to_array,
}
use networks_course.Week06.Json.Interface.Properties.{to_table-of_table}
use networks_course.Week06.Json.Serializer.{
  join, serialize_json_at, serialize_chain, serialize_table,
}
use networks_course.Week06.Json.Parser.Trees.{build, l_object}
use networks_course.Week06.Json.Parser.Printed.{print, IsWritten}
use networks_course.Week06.Json.RoundTrip.{ReadBack}
use networks_course.Week06.Json.RoundTrip.Pairs.{
  PairsRead, append_pairs_read, set_pairs, pair_texts, pair_texts-append, members_of,
  set_all-members_of, members_of-MembersWritten, print-members_of, serialize_chain-pair_texts,
}
use networks_course.Week06.Json.RoundTrip.Objects.{
  ChainHashed, TableHashed, TableRead, ObjectRead, Grown,
}

module _ (m : Machine) (d : Distinct m) where
  -- A property is put behind those of its bucket.
  set-middle_bucket :
      (pre suf : Hashmap (Bytes × Json)) (c : List (Bytes × Json)) (kv : Bytes × Json)
      → bucket_index (json_hash_fn kv) ≡ some (length pre)
      → copies_key m kv.0 ≡ true
      → json_set_property m (object (of_table (pre ++ c ∷ suf))) kv.0 kv.1
        ≡ ok (object (of_table (pre ++ (c ++ kv ∷ []) ∷ suf)))
  unfolding json_set_property hashmap_add_element read
  set-middle_bucket pre suf c kv h k =
      let chain =
        add_to_chain-append (λ stored kv'. m.entry_reads_as stored.0 kv'.0)
          (λ a b. d.no_key a.0 b.0) json_hash_fn kv c in
      rw
        (
          k,
          to_table-of_table (pre ++ c ∷ suf),
          h,
          get_elem?-middle pre suf c,
          chain,
          set-middle pre suf c (c ++ kv ∷ []),
        )
        refl

  set_pairs-bucket :
      (pre suf : Hashmap (Bytes × Json)) (done c rest : List (Bytes × Json))
      → ChainHashed (length pre) c
      → PairsRead m c
      → set_pairs m (c ++ rest) (object (of_table (pre ++ done ∷ suf)))
        ≡ set_pairs m rest (object (of_table (pre ++ (done ++ c) ∷ suf)))
  set_pairs-bucket pre suf done [] rest h r =
      ap (λ c. set_pairs m rest (object (of_table (pre ++ c ∷ suf)))) (sym (append-nil done))
  set_pairs-bucket pre suf done (kv ∷ c) rest (e, h) (p, r) =
      ap (λ x. x >>= set_pairs m (c ++ rest)) (set-middle_bucket pre suf done kv e p.copied)
      ∙ set_pairs-bucket pre suf (done ++ kv ∷ []) c rest h r
      ∙ ap (λ l. set_pairs m rest (object (of_table (pre ++ l ∷ suf))))
          (append_assoc done (kv ∷ []) c)

  set_pairs-table :
      (pre t : Hashmap (Bytes × Json))
      → TableHashed (length pre) t
      → TableRead m t
      → set_pairs m (hashmap_get_entries t) (object (of_table (pre ++ replicate (length t) [])))
        ≡ ok (object (of_table (pre ++ t)))
  unfolding hashmap_get_entries
  set_pairs-table pre [] h r = refl
  set_pairs-table pre (c ∷ t) (hc, ht) (rc, rt) =
      let next : length (pre ++ c ∷ []) ≡ suc (length pre) =
        omega (arith, length-append pre (c ∷ [])) in
      set_pairs-bucket pre (replicate (length t) []) [] c (hashmap_get_entries t) hc rc
      ∙ ap (λ l. set_pairs m (hashmap_get_entries t) (object (of_table l)))
          (sym (append_assoc pre (c ∷ []) (replicate (length t) [])))
      ∙ set_pairs-table (pre ++ c ∷ []) t (subst (λ i. TableHashed i t) (sym next) ht) rt
      ∙ ap (λ l. ok (object (of_table l))) (append_assoc pre (c ∷ []) t)

  set_pairs-ObjectRead :
      (o : Json) (r : ObjectRead m o)
      → set_pairs m (hashmap_get_entries r.table) create_json_object ≡ ok o
  unfolding create_json_object hashmap_create
  set_pairs-ObjectRead o r =
      ap (λ n. set_pairs m (hashmap_get_entries r.table) (object (of_table (replicate n []))))
        (sym r.sized)
      ∙ set_pairs-table [] r.table r.hashed r.read
      ∙ ap ok (sym r.o-eq)

  abbrev all_read :
      (t : Hashmap (Bytes × Json)) → TableRead m t → PairsRead m (hashmap_get_entries t)
  unfolding hashmap_get_entries
  all_read [] r = tt
  all_read (c ∷ t) (rc, rt) = append_pairs_read m c (hashmap_get_entries t) rc (all_read t rt)

  serialize_table-pair_texts :
      (t : Hashmap (Bytes × Json)) (r : TableRead m t) (texts : List Bytes)
      → serialize_table m (of_table t) ≡ ok texts
      → texts ≡ pair_texts m (hashmap_get_entries t) (all_read t r)
  unfolding serialize_json_at all_read hashmap_get_entries
  serialize_table-pair_texts [] r texts h = sym (ok-injective h)
  serialize_table-pair_texts (c ∷ t) (rc, rt) texts h =
      let (xs, e, k) = >>=-eq-ok (serialize_chain m (of_chain c)) _ h in
      let (ys, e', k') = >>=-eq-ok (serialize_table m (of_table t)) _ k in
      sym (ok-injective k')
      ∙ ap₂ (λ x y. x ++ y) (serialize_chain-pair_texts m c rc xs e)
          (serialize_table-pair_texts t rt ys e')
      ∙ sym (pair_texts-append m c (hashmap_get_entries t) rc (all_read t rt))

  print-object :
      (t : Hashmap (Bytes × Json)) (r : TableRead m t) (txt : Bytes)
      → serialize_json_at m (object (of_table t)) ≡ ok txt
      → txt ≡ 123 ∷ (join (pair_texts m (hashmap_get_entries t) (all_read t r)) ++ 125 ∷ [])
  unfolding serialize_json_at
  print-object t r txt h =
      let (pairs, e, k) = >>=-eq-ok (json_object_to_array m (object (of_table t))) _ h in
      let (texts, e', k') = >>=-eq-ok (serialize_table m (of_table t)) _ k in
      sym (ok-injective k')
      ∙ ap (λ l. 123 ∷ (join l ++ 125 ∷ [])) (serialize_table-pair_texts t r texts e')

  pub Grown-ReadBack : (o : Json) → Grown m o → ReadBack m o
  unfolding build IsWritten print
  Grown-ReadBack o g =
      from (hashmap_get_entries g.object_read.table)
        (all_read g.object_read.table g.object_read.read) g.filled
        (set_pairs-ObjectRead o g.object_read)
        (λ txt h.
          print-object g.object_read.table g.object_read.read txt
            (ap (serialize_json_at m) (sym g.object_read.o-eq) ∙ h))
    where
      from :
          (l : List (Bytes × Json)) (r : PairsRead m l)
          → 0 < length l
          → set_pairs m l create_json_object ≡ ok o
          → ((txt : Bytes)
              → serialize_json_at m o ≡ ok txt
              → txt ≡ 123 ∷ (join (pair_texts m l r) ++ 125 ∷ []))
          → ReadBack m o
      from [] r h e p = absurd (omega (arith, h))
      from (kv ∷ l) r h e p = record {
        tree = l_object (members_of m kv l r);
        builds = set_all-members_of m kv l r create_json_object ∙ e;
        written = members_of-MembersWritten m kv l r;
        printed = λ txt x. p txt x ∙ ap (λ y. 123 ∷ y) (print-members_of m kv l r);
      }
