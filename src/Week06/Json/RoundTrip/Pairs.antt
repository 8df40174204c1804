-- ===== src/Week06/Json/RoundTrip/Pairs.antt =====
-- Properties that are read back, one after the other: the sentence that an object is printed as.
use networks_course.Prelude.{
  ◌≡◌, refl, sym, ap, ap₂, ◌∙◌, Bytes, true, List, [], ◌∷◌, ◌++◌, append_assoc, Run, ok, ◌>>=◌,
  ok-injective, >>=-eq-ok, c_str,
}
use networks_course.Week06.Machine.{Machine}
use networks_course.Week06.Json.Value.{Json, of_chain}
use networks_course.Week06.Json.Interface.{copies_key, json_set_property}
use networks_course.Week06.Json.Tokenizer.Texts.{text, IsPlain}
use networks_course.Week06.Json.Serializer.{quoted, join, serialize_json_at, serialize_chain}
use networks_course.Week06.Json.Parser.Trees.{Members, build, set_all, only_member, more_members}
use networks_course.Week06.Json.Parser.Printed.{print, print_members, IsWritten, MembersWritten}
use networks_course.Week06.Json.RoundTrip.{ReadBack, join-cons, bind_ok, bind_cong}

module _ (m : Machine) where
  -- A key without quotes and backslashes, and a value that is read back.
  pub record PairRead (kv : Bytes × Json) : Type 0 where
    pub plain : IsPlain kv.0
    pub text : c_str kv.0 ≡ kv.0
    pub copied : copies_key m kv.0 ≡ true
    pub value : ReadBack m kv.1

  abbrev pub PairsRead : List (Bytes × Json) → Type 0
  PairsRead [] = Unit {0}
  PairsRead (kv ∷ l) = PairRead kv × PairsRead l

  abbrev pub append_pairs_read :
      (a b : List (Bytes × Json)) → PairsRead a → PairsRead b → PairsRead (a ++ b)
  append_pairs_read [] b ra rb = rb
  append_pairs_read (kv ∷ a) b (h, ra) rb = (h, append_pairs_read a b ra rb)

  abbrev pub set_pairs : List (Bytes × Json) → Json → Run Json
  set_pairs [] o = ok o
  set_pairs (kv ∷ l) o = json_set_property m o kv.0 kv.1 >>= set_pairs l

  abbrev pub pair_text : (kv : Bytes × Json) → PairRead kv → Bytes
  pair_text kv p = quoted kv.0 ++ 58 ∷ print p.value.tree

  abbrev pub pair_texts : (l : List (Bytes × Json)) → PairsRead l → List Bytes
  pair_texts [] r = []
  pair_texts (kv ∷ l) (p, r) = pair_text kv p ∷ pair_texts l r

  pub pair_texts-append :
      (a b : List (Bytes × Json)) (ra : PairsRead a) (rb : PairsRead b)
      → pair_texts (a ++ b) (append_pairs_read a b ra rb) ≡ pair_texts a ra ++ pair_texts b rb
  pair_texts-append [] b ra rb = refl
  pair_texts-append (kv ∷ a) b (p, ra) rb =
      ap (λ l. pair_text kv p ∷ l) (pair_texts-append a b ra rb)

  -- The sentence of an object with properties.
  abbrev pub members_of :
      (kv : Bytes × Json) (l : List (Bytes × Json)) → PairsRead (kv ∷ l) → Members
  members_of kv [] (p, r) = only_member kv.0 p.value.tree
  members_of kv (kv' ∷ l) (p, r) = more_members kv.0 p.value.tree (members_of kv' l r)

  pub set_all-members_of :
      (kv : Bytes × Json) (l : List (Bytes × Json)) (r : PairsRead (kv ∷ l)) (o : Json)
      → set_all m (members_of kv l r) o ≡ set_pairs (kv ∷ l) o
  unfolding build
  set_all-members_of kv [] (p, r) o =
      rw (p.value.builds, p.text) (sym (bind_ok (json_set_property m o kv.0 kv.1)))
  set_all-members_of kv (kv' ∷ l) (p, r) o =
      rw (p.value.builds, p.text)
        (bind_cong (json_set_property m o kv.0 kv.1) (λ o'. set_all-members_of kv' l r o'))

  pub members_of-MembersWritten :
      (kv : Bytes × Json) (l : List (Bytes × Json)) (r : PairsRead (kv ∷ l))
      → MembersWritten (members_of kv l r)
  unfolding IsWritten
  members_of-MembersWritten kv [] (p, r) = (p.plain, p.value.written)
  members_of-MembersWritten kv (kv' ∷ l) (p, r) =
      (p.plain, (p.value.written, members_of-MembersWritten kv' l r))

  pub print-members_of :
      (kv : Bytes × Json) (l : List (Bytes × Json)) (r : PairsRead (kv ∷ l))
      → join (pair_texts (kv ∷ l) r) ++ 125 ∷ [] ≡ print_members (members_of kv l r)
  unfolding join print
  print-members_of kv [] (p, r) = append_assoc (quoted kv.0) (58 ∷ print p.value.tree) (125 ∷ [])
  print-members_of kv (kv' ∷ l) (p, r) =
      join-cons (pair_text kv p) (pair_text kv' r.0) (125 ∷ []) (pair_texts l r.1)
      ∙ append_assoc (quoted kv.0) (58 ∷ print p.value.tree)
          (44 ∷ (join (pair_texts (kv' ∷ l) r) ++ 125 ∷ []))
      ∙ ap (λ x. quoted kv.0 ++ 58 ∷ (print p.value.tree ++ 44 ∷ x)) (print-members_of kv' l r)

  -- The properties of a bucket are printed.
  pub serialize_chain-pair_texts :
      (c : List (Bytes × Json)) (r : PairsRead c) (texts : List Bytes)
      → serialize_chain m (of_chain c) ≡ ok texts
      → texts ≡ pair_texts c r
  unfolding serialize_json_at
  serialize_chain-pair_texts [] r texts h = sym (ok-injective h)
  serialize_chain-pair_texts (kv ∷ c) (p, r) texts h =
      let (text, e, k) = >>=-eq-ok (serialize_json_at m kv.1) _ h in
      let (rest, e', k') = >>=-eq-ok (serialize_chain m (of_chain c)) _ k in
      sym (ok-injective k')
      ∙ ap₂ (λ x l. x ∷ l) (ap₂ (λ a b. quoted a ++ 58 ∷ b) p.text (p.value.printed text e))
          (serialize_chain-pair_texts c r rest e')
