-- ===== src/Week06/Json/RoundTrip/Arrays.antt =====
-- Arrays that are made by appending values which are read back.
use mathlib.Core.Option.{some-injective}
use networks_course.Prelude.{
  ℕ, suc, ◌≡◌, refl, sym, ap, ap₂, ◌∙◌, Bytes, List, [], ◌∷◌, ◌++◌, some, Run, ok, ◌>>=◌, read,
  ok-injective, >>=-eq-ok, length, get_elem?, returns-fault,
}
use networks_course.Week06.Machine.{Machine}
use networks_course.Week06.Json.Value.{
  Json, Slots, to_slots, null, boolean, integer, string, array, object, no_slots, empty_slot, slot,
}
use networks_course.Week06.Json.Interface.{create_json_array, json_array_append}
use networks_course.Week06.Json.Interface.Arrays.{
  Listed, create_json_array-Listed, json_array_append-Listed,
}
use networks_course.Week06.Json.Serializer.{join, serialize_json_at, serialize_slots}
use networks_course.Week06.Json.Parser.Trees.{
  Elements, build, append_all, l_empty, l_array, only, more,
}
use networks_course.Week06.Json.Parser.Printed.{print, print_elements, IsWritten, AreWritten}
use networks_course.Week06.Json.RoundTrip.{ReadBack, join-cons, bind_ok, bind_cong, bind_assoc}

module _ (m : Machine) where
  abbrev pub ReadAll : List Json → Type 0
  ReadAll [] = Unit {0}
  ReadAll (v ∷ vs) = ReadBack m v × ReadAll vs

  abbrev append_values : List Json → Json → Run Json
  append_values [] a = ok a
  append_values (v ∷ vs) a = json_array_append m a v >>= append_values vs

  pub record ArrayRead (a : Json) : Type 0 where
    pub values : List Json
    pub read : ReadAll values
    pub listed : Listed a values
    pub appended : append_values values (create_json_array m) ≡ ok a

  append_values-end :
      (vs : List Json) (v a : Json)
      → append_values (vs ++ v ∷ []) a ≡ (append_values vs a >>= λ a'. json_array_append m a' v)
  append_values-end [] v a = bind_ok (json_array_append m a v)
  append_values-end (w ∷ vs) v a =
      bind_cong (json_array_append m a w) (λ a'. append_values-end vs v a')
      ∙ bind_assoc (json_array_append m a w) (append_values vs) (λ a'. json_array_append m a' v)

  ReadAll-end : (vs : List Json) (v : Json) → ReadAll vs → ReadBack m v → ReadAll (vs ++ v ∷ [])
  ReadAll-end [] v r b = (b, tt)
  ReadAll-end (w ∷ vs) v (rw', r) b = (rw', ReadAll-end vs v r b)

  pub create-ArrayRead : ArrayRead (create_json_array m)
  create-ArrayRead = record {
    values = [];
    read = tt;
    listed = create_json_array-Listed m;
    appended = refl;
  }

  pub append-ArrayRead :
      (a a' v : Json) → ArrayRead a → ReadBack m v → json_array_append m a v ≡ ok a' → ArrayRead a'
  append-ArrayRead a a' v r b h = record {
    values = r.values ++ v ∷ [];
    read = ReadAll-end r.values v r.read b;
    listed = json_array_append-Listed m a a' v r.values r.listed h;
    appended =
        append_values-end r.values v (create_json_array m)
        ∙ ap (λ x. x >>= λ a''. json_array_append m a'' v) r.appended
        ∙ h;
  }

  -- The sentence of an array with elements.
  abbrev elements_of : (v : Json) (vs : List Json) → ReadAll (v ∷ vs) → Elements
  elements_of v [] (b, r) = only b.tree
  elements_of v (w ∷ vs) (b, r) = more b.tree (elements_of w vs r)

  abbrev texts_of : (vs : List Json) → ReadAll vs → List Bytes
  texts_of [] r = []
  texts_of (v ∷ vs) (b, r) = print b.tree ∷ texts_of vs r

  append_all-elements_of :
      (v : Json) (vs : List Json) (r : ReadAll (v ∷ vs)) (a : Json)
      → append_all m (elements_of v vs r) a ≡ append_values (v ∷ vs) a
  unfolding build
  append_all-elements_of v [] (b, r) a = rw b.builds (sym (bind_ok (json_array_append m a v)))
  append_all-elements_of v (w ∷ vs) (b, r) a =
      rw b.builds (bind_cong (json_array_append m a v) (λ a'. append_all-elements_of w vs r a'))

  elements_of-AreWritten :
      (v : Json) (vs : List Json) (r : ReadAll (v ∷ vs)) → AreWritten (elements_of v vs r)
  unfolding IsWritten
  elements_of-AreWritten v [] (b, r) = b.written
  elements_of-AreWritten v (w ∷ vs) (b, r) = (b.written, elements_of-AreWritten w vs r)

  print-elements_of :
      (v : Json) (vs : List Json) (r : ReadAll (v ∷ vs))
      → join (texts_of (v ∷ vs) r) ++ 93 ∷ [] ≡ print_elements (elements_of v vs r)
  unfolding join print
  print-elements_of v [] (b, r) = refl
  print-elements_of v (w ∷ vs) (b, r) =
      join-cons (print b.tree) (print r.0.tree) (93 ∷ []) (texts_of vs r.1)
      ∙ ap (λ l. print b.tree ++ 44 ∷ l) (print-elements_of w vs r)

  -- The elements in the slots are printed.
  serialize_slots-texts_of :
      (s : Slots) (vs : List Json) (r : ReadAll vs) (texts : List Bytes)
      → ((i : ℕ) (v : Json) → get_elem? vs i ≡ some v → get_elem? (to_slots s) i ≡ some (some v))
      → serialize_slots m s (length vs) ≡ ok texts
      → texts ≡ texts_of vs r
  unfolding serialize_json_at
  serialize_slots-texts_of s [] r texts at h = sym (ok-injective h)
  serialize_slots-texts_of no_slots (v ∷ vs) r texts at h = cc
  serialize_slots-texts_of (empty_slot s) (v ∷ vs) r texts at h = cc
  serialize_slots-texts_of (slot u s) (v ∷ vs) (b, r) texts at h =
      let same : u ≡ v = some-injective _ _ (some-injective _ _ (at 0 v refl)) in
      let (text, e, k) = >>=-eq-ok (serialize_json_at m u) _ h in
      let (rest, e', k') = >>=-eq-ok (serialize_slots m s (length vs)) _ k in
      sym (ok-injective k')
      ∙ ap₂ (λ x l. x ∷ l) (b.printed text (ap (serialize_json_at m) (sym same) ∙ e))
          (serialize_slots-texts_of s vs r rest (λ i w f. at (suc i) w f) e')

  -- The text of an array.
  print-array :
      (a : Json) (vs : List Json) (r : ReadAll vs) (txt : Bytes)
      → Listed a vs
      → serialize_json_at m a ≡ ok txt
      → txt ≡ 91 ∷ (join (texts_of vs r) ++ 93 ∷ [])
  unfolding serialize_json_at
  print-array (array s n c) vs r txt l h =
      let vector = ok-injective l.is_array in
      let counted : n ≡ length vs = ap (λ v. v.length) vector ∙ l.counted in
      let (texts, e, k) = >>=-eq-ok (serialize_slots m s n) _ h in
      let same =
        serialize_slots-texts_of s vs r texts
          (λ i v f. ap (λ x. get_elem? x.slots i) vector ∙ l.holds i v f)
          (ap (serialize_slots m s) (sym counted) ∙ e) in
      sym (ok-injective k) ∙ ap (λ t. 91 ∷ (join t ++ 93 ∷ [])) same
  print-array null vs r txt l h = returns-fault refl l.is_array
  print-array (boolean b) vs r txt l h = returns-fault refl l.is_array
  print-array (integer b) vs r txt l h = returns-fault refl l.is_array
  print-array (string b) vs r txt l h = returns-fault refl l.is_array
  print-array (object b) vs r txt l h = returns-fault refl l.is_array

  pub ArrayRead-ReadBack : (a : Json) → ArrayRead a → ReadBack m a
  unfolding build IsWritten print join
  ArrayRead-ReadBack a r = from r.values r.read r.listed r.appended
    where
      from :
          (vs : List Json)
          → ReadAll vs
          → Listed a vs
          → append_values vs (create_json_array m) ≡ ok a
          → ReadBack m a
      from [] read l e = record {
        tree = l_empty;
        builds = e;
        written = tt;
        printed = λ txt h. print-array a [] read txt l h;
      }
      from (v ∷ vs) read l e = record {
        tree = l_array (elements_of v vs read);
        builds = append_all-elements_of v vs read (create_json_array m) ∙ e;
        written = elements_of-AreWritten v vs read;
        printed = λ txt h.
            print-array a (v ∷ vs) read txt l h ∙ ap (λ l'. 91 ∷ l') (print-elements_of v vs read);
      }
