-- ===== src/Week06/Json/RoundTrip/Made.antt =====
-- `serialize_json` and then `deserialize_json` of week06/src/ds/json/parser.c, on the values that a
-- program makes with week06/src/ds/json/interface.c.
use networks_course.Prelude.{
  ℕ, zero, suc, ◌^◌, ◌<◌, ◌≤◌, ◌≡◌, refl, sym, ap, subst, ◌∙◌, Bytes, pos, [], ◌∷◌, ok,
  ok-injective, >>=-eq-ok, >>-eq-ok, length, c_str, ltb,
}
use networks_course.Week06.Machine.{Machine, Distinct}
use networks_course.Week06.Json.Value.{Json, null, boolean, integer, string}
use networks_course.Week06.Json.Interface.{
  create_json_object, create_json_string, create_json_array, json_array_append, json_set_property,
}
use networks_course.Week06.Json.Tokenizer.Texts.{IsPlain}
use networks_course.Week06.Json.Serializer.{print_int, serialize_json_at, serialize_json}
use networks_course.Week06.Json.Parser.{run, deserialize_json, parsed}
use networks_course.Week06.Json.Parser.Numbers.{
  decimal-IsDigits, length-decimal, int_value-print_int,
}
use networks_course.Week06.Json.Parser.Trees.{build, l_null, l_true, l_false, l_int, l_string}
use networks_course.Week06.Json.Parser.Printed.{print, IsWritten, deserialize_json-print}
use networks_course.Week06.Json.RoundTrip.{ReadBack}
use networks_course.Week06.Json.RoundTrip.Arrays.{
  ArrayRead, create-ArrayRead, append-ArrayRead, ArrayRead-ReadBack,
}
use networks_course.Week06.Json.RoundTrip.Objects.{ObjectRead, create-ObjectRead, set-Grown}
use networks_course.Week06.Json.RoundTrip.Rebuilt.{Grown-ReadBack}

-- Null, the booleans 0 and 1, integers that are not negative, strings, arrays that were appended
-- to, and objects with at least one property that was set: with strings and keys without quotes and
-- backslashes.
module _ (m : Machine) where
  mutual
    pub data Made : Json → Type 0 where
      made_null : Made null
      made_false : Made (boolean (pos 0))
      made_true : Made (boolean (pos 1))
      made_integer : (n : ℕ) → n < 2 ^ 31 → Made (integer (pos n))
      made_string : (s : Bytes) → IsPlain (c_str s) → Made (string (c_str s))
      made_array : (a : Json) → MadeArray a → Made a
      made_object :
          (o : Json) (k : Bytes) (v o' : Json)
          → MadeObject o
          → IsPlain k
          → c_str k ≡ k
          → Made v
          → json_set_property m o k v ≡ ok o'
          → Made o'

    pub data MadeArray : Json → Type 0 where
      created_array : (a : Json) → a ≡ create_json_array m → MadeArray a
      appended :
          (a v a' : Json) → MadeArray a → Made v → json_array_append m a v ≡ ok a' → MadeArray a'

    pub data MadeObject : Json → Type 0 where
      created_object : (o : Json) → o ≡ create_json_object → MadeObject o
      property_set :
          (o : Json) (k : Bytes) (v o' : Json)
          → MadeObject o
          → IsPlain k
          → c_str k ≡ k
          → Made v
          → json_set_property m o k v ≡ ok o'
          → MadeObject o'

  c_str_idem : (s : Bytes) → c_str (c_str s) ≡ c_str s
  unfolding c_str
  c_str_idem [] = refl
  c_str_idem (zero ∷ s) = refl
  c_str_idem (suc c ∷ s) = ap (λ l. suc c ∷ l) (c_str_idem s)

  null-ReadBack : ReadBack m null
  unfolding build IsWritten print serialize_json_at
  null-ReadBack = record {
    tree = l_null;
    builds = refl;
    written = tt;
    printed = λ txt h. sym (ok-injective h);
  }

  false-ReadBack : ReadBack m (boolean (pos 0))
  unfolding build IsWritten print serialize_json_at
  false-ReadBack = record {
    tree = l_false;
    builds = refl;
    written = tt;
    printed = λ txt h. sym (ok-injective h);
  }

  true-ReadBack : ReadBack m (boolean (pos 1))
  unfolding build IsWritten print serialize_json_at
  true-ReadBack = record {
    tree = l_true;
    builds = refl;
    written = tt;
    printed = λ txt h. sym (ok-injective h);
  }

  integer-ReadBack : (n : ℕ) → n < 2 ^ 31 → ReadBack m (integer (pos n))
  unfolding build IsWritten print serialize_json_at print_int
  integer-ReadBack n h = record {
    tree = l_int (print_int (pos n));
    builds = ap (λ i. ok (integer i)) (int_value-print_int n h);
    written = (length-decimal 9 n, decimal-IsDigits 10 n);
    printed = λ txt e. sym (ok-injective e);
  }

  string-ReadBack : (s : Bytes) → IsPlain (c_str s) → ReadBack m (string (c_str s))
  unfolding build IsWritten print serialize_json_at create_json_string
  string-ReadBack s h = record {
    tree = l_string (c_str s);
    builds = ap (λ x. ok (string x)) (c_str_idem s);
    written = h;
    printed = λ txt e. sym (ok-injective e);
  }

  module _ (d : Distinct m) where
    mutual
      Made-ReadBack : (v : Json) → Made v → ReadBack m v
      Made-ReadBack _ made_null = null-ReadBack
      Made-ReadBack _ made_false = false-ReadBack
      Made-ReadBack _ made_true = true-ReadBack
      Made-ReadBack _ (made_integer n h) = integer-ReadBack n h
      Made-ReadBack _ (made_string s h) = string-ReadBack s h
      Made-ReadBack _ (made_array a h) = ArrayRead-ReadBack m a (MadeArray-ArrayRead a h)
      Made-ReadBack _ (made_object o k v o' ho plain same hv e) =
          Grown-ReadBack m d o'
            (set-Grown m d o k v o' (MadeObject-ObjectRead o ho) plain same (Made-ReadBack v hv) e)

      MadeArray-ArrayRead : (a : Json) → MadeArray a → ArrayRead m a
      MadeArray-ArrayRead _ (created_array a e) = subst (ArrayRead m) (sym e) (create-ArrayRead m)
      MadeArray-ArrayRead _ (appended a v a' ha hv e) =
          append-ArrayRead m a a' v (MadeArray-ArrayRead a ha) (Made-ReadBack v hv) e

      MadeObject-ObjectRead : (o : Json) → MadeObject o → ObjectRead m o
      MadeObject-ObjectRead _ (created_object o e) =
          subst (ObjectRead m) (sym e) (create-ObjectRead m)
      MadeObject-ObjectRead _ (property_set o k v o' ho plain same hv e) =
          let g =
            set-Grown m d o k v o' (MadeObject-ObjectRead o ho) plain same (Made-ReadBack v hv) e in
          g.object_read

-- What `serialize_json` writes of a value is read back by `deserialize_json` as the value itself.
-- The values are null, the booleans 0 and 1, the integers that are not negative, strings, arrays
-- made by `create_json_array` and `json_array_append` alone, and objects made by
-- `create_json_object` and at least one `json_set_property`, of such values. Assumed is that
-- strings and keys have no quotes and no backslashes, that the memory of a table's entry is never
-- taken for a key, that writing returns, and that the text is not longer than the array of tokens.
pub deserialize_json-serialize_json :
    (m : Machine)
    → Distinct m
    → (v : Json) (txt : Bytes) → Made m v
    → serialize_json m v ≡ ok txt
    → length txt ≤ 102400
    → deserialize_json m txt ≡ parsed v []
unfolding serialize_json run
deserialize_json-serialize_json m d v txt made h le =
    let r = Made-ReadBack m d v made in
    let (txt', e, k) = >>=-eq-ok (serialize_json_at m v) _ h in
    let (_, k') = >>-eq-ok (ltb (length txt') (m.usable 102400)) _ k in
    let same : txt ≡ print r.tree = sym (ok-injective k') ∙ r.printed txt' e in
    ap (deserialize_json m) same
    ∙ deserialize_json-print m r.tree r.written (subst (λ t. length t ≤ 102400) same le)
    ∙ ap (λ x. run x (λ v. parsed v [])) r.builds
