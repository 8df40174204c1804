-- ===== src/Week06/Json/Parser/Fuel.antt =====
-- The parser of week06/src/ds/json/parser.c comes to an end on every array of tokens.
use networks_course.Prelude.{
  ℕ, zero, suc, ◌+◌, ◌*◌, ◌<◌, ◌≤◌, Bytes, List, [], ◌∷◌, Run, ok, fault, length, arith,
}
use networks_course.Week06.Machine.{Machine}
use networks_course.Week06.Json.Value.{Json, null, boolean, integer, string, array, object}
use networks_course.Week06.Json.Interface.{
  create_json_array, create_json_object, json_array_append, json_set_property, json_destroy,
}
use networks_course.Week06.Json.Tokenizer.{
  Token, t_null, t_true, t_false, t_string, t_int, t_left_bracket, t_right_bracket, t_left_brace,
  t_right_brace, t_comma, t_colon,
}
use networks_course.Week06.Json.Parser.{
  Parse, parsed, rejected, faulted, out_of_fuel, run, reject, after_call, after_element,
  after_property, after_member, parse_json, parse_array, parse_elements, parse_members, parse_fuel,
}

-- The parse has come to an end, and a value leaves fewer than `n` tokens.
unfoldable pub Within : ℕ → Parse → Type 0
Within n (parsed v rest) = length rest < n
Within n rejected = Unit {0}
Within n faulted = Unit {0}
Within n out_of_fuel = ⊥

run-Within :
    {A : Type 0} (n : ℕ) (r : Run A) (k : A → Parse)
    → ((a : A) → Within n (k a))
    → Within n (run r k)
unfolding Within run
run-Within n (ok a) k h = h a
run-Within n fault k h = tt

module _ (m : Machine) where
  reject-Within : (n : ℕ) (v : Json) → Within n (reject m v)
  unfolding reject Within
  reject-Within n v = run-Within n (json_destroy m v) (λ _. rejected) (λ _. tt)

  after_call-Within :
      (l n : ℕ) (v : Json) (k : Json → List Token → Parse) (r : Parse)
      → Within l r
      → ((v' : Json) (rest : List Token) → length rest < l → Within n (k v' rest))
      → Within n (after_call m v k r)
  unfolding Within after_call
  after_call-Within l n v k (parsed v' rest) h f = f v' rest h
  after_call-Within l n v k rejected h f = reject-Within n v
  after_call-Within l n v k faulted h f = tt
  after_call-Within l n v k out_of_fuel h f = elim h [ ]

  after_element-Within :
      (n : ℕ) (again : List Token → Parse) (v : Json) (rest : List Token)
      → length rest < n
      → ((tokens : List Token) → suc (length tokens) < n → Within n (again tokens))
      → Within n (after_element m again v rest)
  unfolding Within after_element
  after_element-Within n again v [] h f = reject-Within n v
  after_element-Within n again v (t_comma ∷ tokens) h f = f tokens h
  after_element-Within n again v (t_right_bracket ∷ tokens) h f = omega arith
  after_element-Within n again v (t_null ∷ _) h f = reject-Within n v
  after_element-Within n again v (t_true ∷ _) h f = reject-Within n v
  after_element-Within n again v (t_false ∷ _) h f = reject-Within n v
  after_element-Within n again v (t_string _ ∷ _) h f = reject-Within n v
  after_element-Within n again v (t_int _ ∷ _) h f = reject-Within n v
  after_element-Within n again v (t_left_bracket ∷ _) h f = reject-Within n v
  after_element-Within n again v (t_left_brace ∷ _) h f = reject-Within n v
  after_element-Within n again v (t_right_brace ∷ _) h f = reject-Within n v
  after_element-Within n again v (t_colon ∷ _) h f = reject-Within n v

  after_member-Within :
      (n : ℕ) (again : List Token → Parse) (v : Json) (rest : List Token)
      → length rest < n
      → ((tokens : List Token) → suc (length tokens) < n → Within n (again tokens))
      → Within n (after_member m again v rest)
  unfolding Within after_member
  after_member-Within n again v [] h f = reject-Within n v
  after_member-Within n again v (t_comma ∷ tokens) h f = f tokens h
  after_member-Within n again v (t_right_brace ∷ tokens) h f = omega arith
  after_member-Within n again v (t_null ∷ _) h f = reject-Within n v
  after_member-Within n again v (t_true ∷ _) h f = reject-Within n v
  after_member-Within n again v (t_false ∷ _) h f = reject-Within n v
  after_member-Within n again v (t_string _ ∷ _) h f = reject-Within n v
  after_member-Within n again v (t_int _ ∷ _) h f = reject-Within n v
  after_member-Within n again v (t_left_bracket ∷ _) h f = reject-Within n v
  after_member-Within n again v (t_right_bracket ∷ _) h f = reject-Within n v
  after_member-Within n again v (t_left_brace ∷ _) h f = reject-Within n v
  after_member-Within n again v (t_colon ∷ _) h f = reject-Within n v

  destroy_both-Within :
      (n : ℕ) (v property : Json)
      → Within n (run (json_destroy m v) (λ _. run (json_destroy m property) (λ _. rejected)))
  unfolding Within
  destroy_both-Within n v property =
      run-Within n (json_destroy m v) _ (λ _. run-Within n (json_destroy m property) _ (λ _. tt))

  after_property-Within :
      (n : ℕ) (value_of : Bytes → List Token → Parse) (v property : Json) (rest : List Token)
      → length rest < n
      → ((name : Bytes) (tokens : List Token)
          → suc (length tokens) < n
          → Within n (value_of name tokens))
      → Within n (after_property m value_of v property rest)
  unfolding Within after_property
  after_property-Within n g v (string name) [] h f = destroy_both-Within n v (string name)
  after_property-Within n g v (string name) (t_colon ∷ tokens) h f = f name tokens h
  after_property-Within n g v (string name) (t_null ∷ _) h f = destroy_both-Within n v (string name)
  after_property-Within n g v (string name) (t_true ∷ _) h f = destroy_both-Within n v (string name)
  after_property-Within n g v (string name) (t_false ∷ _) h f =
      destroy_both-Within n v (string name)
  after_property-Within n g v (string name) (t_string _ ∷ _) h f =
      destroy_both-Within n v (string name)
  after_property-Within n g v (string name) (t_int _ ∷ _) h f =
      destroy_both-Within n v (string name)
  after_property-Within n g v (string name) (t_left_bracket ∷ _) h f =
      destroy_both-Within n v (string name)
  after_property-Within n g v (string name) (t_right_bracket ∷ _) h f =
      destroy_both-Within n v (string name)
  after_property-Within n g v (string name) (t_left_brace ∷ _) h f =
      destroy_both-Within n v (string name)
  after_property-Within n g v (string name) (t_right_brace ∷ _) h f =
      destroy_both-Within n v (string name)
  after_property-Within n g v (string name) (t_comma ∷ _) h f =
      destroy_both-Within n v (string name)
  after_property-Within n g v (null) rest h f = destroy_both-Within n v (null)
  after_property-Within n g v (boolean b) rest h f = destroy_both-Within n v (boolean b)
  after_property-Within n g v (integer i) rest h f = destroy_both-Within n v (integer i)
  after_property-Within n g v (array s l c) rest h f = destroy_both-Within n v (array s l c)
  after_property-Within n g v (object t) rest h f = destroy_both-Within n v (object t)

  weaken : (a b : ℕ) (r : Parse) → a ≤ b → Within a r → Within b r
  unfolding Within
  weaken a b (parsed v rest) le h = omega arith
  weaken a b rejected le h = tt
  weaken a b faulted le h = tt
  weaken a b out_of_fuel le h = elim h [ ]

  mutual
    unfolding Within parse_json

    parse_json-Within :
        (fuel : ℕ) (tokens : List Token)
        → 3 * length tokens + 1 ≤ fuel
        → Within (length tokens) (parse_json m fuel tokens)
    parse_json-Within zero tokens le = absurd (omega arith)
    parse_json-Within (suc fuel) [] le = tt
    parse_json-Within (suc fuel) (t_left_bracket ∷ tokens) le =
        weaken (length tokens) (suc (length tokens)) (parse_array m fuel tokens) (omega arith)
          (parse_array-Within fuel tokens (omega arith))
    parse_json-Within (suc fuel) (t_left_brace ∷ tokens) le =
        weaken (length tokens) (suc (length tokens))
          (parse_members m fuel create_json_object tokens) (omega arith)
          (parse_members-Within fuel create_json_object tokens (omega arith))
    parse_json-Within (suc fuel) (t_null ∷ tokens) le = omega arith
    parse_json-Within (suc fuel) (t_true ∷ tokens) le = omega arith
    parse_json-Within (suc fuel) (t_false ∷ tokens) le = omega arith
    parse_json-Within (suc fuel) (t_string x ∷ tokens) le = omega arith
    parse_json-Within (suc fuel) (t_int x ∷ tokens) le = omega arith
    parse_json-Within (suc fuel) (t_right_bracket ∷ tokens) le = tt
    parse_json-Within (suc fuel) (t_right_brace ∷ tokens) le = tt
    parse_json-Within (suc fuel) (t_comma ∷ tokens) le = tt
    parse_json-Within (suc fuel) (t_colon ∷ tokens) le = tt

    parse_array-Within :
        (fuel : ℕ) (tokens : List Token)
        → 3 * length tokens + 3 ≤ fuel
        → Within (length tokens) (parse_array m fuel tokens)
    parse_array-Within zero tokens le = absurd (omega arith)
    parse_array-Within (suc fuel) [] le = tt
    parse_array-Within (suc fuel) (t_right_bracket ∷ tokens) le = omega arith
    parse_array-Within (suc fuel) (t_null ∷ tokens) le =
        parse_elements-Within fuel (create_json_array m) (t_null ∷ tokens) (omega arith)
    parse_array-Within (suc fuel) (t_true ∷ tokens) le =
        parse_elements-Within fuel (create_json_array m) (t_true ∷ tokens) (omega arith)
    parse_array-Within (suc fuel) (t_false ∷ tokens) le =
        parse_elements-Within fuel (create_json_array m) (t_false ∷ tokens) (omega arith)
    parse_array-Within (suc fuel) (t_string x ∷ tokens) le =
        parse_elements-Within fuel (create_json_array m) (t_string x ∷ tokens) (omega arith)
    parse_array-Within (suc fuel) (t_int x ∷ tokens) le =
        parse_elements-Within fuel (create_json_array m) (t_int x ∷ tokens) (omega arith)
    parse_array-Within (suc fuel) (t_left_bracket ∷ tokens) le =
        parse_elements-Within fuel (create_json_array m) (t_left_bracket ∷ tokens) (omega arith)
    parse_array-Within (suc fuel) (t_left_brace ∷ tokens) le =
        parse_elements-Within fuel (create_json_array m) (t_left_brace ∷ tokens) (omega arith)
    parse_array-Within (suc fuel) (t_right_brace ∷ tokens) le =
        parse_elements-Within fuel (create_json_array m) (t_right_brace ∷ tokens) (omega arith)
    parse_array-Within (suc fuel) (t_comma ∷ tokens) le =
        parse_elements-Within fuel (create_json_array m) (t_comma ∷ tokens) (omega arith)
    parse_array-Within (suc fuel) (t_colon ∷ tokens) le =
        parse_elements-Within fuel (create_json_array m) (t_colon ∷ tokens) (omega arith)

    parse_elements-Within :
        (fuel : ℕ) (v : Json) (tokens : List Token)
        → 3 * length tokens + 2 ≤ fuel
        → Within (length tokens) (parse_elements m fuel v tokens)
    parse_elements-Within zero v tokens le = absurd (omega arith)
    parse_elements-Within (suc fuel) v tokens le =
        after_call-Within (length tokens) (length tokens) v _ (parse_json m fuel tokens)
          (parse_json-Within fuel tokens (omega arith))
          (λ element rest lt. run-Within (length tokens) (json_array_append m v element) _ (λ v'.
            after_element-Within (length tokens) (parse_elements m fuel v') v' rest lt
              (λ tokens' lt'.
                weaken (length tokens') (length tokens) (parse_elements m fuel v' tokens')
                  (omega arith) (parse_elements-Within fuel v' tokens' (omega arith)))))

    parse_members-Within :
        (fuel : ℕ) (v : Json) (tokens : List Token)
        → 3 * length tokens + 2 ≤ fuel
        → Within (length tokens) (parse_members m fuel v tokens)
    parse_members-Within zero v tokens le = absurd (omega arith)
    parse_members-Within (suc fuel) v tokens le =
        after_call-Within (length tokens) (length tokens) v _ (parse_json m fuel tokens)
          (parse_json-Within fuel tokens (omega arith))
          (λ property rest lt.
            after_property-Within (length tokens) _ v property rest lt (λ name tokens' lt'.
              after_call-Within (length tokens') (length tokens) v _ (parse_json m fuel tokens')
                (parse_json-Within fuel tokens' (omega arith))
                (λ value rest' lt2.
                  run-Within (length tokens) (json_set_property m v name value) _ (λ v'.
                    after_member-Within (length tokens) (parse_members m fuel v') v' rest'
                      (omega arith)
                      (λ tokens2 lt3.
                        weaken (length tokens2) (length tokens) (parse_members m fuel v' tokens2)
                          (omega arith) (parse_members-Within fuel v' tokens2 (omega arith)))))))

-- Whatever the machine, parsing comes to an end on every array of tokens, well-formed or not: it does
-- not run out of the fuel 3 * (number of tokens) + 3, and a value that it returns has taken at least
-- one token and leaves the rest.
pub parse_json_total :
    (m : Machine) (tokens : List Token)
    → Within (length tokens) (parse_json m (parse_fuel tokens) tokens)
unfolding parse_fuel
parse_json_total m tokens = parse_json-Within m (3 * length tokens + 3) tokens (omega arith)
