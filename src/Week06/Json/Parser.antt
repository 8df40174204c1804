-- ===== src/Week06/Json/Parser.antt =====
-- `parse_json` and `deserialize_json` of week06/src/ds/json/parser.c. The tokens are what is left
-- of the array from `tokens` on; the tokens behind them were never written.
pub mod Fuel
pub mod Trees
pub mod Grammar
pub mod Numbers
pub mod Printed
use networks_course.Prelude.{
  ℕ, zero, suc, ◌+◌, ◌-◌, ◌*◌, ◌^◌, min, Bytes, ℤ, pos, to_int32, List, [], ◌∷◌, Run, ok, fault,
  length, ltb, if◌then◌else◌,
}
use networks_course.Week06.Machine.{Machine}
use networks_course.Week06.Json.Value.{Json, null, boolean, integer, string}
use networks_course.Week06.Json.Interface.{
  create_json_object, create_json_string, create_json_array, json_array_append, json_set_property,
  json_destroy,
}
use networks_course.Week06.Json.Tokenizer.{
  Token, tokenize_json, t_null, t_true, t_false, t_string, t_int, t_left_bracket, t_right_bracket,
  t_left_brace, t_right_brace, t_comma, t_colon,
}

-- A value and the tokens behind it; a null pointer; an access out of bounds.
pub data Parse : Type 0 where
  parsed : Json → List Token → Parse
  rejected : Parse
  faulted : Parse
  out_of_fuel : Parse

-- A call that may fault.
unfoldable pub run {ℓ} : {A : Type ℓ} → Run A → (A → Parse) → Parse
run (ok a) k = k a
run fault k = faulted

-- `strtol` stays at the largest `long`.
unfoldable pub strtol : Bytes → ℕ → ℕ
strtol [] n = n
strtol (d ∷ ds) n = if ltb d 48 then n else strtol ds (min (n * 10 + (d - 48)) (2 ^ 63 - 1))

unfoldable pub int_value : Bytes → ℤ
int_value text = to_int32 (strtol text 0)

-- Three rounds for every token.
unfoldable pub parse_fuel : List Token → ℕ
parse_fuel tokens = 3 * length tokens + 3

abbrev pub output_buffer_size : ℕ
output_buffer_size = 102400

module _ (m : Machine) where
  -- `json_destroy(value); return NULL;`
  unfoldable pub reject : Json → Parse
  reject value = run (json_destroy m value) (λ _. rejected)

  -- After a recursive call: a null pointer destroys the container.
  unfoldable pub after_call : Json → (Json → List Token → Parse) → Parse → Parse
  unfolding reject
  after_call container k (parsed v rest) = k v rest
  after_call container k rejected = reject container
  after_call container k faulted = faulted
  after_call container k out_of_fuel = out_of_fuel

  -- After an element; `again` is the next round.
  unfoldable pub after_element : (List Token → Parse) → Json → List Token → Parse
  unfolding reject
  after_element again array' (t_comma ∷ tokens) = again tokens
  after_element again array' (t_right_bracket ∷ tokens) = parsed array' tokens
  after_element again array' _ = reject array'

  -- Between the property and its value. A property that is no string is destroyed after the object.
  unfoldable pub after_property : (Bytes → List Token → Parse) → Json → Json → List Token → Parse
  after_property value_of object' (string property) (t_colon ∷ tokens) = value_of property tokens
  after_property value_of object' property _ =
      run (json_destroy m object') (λ _. run (json_destroy m property) (λ _. rejected))

  unfoldable pub after_member : (List Token → Parse) → Json → List Token → Parse
  unfolding reject
  after_member again object' (t_comma ∷ tokens) = again tokens
  after_member again object' (t_right_brace ∷ tokens) = parsed object' tokens
  after_member again object' _ = reject object'

  unfoldable mutual
    pub parse_json : ℕ → List Token → Parse
    parse_json zero tokens = out_of_fuel
    parse_json (suc fuel) [] = rejected
    parse_json (suc fuel) (t_null ∷ tokens) = parsed null tokens
    parse_json (suc fuel) (t_false ∷ tokens) = parsed (boolean (pos 0)) tokens
    parse_json (suc fuel) (t_true ∷ tokens) = parsed (boolean (pos 1)) tokens
    parse_json (suc fuel) (t_int text ∷ tokens) = parsed (integer (int_value text)) tokens
    parse_json (suc fuel) (t_string text ∷ tokens) = parsed (create_json_string text) tokens
    parse_json (suc fuel) (t_left_bracket ∷ tokens) = parse_array fuel tokens
    parse_json (suc fuel) (t_left_brace ∷ tokens) = parse_members fuel create_json_object tokens
    parse_json (suc fuel) (_ ∷ tokens) = rejected

    -- Behind the opening bracket.
    pub parse_array : ℕ → List Token → Parse
    parse_array fuel [] = faulted
    parse_array fuel (t_right_bracket ∷ tokens) = parsed (create_json_array m) tokens
    parse_array zero tokens = out_of_fuel
    parse_array (suc fuel) tokens = parse_elements fuel (create_json_array m) tokens

    -- A round of the first `while (1)`.
    pub parse_elements : ℕ → Json → List Token → Parse
    parse_elements zero array' tokens = out_of_fuel
    parse_elements (suc fuel) array' tokens =
        after_call array'
          (λ element rest.
            run (json_array_append m array' element)
              (λ array''. after_element (parse_elements fuel array'') array'' rest))
          (parse_json fuel tokens)

    -- A round of the second `while (1)`.
    pub parse_members : ℕ → Json → List Token → Parse
    parse_members zero object' tokens = out_of_fuel
    parse_members (suc fuel) object' tokens =
        after_call object'
          (λ property.
            after_property
              (λ name tokens'.
                after_call object'
                  (λ value rest.
                    run (json_set_property m object' name value)
                      (λ object''. after_member (parse_members fuel object'') object'' rest))
                  (parse_json fuel tokens'))
              object' property)
          (parse_json fuel tokens)

  -- The answer of `tokenize_json` is not looked at, nor the tokens behind the value.
  unfoldable pub deserialize_json : Bytes → Parse
  deserialize_json data' =
      let tokens = (tokenize_json data').0 in
      if ltb output_buffer_size (length tokens)
      then faulted
      else parse_json (parse_fuel tokens) tokens
