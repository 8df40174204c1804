-- ===== src/Week06/Json/Parser/Trees.antt =====
-- What the parser of week06/src/ds/json/parser.c makes of the sentences of the grammar above it.
use networks_course.Prelude.{ℕ, ◌+◌, Bytes, pos, List, ◌∷◌, Run, ok, ◌>>=◌, c_str}
use networks_course.Week06.Machine.{Machine}
use networks_course.Week06.Json.Value.{Json, null, boolean, integer}
use networks_course.Week06.Json.Interface.{
  create_json_string, create_json_array, create_json_object, json_array_append, json_set_property,
}
use networks_course.Week06.Json.Tokenizer.{
  Token, t_null, t_true, t_false, t_string, t_int, t_left_bracket, t_right_bracket, t_left_brace,
  t_right_brace, t_comma, t_colon,
}
use networks_course.Week06.Json.Parser.{int_value}

-- The sentences, but for the object without members.
mutual
  pub data Tree : Type 0 where
    l_null : Tree
    l_true : Tree
    l_false : Tree
    l_int : Bytes → Tree
    l_string : Bytes → Tree
    l_empty : Tree
    l_array : Elements → Tree
    l_object : Members → Tree

  pub data Elements : Type 0 where
    only : Tree → Elements
    more : Tree → Elements → Elements

  pub data Members : Type 0 where
    only_member : Bytes → Tree → Members
    more_members : Bytes → Tree → Members → Members

-- The tokens of a sentence, before other tokens.
unfoldable mutual
  pub tokens_of : Tree → List Token → List Token
  tokens_of l_null rest = t_null ∷ rest
  tokens_of l_true rest = t_true ∷ rest
  tokens_of l_false rest = t_false ∷ rest
  tokens_of (l_int text) rest = t_int text ∷ rest
  tokens_of (l_string text) rest = t_string text ∷ rest
  tokens_of l_empty rest = t_left_bracket ∷ t_right_bracket ∷ rest
  tokens_of (l_array es) rest = t_left_bracket ∷ tokens_of_elements es rest
  tokens_of (l_object ms) rest = t_left_brace ∷ tokens_of_members ms rest

  pub tokens_of_elements : Elements → List Token → List Token
  tokens_of_elements (only t) rest = tokens_of t (t_right_bracket ∷ rest)
  tokens_of_elements (more t es) rest = tokens_of t (t_comma ∷ tokens_of_elements es rest)

  pub tokens_of_members : Members → List Token → List Token
  tokens_of_members (only_member k t) rest =
      t_string k ∷ t_colon ∷ tokens_of t (t_right_brace ∷ rest)
  tokens_of_members (more_members k t ms) rest =
      t_string k ∷ t_colon ∷ tokens_of t (t_comma ∷ tokens_of_members ms rest)

unfoldable mutual
  pub cost : Tree → ℕ
  cost (l_array es) = 2 + cost_elements es
  cost (l_object ms) = 2 + cost_members ms
  cost _ = 1

  pub cost_elements : Elements → ℕ
  cost_elements (only t) = 1 + cost t
  cost_elements (more t es) = 1 + cost t + cost_elements es

  pub cost_members : Members → ℕ
  cost_members (only_member k t) = 2 + cost t
  cost_members (more_members k t ms) = 2 + cost t + cost_members ms

module _ (m : Machine) where
  -- The value of a sentence, made with the operations of the library.
  unfoldable mutual
    pub build : Tree → Run Json
    build l_null = ok null
    build l_true = ok (boolean (pos 1))
    build l_false = ok (boolean (pos 0))
    build (l_int text) = ok (integer (int_value text))
    build (l_string text) = ok (create_json_string text)
    build l_empty = ok (create_json_array m)
    build (l_array es) = append_all es (create_json_array m)
    build (l_object ms) = set_all ms create_json_object

    pub append_all : Elements → Json → Run Json
    append_all (only t) array' = build t >>= λ v. json_array_append m array' v
    append_all (more t es) array' = build t >>= λ v. json_array_append m array' v >>= append_all es

    pub set_all : Members → Json → Run Json
    set_all (only_member k t) object' = build t >>= λ v. json_set_property m object' (c_str k) v
    set_all (more_members k t ms) object' =
        build t >>= λ v. json_set_property m object' (c_str k) v >>= set_all ms
