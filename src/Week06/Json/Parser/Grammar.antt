-- ===== src/Week06/Json/Parser/Grammar.antt =====
-- The parser of week06/src/ds/json/parser.c follows its grammar.
use networks_course.Prelude.{
  ℕ, zero, suc, ◌+◌, ◌*◌, ◌≤◌, ◌≡◌, refl, sym, ap, ◌∙◌, List, ◌∷◌, Run, ok, fault, ◌>>=◌, length,
  c_str, arith,
}
use networks_course.Week06.Machine.{Machine}
use networks_course.Week06.Json.Value.{Json}
use networks_course.Week06.Json.Interface.{
  create_json_string, create_json_array, create_json_object, json_array_append, json_set_property,
}
use networks_course.Week06.Json.Tokenizer.{Token, t_right_bracket, t_right_brace, t_comma}
use networks_course.Week06.Json.Parser.{
  Parse, parsed, run, after_call, after_element, after_property, after_member, parse_json,
  parse_array, parse_elements, parse_members, parse_fuel,
}
use networks_course.Week06.Json.Parser.Trees.{
  Tree, Elements, Members, l_null, l_true, l_false, l_int, l_string, l_empty, l_array, l_object,
  only, more, only_member, more_members, tokens_of, tokens_of_elements, tokens_of_members, cost,
  cost_elements, cost_members, build, append_all, set_all,
}

run-bind :
    {A B : Type 0} (r : Run A) (g : A → Run B) (k : B → Parse)
    → run (r >>= g) k ≡ run r (λ a. run (g a) k)
unfolding run
run-bind (ok a) g k = refl
run-bind fault g k = refl

run-cong : {A : Type 0} (r : Run A) (k k' : A → Parse) → ((a : A) → k a ≡ k' a) → run r k ≡ run r k'
unfolding run
run-cong (ok a) k k' h = h a
run-cong fault k k' h = refl

after_call-run :
    (m : Machine) (c : Json) (k : Json → List Token → Parse) (r : Run Json) (rest : List Token)
    → after_call m c k (run r (λ v. parsed v rest)) ≡ run r (λ v. k v rest)
unfolding run after_call
after_call-run m c k (ok v) rest = refl
after_call-run m c k fault rest = refl

parse_array-tokens_of :
    (m : Machine) (fuel : ℕ) (t : Tree) (rest : List Token)
    → parse_array m (suc fuel) (tokens_of t rest)
      ≡ parse_elements m fuel (create_json_array m) (tokens_of t rest)
unfolding parse_json tokens_of
parse_array-tokens_of m fuel l_null rest = refl
parse_array-tokens_of m fuel l_true rest = refl
parse_array-tokens_of m fuel l_false rest = refl
parse_array-tokens_of m fuel (l_int x) rest = refl
parse_array-tokens_of m fuel (l_string x) rest = refl
parse_array-tokens_of m fuel l_empty rest = refl
parse_array-tokens_of m fuel (l_array x) rest = refl
parse_array-tokens_of m fuel (l_object x) rest = refl

parse_array-elements :
    (m : Machine) (fuel : ℕ) (es : Elements) (rest : List Token)
    → parse_array m (suc fuel) (tokens_of_elements es rest)
      ≡ parse_elements m fuel (create_json_array m) (tokens_of_elements es rest)
unfolding tokens_of
parse_array-elements m fuel (only t) rest = parse_array-tokens_of m fuel t _
parse_array-elements m fuel (more t es) rest = parse_array-tokens_of m fuel t _

module _ (m : Machine) where
  mutual
    unfolding parse_json tokens_of build cost run create_json_string after_call after_element
        after_member after_property

    parse_tree :
        (fuel : ℕ) (t : Tree) (rest : List Token)
        → cost t ≤ fuel
        → parse_json m fuel (tokens_of t rest) ≡ run (build m t) (λ v. parsed v rest)
    parse_tree zero l_null rest le = absurd (omega arith)
    parse_tree zero l_true rest le = absurd (omega arith)
    parse_tree zero l_false rest le = absurd (omega arith)
    parse_tree zero (l_int x) rest le = absurd (omega arith)
    parse_tree zero (l_string x) rest le = absurd (omega arith)
    parse_tree zero l_empty rest le = absurd (omega arith)
    parse_tree zero (l_array es) rest le = absurd (omega arith)
    parse_tree zero (l_object ms) rest le = absurd (omega arith)
    parse_tree (suc zero) (l_array es) rest le = absurd (omega arith)
    parse_tree (suc fuel) l_null rest le = refl
    parse_tree (suc fuel) l_true rest le = refl
    parse_tree (suc fuel) l_false rest le = refl
    parse_tree (suc fuel) (l_int x) rest le = refl
    parse_tree (suc fuel) (l_string x) rest le = refl
    parse_tree (suc fuel) l_empty rest le = refl
    parse_tree (suc (suc fuel)) (l_array es) rest le =
        parse_array-elements m fuel es rest
        ∙ parse_tree_elements fuel es (create_json_array m) rest (omega arith)
    parse_tree (suc fuel) (l_object ms) rest le =
        parse_tree_members fuel ms create_json_object rest (omega arith)

    parse_tree_elements :
        (fuel : ℕ) (es : Elements) (v : Json) (rest : List Token)
        → cost_elements es ≤ fuel
        → parse_elements m fuel v (tokens_of_elements es rest)
          ≡ run (append_all m es v) (λ v'. parsed v' rest)
    parse_tree_elements zero (only t) v rest le = absurd (omega arith)
    parse_tree_elements zero (more t es) v rest le = absurd (omega arith)
    parse_tree_elements (suc fuel) (only t) v rest le =
        ap (after_call m v _) (parse_tree fuel t (t_right_bracket ∷ rest) (omega arith))
        ∙ after_call-run m v _ (build m t) (t_right_bracket ∷ rest)
        ∙ sym (run-bind (build m t) _ _)
    parse_tree_elements (suc fuel) (more t es) v rest le =
        ap (after_call m v _)
          (parse_tree fuel t (t_comma ∷ tokens_of_elements es rest) (omega arith))
        ∙ after_call-run m v _ (build m t) (t_comma ∷ tokens_of_elements es rest)
        ∙ run-cong (build m t) _ _ (λ e.
          run-cong (json_array_append m v e) _ _
            (λ v'. parse_tree_elements fuel es v' rest (omega arith))
          ∙ sym (run-bind (json_array_append m v e) (append_all m es) _))
        ∙ sym (run-bind (build m t) _ _)

    parse_tree_members :
        (fuel : ℕ) (ms : Members) (v : Json) (rest : List Token)
        → cost_members ms ≤ fuel
        → parse_members m fuel v (tokens_of_members ms rest)
          ≡ run (set_all m ms v) (λ v'. parsed v' rest)
    parse_tree_members zero (only_member k t) v rest le = absurd (omega arith)
    parse_tree_members zero (more_members k t ms) v rest le = absurd (omega arith)
    parse_tree_members (suc zero) (only_member k t) v rest le = absurd (omega arith)
    parse_tree_members (suc zero) (more_members k t ms) v rest le = absurd (omega arith)
    parse_tree_members (suc (suc fuel)) (only_member k t) v rest le =
        ap (after_call m v _) (parse_tree (suc fuel) t (t_right_brace ∷ rest) (omega arith))
        ∙ after_call-run m v _ (build m t) (t_right_brace ∷ rest)
        ∙ sym (run-bind (build m t) _ _)
    parse_tree_members (suc (suc fuel)) (more_members k t ms) v rest le =
        ap (after_call m v _)
          (parse_tree (suc fuel) t (t_comma ∷ tokens_of_members ms rest) (omega arith))
        ∙ after_call-run m v _ (build m t) (t_comma ∷ tokens_of_members ms rest)
        ∙ run-cong (build m t) _ _ (λ e.
          run-cong (json_set_property m v (c_str k) e) _ _
            (λ v'. parse_tree_members (suc fuel) ms v' rest (omega arith))
          ∙ sym (run-bind (json_set_property m v (c_str k) e) (set_all m ms) _))
        ∙ sym (run-bind (build m t) _ _)

mutual
  unfolding tokens_of cost

  cost-tokens_of :
      (t : Tree) (rest : List Token) → cost t + 3 * length rest ≤ 3 * length (tokens_of t rest)
  cost-tokens_of l_null rest = omega arith
  cost-tokens_of l_true rest = omega arith
  cost-tokens_of l_false rest = omega arith
  cost-tokens_of (l_int x) rest = omega arith
  cost-tokens_of (l_string x) rest = omega arith
  cost-tokens_of l_empty rest = omega arith
  cost-tokens_of (l_array es) rest = omega (arith, cost_elements-tokens_of es rest)
  cost-tokens_of (l_object ms) rest = omega (arith, cost_members-tokens_of ms rest)

  cost_elements-tokens_of :
      (es : Elements) (rest : List Token)
      → cost_elements es + 3 * length rest ≤ 3 * length (tokens_of_elements es rest)
  cost_elements-tokens_of (only t) rest = omega (arith, cost-tokens_of t (t_right_bracket ∷ rest))
  cost_elements-tokens_of (more t es) rest = omega (
    arith,
    cost-tokens_of t (t_comma ∷ tokens_of_elements es rest),
    cost_elements-tokens_of es rest,
  )

  cost_members-tokens_of :
      (ms : Members) (rest : List Token)
      → cost_members ms + 3 * length rest ≤ 3 * length (tokens_of_members ms rest)
  cost_members-tokens_of (only_member k t) rest =
      omega (arith, cost-tokens_of t (t_right_brace ∷ rest))
  cost_members-tokens_of (more_members k t ms) rest = omega (
    arith,
    cost-tokens_of t (t_comma ∷ tokens_of_members ms rest),
    cost_members-tokens_of ms rest,
  )

-- The parser follows the grammar of its comment, the object without members left out: given the
-- tokens of a sentence and any tokens behind them, it does what making the value with
-- `create_json_*`, `json_array_append` and `json_set_property` does, in the order of the sentence; it
-- returns that value and the tokens behind the sentence, or meets the same access out of bounds.
pub parse_json-tokens_of :
    (m : Machine) (t : Tree) (rest : List Token)
    → parse_json m (parse_fuel (tokens_of t rest)) (tokens_of t rest)
      ≡ run (build m t) (λ v. parsed v rest)
unfolding parse_fuel
parse_json-tokens_of m t rest =
    parse_tree m (3 * length (tokens_of t rest) + 3) t rest (omega (arith, cost-tokens_of t rest))
