-- ===== src/Week06/Json/Parser/Printed.antt =====
-- `deserialize_json` of week06/src/ds/json/parser.c on the sentences of the grammar, written
-- without spaces.
use networks_course.Prelude.{
  ◌<◌, ◌≤◌, ◌≡◌, inl, inr, refl, sym, ap, ◌∙◌, Bytes, pos, false, List, [], ◌∷◌, ◌++◌, append-nil,
  append_assoc, length, codes, ltb, arith, ltb_not_lt,
}
use networks_course.Week06.Machine.{Machine}
use networks_course.Week06.Json.Tokenizer.{
  Token, tokenize_json, t_right_bracket, t_right_brace, t_comma,
}
use networks_course.Week06.Json.Tokenizer.Texts.{text, IsPlain, IsDigits, IsWritable}
use networks_course.Week06.Json.Tokenizer.Compact.{
  compact, Closes, Ends, Separated, length-compact, tokenize_json-compact,
}
use networks_course.Week06.Json.Serializer.{quoted}
use networks_course.Week06.Json.Parser.{run, output_buffer_size, deserialize_json, parsed}
use networks_course.Week06.Json.Parser.Trees.{
  Tree, Elements, Members, tokens_of, tokens_of_elements, tokens_of_members, build, l_null, l_true,
  l_false, l_int, l_string, l_empty, l_array, l_object, only, more, only_member, more_members,
}
use networks_course.Week06.Json.Parser.Grammar.{parse_json-tokens_of}

-- A sentence as it is written.
unfoldable mutual
  pub print : Tree → Bytes
  print l_null = codes "null"
  print l_true = codes "true"
  print l_false = codes "false"
  print (l_int text) = text
  print (l_string text) = quoted text
  print l_empty = codes "[]"
  print (l_array es) = 91 ∷ print_elements es
  print (l_object ms) = 123 ∷ print_members ms

  pub print_elements : Elements → Bytes
  print_elements (only t) = print t ++ 93 ∷ []
  print_elements (more t es) = print t ++ 44 ∷ print_elements es

  pub print_members : Members → Bytes
  print_members (only_member k t) = quoted k ++ 58 ∷ (print t ++ 125 ∷ [])
  print_members (more_members k t ms) = quoted k ++ 58 ∷ (print t ++ 44 ∷ print_members ms)

-- Strings and keys without quotes and backslashes, and integers of digits.
unfoldable mutual
  pub IsWritten : Tree → Type 0
  IsWritten (l_int text) = (0 < length text) × IsDigits text
  IsWritten (l_string text) = IsPlain text
  IsWritten (l_array es) = AreWritten es
  IsWritten (l_object ms) = MembersWritten ms
  IsWritten _ = Unit {0}

  pub AreWritten : Elements → Type 0
  AreWritten (only t) = IsWritten t
  AreWritten (more t es) = IsWritten t × AreWritten es

  pub MembersWritten : Members → Type 0
  MembersWritten (only_member k t) = IsPlain k × IsWritten t
  MembersWritten (more_members k t ms) = IsPlain k × (IsWritten t × MembersWritten ms)

-- What is written, before the text of other tokens.
mutual
  unfolding print tokens_of compact text quoted

  compact-tokens_of :
      (t : Tree) (rest : List Token) → compact (tokens_of t rest) ≡ print t ++ compact rest
  compact-tokens_of l_null rest = refl
  compact-tokens_of l_true rest = refl
  compact-tokens_of l_false rest = refl
  compact-tokens_of (l_int x) rest = refl
  compact-tokens_of (l_string x) rest = refl
  compact-tokens_of l_empty rest = refl
  compact-tokens_of (l_array es) rest = ap (λ l. 91 ∷ l) (compact-elements es rest)
  compact-tokens_of (l_object ms) rest = ap (λ l. 123 ∷ l) (compact-members ms rest)

  compact-elements :
      (es : Elements) (rest : List Token)
      → compact (tokens_of_elements es rest) ≡ print_elements es ++ compact rest
  compact-elements (only t) rest =
      compact-tokens_of t (t_right_bracket ∷ rest)
      ∙ sym (append_assoc (print t) (93 ∷ []) (compact rest))
  compact-elements (more t es) rest =
      compact-tokens_of t (t_comma ∷ tokens_of_elements es rest)
      ∙ ap (λ l. print t ++ 44 ∷ l) (compact-elements es rest)
      ∙ sym (append_assoc (print t) (44 ∷ print_elements es) (compact rest))

  compact-members :
      (ms : Members) (rest : List Token)
      → compact (tokens_of_members ms rest) ≡ print_members ms ++ compact rest
  compact-members (only_member k t) rest =
      ap (λ l. quoted k ++ 58 ∷ l)
        (compact-tokens_of t (t_right_brace ∷ rest)
          ∙ sym (append_assoc (print t) (125 ∷ []) (compact rest)))
      ∙ sym (append_assoc (quoted k) (58 ∷ (print t ++ 125 ∷ [])) (compact rest))
  compact-members (more_members k t ms) rest =
      ap (λ l. quoted k ++ 58 ∷ l)
        (compact-tokens_of t (t_comma ∷ tokens_of_members ms rest)
          ∙ ap (λ l. print t ++ 44 ∷ l) (compact-members ms rest)
          ∙ sym (append_assoc (print t) (44 ∷ print_members ms) (compact rest)))
      ∙ sym (append_assoc (quoted k) (58 ∷ (print t ++ 44 ∷ print_members ms)) (compact rest))

mutual
  unfolding tokens_of Separated compact text Ends IsWritable IsWritten

  tokens_of-Separated :
      (t : Tree) (rest : List Token)
      → IsWritten t
      → Closes (compact rest)
      → Separated rest
      → Separated (tokens_of t rest)
  tokens_of-Separated l_null rest w k h = (tt, (k, h))
  tokens_of-Separated l_true rest w k h = (tt, (k, h))
  tokens_of-Separated l_false rest w k h = (tt, (k, h))
  tokens_of-Separated (l_int x) rest w k h = (w, (k, h))
  tokens_of-Separated (l_string x) rest w k h = (w, (tt, h))
  tokens_of-Separated l_empty rest w k h = (tt, (tt, (tt, (tt, h))))
  tokens_of-Separated (l_array es) rest w k h = (tt, (tt, elements-Separated es rest w h))
  tokens_of-Separated (l_object ms) rest w k h = (tt, (tt, members-Separated ms rest w h))

  elements-Separated :
      (es : Elements) (rest : List Token)
      → AreWritten es
      → Separated rest
      → Separated (tokens_of_elements es rest)
  elements-Separated (only t) rest w h =
      tokens_of-Separated t (t_right_bracket ∷ rest) w (inr (inl refl)) (tt, (tt, h))
  elements-Separated (more t es) rest w h =
      tokens_of-Separated t (t_comma ∷ tokens_of_elements es rest) w.0 (inl refl)
        (tt, (tt, elements-Separated es rest w.1 h))

  members-Separated :
      (ms : Members) (rest : List Token)
      → MembersWritten ms
      → Separated rest
      → Separated (tokens_of_members ms rest)
  members-Separated (only_member k t) rest w h = (
    w.0,
    (
      tt,
      (tt, (tt, tokens_of-Separated t (t_right_brace ∷ rest) w.1 (inr (inr refl)) (tt, (tt, h)))),
    ),
  )
  members-Separated (more_members k t ms) rest w h = (
    w.0,
    (
      tt,
      (
        tt,
        (
          tt,
          tokens_of-Separated t (t_comma ∷ tokens_of_members ms rest) w.1.0 (inl refl)
              (tt, (tt, members-Separated ms rest w.1.1 h)),
        ),
      ),
    ),
  )

tokens_of-print : (t : Tree) → IsWritten t → tokenize_json (print t) ≡ (tokens_of t [], pos 0)
unfolding compact Separated
tokens_of-print t w =
    let whole : compact (tokens_of t []) ≡ print t =
      compact-tokens_of t [] ∙ append-nil (print t) in
    ap tokenize_json (sym whole)
    ∙ tokenize_json-compact (tokens_of t []) (tokens_of-Separated t [] w tt tt)

length-tokens_of : (t : Tree) → IsWritten t → length (tokens_of t []) ≤ length (print t)
unfolding compact Separated
length-tokens_of t w = omega (
  arith,
  length-compact (tokens_of t []) (tokens_of-Separated t [] w tt tt),
  ap length (compact-tokens_of t [] ∙ append-nil (print t)),
)

pub deserialize_json-print :
    (m : Machine) (t : Tree)
    → IsWritten t
    → length (print t) ≤ 102400
    → deserialize_json m (print t) ≡ run (build m t) (λ v. parsed v [])
unfolding deserialize_json
deserialize_json-print m t w le =
    let fits : ltb output_buffer_size (length (tokens_of t [])) ≡ false =
      ltb_not_lt output_buffer_size (length (tokens_of t []))
        (omega (arith, length-tokens_of t w)) in
    rw (tokens_of-print t w, fits) (parse_json-tokens_of m t [])
