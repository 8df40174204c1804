-- ===== src/Week06/Json/Tokenizer.antt =====
-- `tokenize_json` of week06/src/ds/json/parser.c. The text is what is left of the bytes from the index
-- `i` on; behind its last byte stands a terminator.
pub mod Texts
pub mod Compact
use mathlib.Core.Option
use networks_course.Prelude.{
  ℕ, zero, suc, Bytes, ℤ, pos, negsuc, Bool, true, false, not, ◌&&◌, ◌||◌, List, [], ◌∷◌, map,
  Option, none, some, length, codes, ◌==◌, if◌then◌else◌,
}

-- `struct json_token`, by its type. Strings come without their quotes; of an integer, the text is
-- kept that `strtol` is going to read.
pub data Token : Type 0 where
  t_null : Token
  t_true : Token
  t_false : Token
  t_string : Bytes → Token
  t_int : Bytes → Token
  t_left_bracket : Token
  t_right_bracket : Token
  t_left_brace : Token
  t_right_brace : Token
  t_comma : Token
  t_colon : Token

-- What one round of the loop does with the byte at `i` and the bytes after it.
pub data Step : Type 0 where
  skip : Bytes → Step
  found : Token → Bytes → Step
  bad : Step

-- `strchr(set, c) != NULL`: the terminator of the set is found too.
unfoldable pub strchr : Bytes → ℕ → Bool
strchr [] c = c == 0
strchr (x ∷ xs) c = x == c || strchr xs c

abbrev pub breakers : Bytes
breakers = codes ",[]{} "

abbrev pub digits : Bytes
digits = codes "1234567890"

-- The loops `while (i < data_len && …) i += 1`: the bytes before and after the place where `i` stops.
unfoldable pub span : (ℕ → Bool) → Bytes → Bytes × Bytes
span p [] = ([], [])
span p (c ∷ cs) = let r = span p cs in if p c then (c ∷ r.0, r.1) else ([], c ∷ cs)

-- `strncmp(run, word, length of the run) == 0`.
unfoldable pub is_prefix : Bytes → Bytes → Bool
is_prefix [] word = true
is_prefix (c ∷ cs) [] = false
is_prefix (c ∷ cs) (w ∷ ws) = c == w && is_prefix cs ws

unfoldable pub literal : Bytes → Token → Bytes → Step
literal word token data' =
    let run = span (λ c. not (strchr breakers c)) data' in
    if is_prefix run.0 word then found token run.1 else bad

-- From behind the opening quote; the flags are `escape_1` and `escape_2`.
unfoldable pub string_body : Bool → Bool → Bytes → Option (Bytes × Bytes)
string_body escape_1 escape_2 [] = none
string_body escape_1 escape_2 (c ∷ cs) =
    let rest = string_body (c == 92) escape_1 cs in
    if c == 34 && (not escape_1 || escape_2)
    then some ([], cs)
    else Option.map (λ r. (c ∷ r.0, r.1)) rest

unfoldable pub string_token : Bytes → Step
string_token cs = elim (string_body false false cs) [
  | some (body, rest) ↦ found (t_string body) rest
  | none ↦ bad
]

unfoldable pub number : Bytes → Step
number data' = let run = span (strchr digits) data' in found (t_int run.0) run.1

-- The `switch`.
unfoldable pub next_token : ℕ → Bytes → Step
next_token c cs =
    if c == 32 || c == 10 || c == 9
    then skip cs
    else if c == 110
    then literal (codes "null") t_null (c ∷ cs)
    else if c == 116
    then literal (codes "true") t_true (c ∷ cs)
    else if c == 102
    then literal (codes "false") t_false (c ∷ cs)
    else if c == 34
    then string_token cs
    else if c == 91
    then found t_left_bracket cs
    else if c == 93
    then found t_right_bracket cs
    else if c == 123
    then found t_left_brace cs
    else if c == 125
    then found t_right_brace cs
    else if c == 44
    then found t_comma cs
    else if c == 58
    then found t_colon cs
    else if strchr digits c
    then number (c ∷ cs)
    else bad

unfoldable pub emit : Token → List Token × ℤ → List Token × ℤ
emit t r = (t ∷ r.0, r.1)

-- The loop: the tokens written and the value returned.
unfoldable pub tokenize : ℕ → Bytes → List Token × ℤ
tokenize zero data' = ([], pos 0)
tokenize (suc fuel) [] = ([], pos 0)
tokenize (suc fuel) (c ∷ cs) = elim (next_token c cs) [
  | skip rest ↦ tokenize fuel rest
  | found t rest ↦ emit t (tokenize fuel rest)
  | bad ↦ ([], negsuc 0)
]

-- Every round takes a byte.
unfoldable pub tokenize_json : Bytes → List Token × ℤ
tokenize_json data' = tokenize (length data') data'
