-- ===== src/Week06/Json/Tokenizer/Compact.antt =====
-- Tokens that are written without spaces, as `serialize_json` of week06/src/ds/json/parser.c writes
-- them.
use networks_course.Prelude.{
  ℕ, zero, suc, ◌≤◌, ◌≡◌, ◌⊎◌, inl, inr, refl, ap, ◌∙◌, Bytes, pos, true, false, List, [], ◌∷◌,
  ◌++◌, append_assoc, length, codes, arith, length-append,
}
use networks_course.Week06.Json.Tokenizer.{
  Token, strchr, breakers, digits, span, is_prefix, literal, number, next_token, emit, tokenize,
  tokenize_json, t_null, t_true, t_false, t_string, t_int, t_left_bracket, t_right_bracket,
  t_left_brace, t_right_brace, t_comma, t_colon, found,
}
use networks_course.Week06.Json.Tokenizer.Texts.{
  text, IsDigits, IsWritable, strchr-digits, next_token-digit, next_token-string, length-text,
}

unfoldable pub compact : List Token → Bytes
compact [] = []
compact (t ∷ ts) = text t ++ compact ts

-- What ends a word: a comma, or a bracket or brace that closes.
abbrev pub Closes : Bytes → Type 0
Closes [] = Unit {0}
Closes (c ∷ cs) = (c ≡ 44) ⊎ ((c ≡ 93) ⊎ (c ≡ 125))

-- Whether what stands behind a token ends it.
unfoldable pub Ends : Token → Bytes → Type 0
Ends t_null rest = Closes rest
Ends t_true rest = Closes rest
Ends t_false rest = Closes rest
Ends (t_int s) rest = Closes rest
Ends _ rest = Unit {0}

unfoldable pub Separated : List Token → Type 0
Separated [] = Unit {0}
Separated (t ∷ ts) = IsWritable t × (Ends t (compact ts) × Separated ts)

Closes-breaker : (c : ℕ) (cs : Bytes) → Closes (c ∷ cs) → strchr breakers c ≡ true
unfolding strchr
Closes-breaker c cs (inl e) = rw e refl
Closes-breaker c cs (inr (inl e)) = rw e refl
Closes-breaker c cs (inr (inr e)) = rw e refl

Closes-digits : (c : ℕ) (cs : Bytes) → Closes (c ∷ cs) → strchr digits c ≡ false
unfolding strchr
Closes-digits c cs (inl e) = rw e refl
Closes-digits c cs (inr (inl e)) = rw e refl
Closes-digits c cs (inr (inr e)) = rw e refl

span-closed :
    (s rest : Bytes) → IsDigits s → Closes rest → span (strchr digits) (s ++ rest) ≡ (s, rest)
unfolding span IsDigits
span-closed [] [] h k = refl
span-closed [] (c ∷ cs) h k = rw (Closes-digits c cs k) refl
span-closed (c ∷ s) rest (lo, hi, h) k = rw (strchr-digits c lo hi, span-closed s rest h k) refl

next_token-closed :
    (c : ℕ) (s rest : Bytes)
    → 48 ≤ c
    → c ≤ 57
    → IsDigits s
    → Closes rest
    → next_token c (s ++ rest) ≡ found (t_int (c ∷ s)) rest
unfolding number IsDigits
next_token-closed c s rest lo hi h k =
    rw (next_token-digit c (s ++ rest) lo hi, span-closed (c ∷ s) rest (lo, hi, h) k) refl

tokenize-next :
    (fuel c : ℕ) (cs : Bytes) (t : Token) (rest : Bytes)
    → next_token c cs ≡ found t rest
    → tokenize (suc fuel) (c ∷ cs) ≡ emit t (tokenize fuel rest)
unfolding tokenize
tokenize-next fuel c cs t rest e = rw (tokenize, e) refl

null_closed :
    (rest : Bytes) → Closes rest → next_token 110 (codes "ull" ++ rest) ≡ found t_null rest
unfolding next_token literal span strchr is_prefix
null_closed [] k = refl
null_closed (c ∷ cs) k = rw (Closes-breaker c cs k) refl

true_closed :
    (rest : Bytes) → Closes rest → next_token 116 (codes "rue" ++ rest) ≡ found t_true rest
unfolding next_token literal span strchr is_prefix
true_closed [] k = refl
true_closed (c ∷ cs) k = rw (Closes-breaker c cs k) refl

false_closed :
    (rest : Bytes) → Closes rest → next_token 102 (codes "alse" ++ rest) ≡ found t_false rest
unfolding next_token literal span strchr is_prefix
false_closed [] k = refl
false_closed (c ∷ cs) k = rw (Closes-breaker c cs k) refl

-- A round takes a token.
tokenize-token :
    (fuel : ℕ) (t : Token) (rest : Bytes)
    → IsWritable t
    → Ends t rest
    → tokenize (suc fuel) (text t ++ rest) ≡ emit t (tokenize fuel rest)
unfolding tokenize text Ends IsWritable IsDigits next_token
tokenize-token fuel t_null rest h k =
    tokenize-next fuel 110 (codes "ull" ++ rest) t_null rest (null_closed rest k)
tokenize-token fuel t_true rest h k =
    tokenize-next fuel 116 (codes "rue" ++ rest) t_true rest (true_closed rest k)
tokenize-token fuel t_false rest h k =
    tokenize-next fuel 102 (codes "alse" ++ rest) t_false rest (false_closed rest k)
tokenize-token fuel (t_string s) rest h k =
    ap (λ l. tokenize (suc fuel) (34 ∷ l)) (append_assoc s (34 ∷ []) rest)
    ∙ tokenize-next fuel 34 (s ++ 34 ∷ rest) (t_string s) rest (next_token-string s rest h)
tokenize-token fuel (t_int []) rest (n, h) k = absurd (omega arith)
tokenize-token fuel (t_int (c ∷ s)) rest (n, (lo, hi, h)) k =
    tokenize-next fuel c (s ++ rest) (t_int (c ∷ s)) rest (next_token-closed c s rest lo hi h k)
tokenize-token fuel t_left_bracket rest h k = refl
tokenize-token fuel t_right_bracket rest h k = refl
tokenize-token fuel t_left_brace rest h k = refl
tokenize-token fuel t_right_brace rest h k = refl
tokenize-token fuel t_comma rest h k = refl
tokenize-token fuel t_colon rest h k = refl

tokenize-compact :
    (fuel : ℕ) (ts : List Token)
    → Separated ts
    → length ts ≤ fuel
    → tokenize fuel (compact ts) ≡ (ts, pos 0)
unfolding Separated compact tokenize emit
tokenize-compact zero [] h le = refl
tokenize-compact (suc fuel) [] h le = refl
tokenize-compact zero (t ∷ ts) h le = absurd (omega arith)
tokenize-compact (suc fuel) (t ∷ ts) (w, (k, h)) le =
    tokenize-token fuel t (compact ts) w k ∙ ap (emit t) (tokenize-compact fuel ts h (omega arith))

pub length-compact : (ts : List Token) → Separated ts → length ts ≤ length (compact ts)
unfolding Separated compact
length-compact [] h = omega arith
length-compact (t ∷ ts) (w, (k, h)) =
    omega (arith, length-append (text t) (compact ts), length-text t w, length-compact ts h)

-- Tokens that are written without spaces are read back, where literals and integers are followed by a
-- comma, a closing bracket or brace, or the end.
pub tokenize_json-compact :
    (ts : List Token) → Separated ts → tokenize_json (compact ts) ≡ (ts, pos 0)
unfolding tokenize_json
tokenize_json-compact ts h = tokenize-compact (length (compact ts)) ts h (length-compact ts h)
