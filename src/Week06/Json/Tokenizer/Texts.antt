-- ===== src/Week06/Json/Tokenizer/Texts.antt =====
-- The tokenizer of week06/src/ds/json/parser.c reads back the tokens that were written.
use networks_course.Prelude.{
  ℕ, zero, suc, ◌<◌, ◌≤◌, ◌≡◌, ◌≢◌, refl, ap, ◌∙◌, Bytes, pos, true, false, List, [], ◌∷◌, ◌++◌,
  append_assoc, some, length, codes, arith, length-append, ==_ne,
}
use networks_course.Week06.Json.Tokenizer.{
  Token, t_null, t_true, t_false, t_string, t_int, t_left_bracket, t_right_bracket, t_left_brace,
  t_right_brace, t_comma, t_colon, skip, found, strchr, digits, span, is_prefix, literal,
  string_body, string_token, number, next_token, emit, tokenize, tokenize_json,
}

-- A token as it is written.
unfoldable pub text : Token → Bytes
text t_null = codes "null"
text t_true = codes "true"
text t_false = codes "false"
text (t_string s) = 34 ∷ (s ++ 34 ∷ [])
text (t_int s) = s
text t_left_bracket = 91 ∷ []
text t_right_bracket = 93 ∷ []
text t_left_brace = 123 ∷ []
text t_right_brace = 125 ∷ []
text t_comma = 44 ∷ []
text t_colon = 58 ∷ []

-- Tokens with a space behind each.
unfoldable pub spaced : List Token → Bytes
spaced [] = []
spaced (t ∷ ts) = text t ++ 32 ∷ spaced ts

-- A string has no quotes and no backslashes, an integer some digits and nothing else.
unfoldable pub IsPlain : Bytes → Type 0
IsPlain [] = Unit {0}
IsPlain (c ∷ cs) = (c ≢ 34) × (c ≢ 92) × IsPlain cs

unfoldable pub IsDigits : Bytes → Type 0
IsDigits [] = Unit {0}
IsDigits (c ∷ cs) = (48 ≤ c) × (c ≤ 57) × IsDigits cs

unfoldable pub IsWritable : Token → Type 0
IsWritable (t_string s) = IsPlain s
IsWritable (t_int s) = (0 < length s) × IsDigits s
IsWritable _ = Unit {0}

unfoldable pub AllWritable : List Token → Type 0
AllWritable [] = Unit {0}
AllWritable (t ∷ ts) = IsWritable t × AllWritable ts

string_body-plain :
    (s rest : Bytes) → IsPlain s → string_body false false (s ++ 34 ∷ rest) ≡ some (s, rest)
unfolding string_body IsPlain
string_body-plain [] rest h = refl
string_body-plain (c ∷ cs) rest (q, b, h) =
    rw (==_ne c 34 q, ==_ne c 92 b, string_body-plain cs rest h) refl

pub strchr-digits : (c : ℕ) → 48 ≤ c → c ≤ 57 → strchr digits c ≡ true
unfolding strchr
strchr-digits c lo hi = ground arith

span-digits : (s rest : Bytes) → IsDigits s → span (strchr digits) (s ++ 32 ∷ rest) ≡ (s, 32 ∷ rest)
unfolding span IsDigits strchr
span-digits [] rest h = refl
span-digits (c ∷ cs) rest (lo, hi, h) = rw (strchr-digits c lo hi, span-digits cs rest h) refl

pub next_token-digit : (c : ℕ) (cs : Bytes) → 48 ≤ c → c ≤ 57 → next_token c cs ≡ number (c ∷ cs)
unfolding next_token
next_token-digit c cs lo hi =
    rw
      (
        ==_ne c 32 (λ e. omega arith),
        ==_ne c 10 (λ e. omega arith),
        ==_ne c 9 (λ e. omega arith),
        ==_ne c 110 (λ e. omega arith),
        ==_ne c 116 (λ e. omega arith),
        ==_ne c 102 (λ e. omega arith),
        ==_ne c 34 (λ e. omega arith),
        ==_ne c 91 (λ e. omega arith),
        ==_ne c 93 (λ e. omega arith),
        ==_ne c 123 (λ e. omega arith),
        ==_ne c 125 (λ e. omega arith),
        ==_ne c 44 (λ e. omega arith),
        ==_ne c 58 (λ e. omega arith),
        strchr-digits c lo hi,
      )
      refl

pub string_token-plain :
    (s rest : Bytes) → IsPlain s → string_token (s ++ 34 ∷ rest) ≡ found (t_string s) rest
unfolding string_token
string_token-plain s rest h = rw (string_token, string_body-plain s rest h) refl

pub next_token-string :
    (s rest : Bytes) → IsPlain s → next_token 34 (s ++ 34 ∷ rest) ≡ found (t_string s) rest
unfolding next_token
next_token-string s rest h = string_token-plain s rest h

next_token-number :
    (c : ℕ) (cs rest : Bytes)
    → 48 ≤ c
    → c ≤ 57
    → IsDigits cs
    → next_token c (cs ++ 32 ∷ rest) ≡ found (t_int (c ∷ cs)) (32 ∷ rest)
unfolding number IsDigits
next_token-number c cs rest lo hi h =
    rw (next_token-digit c (cs ++ 32 ∷ rest) lo hi, span-digits (c ∷ cs) rest (lo, hi, h)) refl

next_token-space : (rest : Bytes) → next_token 32 rest ≡ skip rest
unfolding next_token
next_token-space rest = refl

tokenize-found :
    (fuel c : ℕ) (cs : Bytes) (t : Token) (rest : Bytes)
    → next_token c cs ≡ found t (32 ∷ rest)
    → tokenize (suc (suc fuel)) (c ∷ cs) ≡ emit t (tokenize fuel rest)
unfolding tokenize
tokenize-found fuel c cs t rest e = rw (tokenize, e, next_token-space rest) refl

-- Two rounds take a token and the space behind it.
tokenize-text :
    (fuel : ℕ) (t : Token) (rest : Bytes)
    → IsWritable t
    → tokenize (suc (suc fuel)) (text t ++ 32 ∷ rest) ≡ emit t (tokenize fuel rest)
unfolding tokenize next_token literal span strchr is_prefix emit text IsWritable string_token number
    IsDigits
tokenize-text fuel t_null rest h = refl
tokenize-text fuel t_true rest h = refl
tokenize-text fuel t_false rest h = refl
tokenize-text fuel (t_string s) rest h =
    ap (λ l. tokenize (suc (suc fuel)) (34 ∷ l)) (append_assoc s (34 ∷ []) (32 ∷ rest))
    ∙ tokenize-found fuel 34 (s ++ 34 ∷ 32 ∷ rest) (t_string s) rest
        (next_token-string s (32 ∷ rest) h)
tokenize-text fuel (t_int []) rest (n, h) = absurd (omega arith)
tokenize-text fuel (t_int (c ∷ cs)) rest (n, (lo, hi, h)) =
    tokenize-found fuel c (cs ++ 32 ∷ rest) (t_int (c ∷ cs)) rest
      (next_token-number c cs rest lo hi h)
tokenize-text fuel t_left_bracket rest h = refl
tokenize-text fuel t_right_bracket rest h = refl
tokenize-text fuel t_left_brace rest h = refl
tokenize-text fuel t_right_brace rest h = refl
tokenize-text fuel t_comma rest h = refl
tokenize-text fuel t_colon rest h = refl

pub length-text : (t : Token) → IsWritable t → 0 < length (text t)
unfolding text IsWritable
length-text t_null h = omega arith
length-text t_true h = omega arith
length-text t_false h = omega arith
length-text (t_string s) h = omega arith
length-text (t_int s) (n, h) = n
length-text t_left_bracket h = omega arith
length-text t_right_bracket h = omega arith
length-text t_left_brace h = omega arith
length-text t_right_brace h = omega arith
length-text t_comma h = omega arith
length-text t_colon h = omega arith

tokenize-spaced :
    (fuel : ℕ) (ts : List Token)
    → AllWritable ts
    → length (spaced ts) ≤ fuel
    → tokenize fuel (spaced ts) ≡ (ts, pos 0)
unfolding spaced AllWritable tokenize emit
tokenize-spaced zero [] h le = refl
tokenize-spaced (suc fuel) [] h le = refl
tokenize-spaced zero (t ∷ ts) (h, hs) le =
    absurd (omega (arith, length-append (text t) (32 ∷ spaced ts)))
tokenize-spaced (suc zero) (t ∷ ts) (h, hs) le =
    absurd (omega (arith, length-append (text t) (32 ∷ spaced ts), length-text t h))
tokenize-spaced (suc (suc fuel)) (t ∷ ts) (h, hs) le =
    tokenize-text fuel t (spaced ts) h
    ∙ ap (emit t) (
        tokenize-spaced fuel ts hs
          (omega (arith, length-append (text t) (32 ∷ spaced ts), length-text t h)))

-- Tokens that are written with a space behind each are read back, all of them and with the answer 0:
-- strings without quotes and backslashes, integers of one digit or more, literals and punctuation in
-- any order.
pub tokenize_json-spaced :
    (ts : List Token) → AllWritable ts → tokenize_json (spaced ts) ≡ (ts, pos 0)
unfolding tokenize_json
tokenize_json-spaced ts h = tokenize-spaced (length (spaced ts)) ts h (omega arith)
