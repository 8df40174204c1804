-- ===== src/Week06/Json/Parser/Numbers.antt =====
-- The integers of week06/src/ds/json/parser.c: what is printed is read back.
use networks_course.Prelude.{
  ℕ, zero, suc, ◌+◌, ◌-◌, ◌*◌, ◌/◌, ◌%◌, ◌^◌, ◌<◌, min, ◌≡◌, inl, inr, refl, ap, ◌∙◌, Bytes, pos,
  to_int32, false, [], ◌∷◌, ◌++◌, length, ltb, arith, length-append, Bool-cases, lt→ltb, ltb→lt,
}
use networks_course.Week06.Json.Tokenizer.Texts.{IsDigits}
use networks_course.Week06.Json.Serializer.{decimal, print_int}
use networks_course.Week06.Json.Parser.{strtol, int_value}

abbrev ten_to : ℕ → ℕ
ten_to zero = 1
ten_to (suc k) = 10 * ten_to k

append-IsDigits : (a b : Bytes) → IsDigits a → IsDigits b → IsDigits (a ++ b)
unfolding IsDigits
append-IsDigits [] b ha hb = hb
append-IsDigits (c ∷ a) b (lo, hi, ha) hb = (lo, hi, append-IsDigits a b ha hb)

pub decimal-IsDigits : (fuel n : ℕ) → IsDigits (decimal fuel n)
unfolding decimal IsDigits
decimal-IsDigits zero n = tt
decimal-IsDigits (suc fuel) n = elim (Bool-cases (ltb n 10)) [
  | inl e ↦ rw e (omega arith, omega (arith, ltb→lt n 10 e), tt)
  | inr e ↦ rw e (
      append-IsDigits (decimal fuel (n / 10)) ((48 + n % 10) ∷ []) (decimal-IsDigits fuel (n / 10))
        (omega arith, omega arith, tt))
]

pub length-decimal : (fuel n : ℕ) → 0 < length (decimal (suc fuel) n)
unfolding decimal
length-decimal fuel n = elim (Bool-cases (ltb n 10)) [
  | inl e ↦ rw e (omega arith)
  | inr e ↦ rw e (omega (arith, length-append (decimal fuel (n / 10)) ((48 + n % 10) ∷ [])))
]

strtol-append : (a b : Bytes) (n : ℕ) → IsDigits a → strtol (a ++ b) n ≡ strtol b (strtol a n)
unfolding strtol IsDigits
strtol-append [] b n h = refl
strtol-append (c ∷ a) b n (lo, hi, h) =
    let digit : ltb c 48 ≡ false = ground (arith, lo) in
    rw digit (strtol-append a b (min (n * 10 + (c - 48)) (2 ^ 63 - 1)) h)

strtol-digit : (d n : ℕ) → d < 10 → n < 2 ^ 31 → strtol ((48 + d) ∷ []) n ≡ n * 10 + d
unfolding strtol
strtol-digit d n h le = ground (arith, h, le)

strtol-decimal : (fuel n : ℕ) → n < ten_to fuel → n < 2 ^ 31 → strtol (decimal fuel n) 0 ≡ n
unfolding decimal strtol
strtol-decimal zero n h le = omega arith
strtol-decimal (suc fuel) n h le = elim (Bool-cases (ltb n 10)) [
  | inl e ↦ rw e (strtol-digit n 0 (ltb→lt n 10 e) (omega arith) ∙ omega arith)
  | inr e ↦ rw e (
      strtol-append (decimal fuel (n / 10)) ((48 + n % 10) ∷ []) 0 (decimal-IsDigits fuel (n / 10))
      ∙ ap (strtol ((48 + n % 10) ∷ []))
          (strtol-decimal fuel (n / 10) (omega (arith, h)) (omega arith))
      ∙ strtol-digit (n % 10) (n / 10) (omega arith) (omega arith)
      ∙ omega arith)
]

to_int32-lt : (n : ℕ) → n < 2 ^ 31 → to_int32 n ≡ pos n
to_int32-lt n le =
    let small : n % 2 ^ 32 ≡ n = omega (arith, le) in rw (small, lt→ltb n (2 ^ 31) le) refl

-- An integer that is not negative is read back from the text that it is printed as.
pub int_value-print_int : (n : ℕ) → n < 2 ^ 31 → int_value (print_int (pos n)) ≡ pos n
unfolding int_value print_int
int_value-print_int n le =
    ap to_int32 (strtol-decimal 10 n (omega (arith, le)) le) ∙ to_int32-lt n le
