-- ===== src/Week01/Shell/Sending.antt =====
-- The parent of week01/ex1.c: the lines that are typed, and what it sends for them.
use networks_course.Prelude.{
  ℕ, zero, suc, ◌+◌, ◌<◌, ◌≡◌, ◌≢◌, refl, sym, ap, subst, ◌∙◌, Bytes, List, [], ◌∷◌, ◌++◌,
  append-nil, append_assoc, Option, none, some, length, drop, arith, length-append, ==_ne,
}
use networks_course.Week01.Shell.{fgets_line, fgets, parent}
use networks_course.Week01.Shell.Words.{IsWord, Line, argument_text, write_line, IsArgument, IsLine}

abbrev pub write_lines : List Line → Bytes
write_lines [] = []
write_lines (line ∷ lines) = write_line line ++ write_lines lines

abbrev IsUnbroken : Bytes → Type 0
IsUnbroken [] = Unit {0}
IsUnbroken (c ∷ cs) = (c ≢ 10) × IsUnbroken cs

IsWord-IsUnbroken : (w rest : Bytes) → IsWord w → IsUnbroken rest → IsUnbroken (w ++ rest)
IsWord-IsUnbroken [] rest h u = u
IsWord-IsUnbroken (c ∷ w) rest ((_, _, ne), h) u = (ne, IsWord-IsUnbroken w rest h u)

argument_text-IsUnbroken :
    (argument : Option Bytes) → IsArgument argument → IsUnbroken (argument_text argument)
argument_text-IsUnbroken none h = tt
argument_text-IsUnbroken (some a) h =
    ((λ e. omega (arith, e)), subst IsUnbroken (append-nil a) (IsWord-IsUnbroken a [] h tt))

fgets_line-unbroken :
    (n : ℕ) (w input : Bytes)
    → IsUnbroken w
    → length w < n
    → fgets_line n (w ++ 10 ∷ input) ≡ (w ++ 10 ∷ [], input)
unfolding fgets_line
fgets_line-unbroken zero w input h le = absurd (omega arith)
fgets_line-unbroken (suc n) [] input h le = refl
fgets_line-unbroken (suc n) (c ∷ w) input (ne, h) le =
    rw (==_ne c 10 ne, fgets_line-unbroken n w input h (omega arith)) refl

fgets-unbroken :
    (w input command : Bytes)
    → IsUnbroken w
    → length w < 1023
    → fgets (w ++ 10 ∷ input) command
      ≡ ((w ++ 10 ∷ []) ++ 0 ∷ drop (length (w ++ 10 ∷ []) + 1) command, input)
unfolding fgets
fgets-unbroken [] input command h le = rw (fgets_line-unbroken 1023 [] input tt le) refl
fgets-unbroken (c ∷ w) input command h le = rw (fgets_line-unbroken 1023 (c ∷ w) input h le) refl

-- A typed line is sent with a terminator behind it.
pub record Sent (line : Line) (lines : List Line) (command : Bytes) : Type 0 where
  pub behind : Bytes
  pub sends :
      parent (length (line ∷ lines)) (write_lines (line ∷ lines)) command
      ≡ (write_line line ++ 0 ∷ behind)
        ∷ parent (length lines) (write_lines lines) (write_line line ++ 0 ∷ behind)

pub parent-Sent :
    (line : Line) (lines : List Line) (command : Bytes) → IsLine line → Sent line lines command
unfolding parent
parent-Sent line lines command h =
    let body = line.name ++ argument_text line.argument in
    let text : write_line line ≡ body ++ 10 ∷ [] =
      sym (append_assoc line.name (argument_text line.argument) (10 ∷ [])) in
    let unbroken =
      IsWord-IsUnbroken line.name (argument_text line.argument) h.name_word
        (argument_text-IsUnbroken line.argument h.argument_word) in
    let input : write_lines (line ∷ lines) ≡ body ++ 10 ∷ write_lines lines =
      ap (λ l. l ++ write_lines lines) text ∙ append_assoc body (10 ∷ []) (write_lines lines) in
    let le : length body < 1023 =
      omega (arith, h.fits, ap length text, length-append body (10 ∷ [])) in
    let reads =
      ap (λ l. fgets l command) input
      ∙ fgets-unbroken body (write_lines lines) command unbroken le in
    record {
      behind = drop (length (body ++ 10 ∷ []) + 1) command;
      sends =
          ap (λ r. r.0 ∷ parent (length lines) (r.1) (r.0)) reads
          ∙ ap
              (λ l.
                (l ++ 0 ∷ drop (length (body ++ 10 ∷ []) + 1) command)
                ∷ parent (length lines) (write_lines lines)
                    (l ++ 0 ∷ drop (length (body ++ 10 ∷ []) + 1) command))
              (sym text);
    }
