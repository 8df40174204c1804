-- ===== src/Week01/Shell/Typed.antt =====
-- What is typed into week01/ex1.c, and what its child prints.
use networks_course.Prelude.{
  ℕ, suc, ◌≡◌, Bytes, ℤ, List, [], ◌∷◌, ◌++◌, Option, Run, ok, ◌>>=◌, length,
}
use networks_course.Week01.Stack.{CustomStack, Command, child_step, child}
use networks_course.Week01.Shell.{command_named, child_round, child_loop, parent}
use networks_course.Week01.Shell.Sending.{write_lines}
use networks_course.Week01.Shell.Words.{Line, write_line, argument_or, IsLine, Arrays}

abbrev pub AllLines : List Line → Type 0
AllLines [] = Unit {0}
AllLines (line ∷ lines) = IsLine line × AllLines lines

-- The commands of the lines: a line without an argument has the argument of the line before.
unfoldable pub commands_of : (Bytes → ℤ) → (ℕ → List ℤ) → ℕ → Bytes → List Line → List Command
commands_of atoi memory i old [] = []
commands_of atoi memory i old (line ∷ lines) =
    command_named atoi (memory i) line.name (argument_or old line.argument)
    ∷ commands_of atoi memory (suc i) (argument_or old line.argument) lines

-- A run goes on with another.
abbrev with_state : {S T : Type 0} → (S → T) → Run (List ℤ × S) → Run (List ℤ × T)
with_state {S = S} {T = T} f r =
    ◌>>=◌ {First = List ℤ × S} {Next = List ℤ × T} r (λ x. ok (x.0, f (x.1)))

abbrev goes_on : {S : Type 0} → (S → Run (List ℤ × S)) → Run (List ℤ × S) → Run (List ℤ × S)
goes_on {S = S} run r =
    ◌>>=◌ {First = List ℤ × S} {Next = List ℤ × S} r
      (λ x. ◌>>=◌ {First = List ℤ × S} {Next = List ℤ × S} (run (x.1)) (λ z. ok (x.0 ++ z.0, z.1)))

module _ (atoi : Bytes → ℤ) where
  -- A round of the child for a line.
  record Performs (memory : List ℤ) (line : Line) (behind old command : Bytes)
      (split_command : List Bytes) : Type 0 where
    pub command' : Bytes
    pub split_command' : List Bytes
    pub arrays : Arrays split_command' line.name (argument_or old line.argument)
    pub performs :
        (stack : Option CustomStack)
        → child_round atoi memory
            (write_line line ++ 0 ∷ behind)
            (record { command = command; split_command = split_command; stack = stack })
          ≡ (child_step (command_named atoi memory line.name (argument_or old line.argument)) stack
              >>= λ r.
                  ok (
                    r.0,
                    record { command = command'; split_command = split_command'; stack = r.1 },
                  ))

  module _ (memory : ℕ → List ℤ) where
    record PerformsAll (i : ℕ) (lines : List Line) (sent old command : Bytes)
        (split_command : List Bytes) : Type 0 where
      pub command' : Bytes
      pub split_command' : List Bytes
      pub performs :
          (stack : Option CustomStack)
          → child_loop atoi memory i
              (parent (length lines) (write_lines lines) sent)
              (record { command = command; split_command = split_command; stack = stack })
            ≡ (child (commands_of atoi memory i old lines) stack >>= λ r.
                ok
                  (r.0, record { command = command'; split_command = split_command'; stack = r.1 }))
