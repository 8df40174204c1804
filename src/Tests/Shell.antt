-- ===== src/Tests/Shell.antt =====
-- week01: lines that are typed.
use networks_course.Prelude.{
  ℕ, ◌≡◌, refl, ℤ, pos, List, [], ◌∷◌, ◌++◌, none, some, fault, read, write, replicate, codes,
  str_eq,
}
use networks_course.Week01.Stack.Refine.{abstract_step, abstract_run}
use networks_course.Week01.Shell.{
  store, split_from, split_command_arguments, Child, command_named, fgets_line, fgets, parent,
}
use networks_course.Week01.Shell.Words.{Line}
use networks_course.Week01.Shell.Sending.{write_lines}
use networks_course.Week01.Shell.Typed.{commands_of}
use networks_course.Tests.Programs.{fresh, atoi}

abbrev shell : Child
shell = record {
  command = replicate 1024 7;
  split_command = replicate 1024 0 ∷ replicate 1024 0 ∷ [];
  stack = some fresh;
}

-- The second push has no argument.
abbrev lines : List Line
lines =
    record { name = codes "push"; argument = some (codes "5") }
    ∷ record { name = codes "push"; argument = none }
    ∷ record { name = codes "size"; argument = none }
    ∷ record { name = codes "display"; argument = none }
    ∷ []

typed_test : write_lines lines ≡ codes "push 5\npush\nsize\ndisplay\n"
typed_test = refl

abbrev memory : ℕ → List ℤ
memory i = replicate 1024 (pos 9)

shell_program : Unit {0}
unfolding commands_of command_named str_eq abstract_run abstract_step
shell_program = tt

printed_test : (abstract_run (commands_of atoi memory 0 [] lines) []).0 ≡ pos 2 ∷ pos 5 ∷ pos 5 ∷ []
unfolding shell_program
printed_test = refl

-- At the end of the input, the last line is sent again.
end_of_input_test :
    parent 2 (codes "pop\n") (replicate 6 0)
    ≡ (codes "pop\n" ++ 0 ∷ 0 ∷ []) ∷ (codes "pop\n" ++ 0 ∷ 0 ∷ []) ∷ []
unfolding parent fgets fgets_line
end_of_input_test = refl

-- A second space leads out of the two arrays.
second_space_test :
    split_command_arguments (codes "push 1 2\n" ++ 0 ∷ []) shell.split_command ≡ fault
unfolding split_command_arguments split_from store read write
second_space_test = refl
