-- ===== src/Week01/Shell.antt =====
-- The two processes of week01/ex1.c: `parent` sends what is typed through a pipe, `child` splits it
-- into a command and its argument, and performs it. The texts of `atoi` are a parameter.

pub mod Words
pub mod Sending
pub mod Typed
use networks_course.Prelude.{
  ℕ, zero, suc, ◌+◌, Bytes, ℤ, List, [], ◌∷◌, ◌++◌, Option, Run, ok, fault, ◌>>=◌, ◌>>◌, read,
  write, length, set, drop, codes, str_eq, c_str, ◌==◌, if◌then◌else◌,
}
use networks_course.Week01.Stack.{
  CustomStack, Command, child_step, create, push, pop, display, peek, empty, size, unknown,
}

abbrev pub buffer_size : ℕ
buffer_size = 1024

-- `split_command[argument_no][p] = c;`
unfoldable pub store : List Bytes → ℕ → ℕ → ℕ → Run (List Bytes)
store split_command argument_no p c = do
  argument ← read split_command argument_no
  argument' ← write argument p c
  ok (set split_command argument_no argument')

-- The loop of `split_command_arguments` and the statement behind it: `command[i]` is read before `i` is
-- compared, so a command without a terminator is read behind its end.
unfoldable pub split_from : Bytes → List Bytes → ℕ → ℕ → Run (List Bytes)
split_from [] split_command argument_no p = fault
split_from (c ∷ cs) split_command argument_no p =
    let end = store split_command argument_no p 0 in
    let space = end >>= λ split_command'. split_from cs split_command' (argument_no + 1) 0 in
    let newline = split_from cs split_command argument_no p in
    let other = store split_command argument_no p c >>= λ split_command'.
    split_from cs split_command' argument_no (p + 1) in
    if c == 0 then end else (if c == 32 then space else (if c == 10 then newline else other))

unfoldable pub split_command_arguments : Bytes → List Bytes → Run (List Bytes)
unfolding split_from
split_command_arguments command split_command = split_from command split_command 0 0

-- What `child` keeps.
pub record Child : Type 0 where
  pub command : Bytes
  pub split_command : List Bytes
  pub stack : Option CustomStack

module _ (atoi : Bytes → ℤ) where
  -- The tests of `child`, for a new stack in the given memory.
  unfoldable pub command_named : List ℤ → Bytes → Bytes → Command
  command_named memory name argument =
      if str_eq name (codes "create")
      then create memory
      else (if str_eq name (codes "push")
          then push (atoi argument)
          else (if str_eq name (codes "pop")
              then pop
              else (if str_eq name (codes "display")
                  then display
                  else (if str_eq name (codes "peek")
                      then peek
                      else (if str_eq name (codes "empty")
                          then empty
                          else (if str_eq name (codes "size") then size else unknown))))))

  -- A round of `child`, in which `read` has put bytes into the command's buffer.
  unfoldable pub child_round : List ℤ → Bytes → Child → Run (List ℤ × Child)
  child_round memory arrived self = do
    split_command ←
        split_command_arguments (arrived ++ drop (length arrived) self.command) self.split_command
    name ← read split_command 0
    argument ← read split_command 1
    (out, stack) ← child_step (command_named memory (c_str name) (c_str argument)) self.stack
    ok (
      out,
      record {
        command = arrived ++ drop (length arrived) self.command;
        split_command = split_command;
        stack = stack;
      },
    )

  -- The loop, over what the pipe delivers. `memory` is what `malloc` would give in each round.
  unfoldable pub child_loop : (ℕ → List ℤ) → ℕ → List Bytes → Child → Run (List ℤ × Child)
  child_loop memory i [] self = ok ([], self)
  child_loop memory i (arrived ∷ rest) self = do
    (out, self') ← child_round (memory i) arrived self
    (out', self'') ← child_loop memory (suc i) rest self'
    ok (out ++ out', self'')

-- The line that `fgets` takes, of a number of bytes at most, and the input behind it.
unfoldable pub fgets_line : ℕ → Bytes → Bytes × Bytes
fgets_line zero input = ([], input)
fgets_line (suc n) [] = ([], [])
fgets_line (suc n) (c ∷ input) =
    let rest = fgets_line n input in if c == 10 then (c ∷ [], input) else (c ∷ rest.0, rest.1)

-- `fgets(command, 1024, stdin)`: at the end of the input the buffer stays as it is.
unfoldable pub fgets : Bytes → Bytes → Bytes × Bytes
fgets [] command = (command, [])
fgets (c ∷ input) command =
    let line = fgets_line 1023 (c ∷ input) in
    (line.0 ++ 0 ∷ drop (length line.0 + 1) command, line.1)

-- The loop of `parent`, for a number of rounds: the buffers that are written to the pipe.
unfoldable pub parent : ℕ → Bytes → Bytes → List Bytes
parent zero input command = []
parent (suc n) input command =
    let read_line = fgets input command in read_line.0 ∷ parent n (read_line.1) (read_line.0)
