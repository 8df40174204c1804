-- ===== src/Week01/Stack.antt =====
-- The stack of week01/ex1.c.
pub mod Refine
use networks_course.Prelude.{
  ℕ, ◌+◌, ◌-◌, ℤ, pos, negsuc, List, [], ◌∷◌, ◌++◌, Option, none, some, Run, ok, fault, ◌>>=◌, ◌>>◌,
  read, write, take, leb, ◌==◌, if◌then◌else◌,
}

abbrev pub stack_max_size : ℕ
stack_max_size = 1024

-- `arr` is an array of `stack_max_size` integers, which `malloc` does not set.
pub record CustomStack : Type 0 where
  pub arr : List ℤ
  pub next_element : ℕ

unfoldable pub stack_create : List ℤ → CustomStack
stack_create arr = record { arr = arr; next_element = 0 }

unfoldable pub stack_size : CustomStack → ℕ
stack_size stack = stack.next_element

-- What is printed, a number at a time.
unfoldable pub stack_display : CustomStack → List ℤ
stack_display stack = take stack.next_element stack.arr

-- The answers 0 and -1 of the operations.
unfoldable pub stack_empty : CustomStack → ℤ
stack_empty stack = if stack.next_element == 0 then negsuc 0 else pos 0

unfoldable pub stack_pop : CustomStack → ℤ × CustomStack
stack_pop stack =
    if stack.next_element == 0
    then (negsuc 0, stack)
    else (pos 0, record stack { next_element = stack.next_element - 1 })

unfoldable pub stack_push : CustomStack → ℤ → Run (ℤ × CustomStack)
stack_push stack value =
    let pushed = write stack.arr stack.next_element value >>= λ arr.
    ok (pos 0, record { arr = arr; next_element = stack.next_element + 1 }) in
    if leb stack_max_size stack.next_element then ok (negsuc 0, stack) else pushed

unfoldable pub stack_peek : CustomStack → Run ℤ
stack_peek stack =
    let top = read stack.arr (stack.next_element - 1) in
    if stack.next_element == 0 then ok (negsuc 0) else top

-- One command of `child`; a name that it does not know does nothing.
pub data Command : Type 0 where
  create : List ℤ → Command
  push : ℤ → Command
  pop : Command
  display : Command
  peek : Command
  empty : Command
  size : Command
  unknown : Command

-- The numbers printed and the stack after a command. Before the first `create`, the pointer `stack`
-- is not set.
unfoldable pub child_step : Command → Option CustomStack → Run (List ℤ × Option CustomStack)
child_step (create arr) s = ok ([], some (stack_create arr))
child_step unknown s = ok ([], s)
child_step _ none = fault
child_step (push value) (some s) = stack_push s value >>= λ r. ok ([], some (r.1))
child_step pop (some s) = ok ([], some ((stack_pop s).1))
child_step display (some s) = ok (stack_display s, some s)
child_step peek (some s) = stack_peek s >>= λ value. ok (value ∷ [], some s)
child_step empty (some s) = ok (stack_empty s ∷ [], some s)
child_step size (some s) = ok (pos (stack_size s) ∷ [], some s)

-- The loop, over the commands that arrive.
unfoldable pub child : List Command → Option CustomStack → Run (List ℤ × Option CustomStack)
child [] s = ok ([], s)
child (c ∷ cs) s = do (out, s') ← child_step c s; (out', s'') ← child cs s'; ok (out ++ out', s'')
