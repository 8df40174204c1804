-- ===== src/Sockets/Held.antt =====
-- Which descriptors of sockets a program holds: those that it was given and has not closed.
use networks_course.Prelude.{
  ◌≡◌, ◌≢◌, inl, inr, refl, ap, ◌∙◌, ℤ, is_neg, int_eq, int_eq_iff, false, List, [], ◌∷◌, ◌++◌, ok,
  if◌then◌else◌, arith, Bool-cases,
}
use networks_course.Sockets.{
  Call, Entry, History, System, Calls, call_socket, call_accept, call_close,
}

unfoldable pub without : ℤ → List ℤ → List ℤ
without fd [] = []
without fd (x ∷ xs) = let rest = without fd xs in if int_eq x fd then rest else x ∷ rest

-- A negative answer is an error.
unfoldable pub given : ℤ → List ℤ
given fd = if is_neg fd then [] else fd ∷ []

unfoldable pub held_after : Entry → List ℤ → List ℤ
held_after entry fds = from entry.call
  where
    from : Call → List ℤ
    from call_socket = fds ++ given entry.answer
    from (call_accept fd) = fds ++ given entry.answer
    from (call_close fd) = without fd fds
    from _ = fds

unfoldable pub held_from : List ℤ → History → List ℤ
held_from fds [] = fds
held_from fds (entry ∷ h) = held_from (held_after entry fds) h

unfoldable pub held : History → List ℤ
held h = held_from [] h

abbrev pub IsAbsent : ℤ → List ℤ → Type 0
IsAbsent fd [] = Unit {0}
IsAbsent fd (x ∷ xs) = (x ≢ fd) × IsAbsent fd xs

-- A new socket has a descriptor that is not in use.
pub record IsFresh (system : System) : Type 0 where
  pub new_socket : (h : History) → IsAbsent (system.answer h call_socket) (held h)
  pub new_client : (h : History) (fd : ℤ) → IsAbsent (system.answer h (call_accept fd)) (held h)

held_from-append :
    (fds : List ℤ) (h h' : History) → held_from fds (h ++ h') ≡ held_from (held_from fds h) h'
unfolding held_from
held_from-append fds [] h' = refl
held_from-append fds (entry ∷ h) h' = held_from-append (held_after entry fds) h h'

pub held-append : (h : History) (entry : Entry) → held (h ++ entry ∷ []) ≡ held_after entry (held h)
unfolding held held_from
held-append h entry = held_from-append [] h (entry ∷ [])

pub without-given : (fds : List ℤ) (fd : ℤ) → IsAbsent fd fds → without fd (fds ++ given fd) ≡ fds
unfolding without given
without-given [] fd h = elim (Bool-cases (is_neg fd)) [
  | inl e ↦ rw e refl
  | inr e ↦ rw (e, (int_eq_iff fd fd).1 refl) refl
]
without-given (x ∷ fds) fd (ne, h) =
    rw (int_eq-ne x fd ne) (ap (λ l. x ∷ l) (without-given fds fd h))
  where
    int_eq-ne : (a b : ℤ) → a ≢ b → int_eq a b ≡ false
    int_eq-ne a b ne' = ground (arith, int_eq_iff a b)

-- A call that neither makes nor closes a socket.
pub held-call :
    (h : History) (call : Call) (answer : ℤ)
    → ((fds : List ℤ) → held_after (record { call = call; answer = answer }) fds ≡ fds)
    → held (h ++ record { call = call; answer = answer } ∷ []) ≡ held h
held-call h call answer same =
    held-append h (record { call = call; answer = answer }) ∙ same (held h)

-- Code that returns and leaves open the given descriptors, and those of its result.
pub record Settles {Result : Type 0} (code : Calls Result) (h : History) (fds : List ℤ)
    (left : Result → List ℤ) : Type 0 where
  pub result : Result
  pub history : History
  pub returns : code h ≡ ok (result, history)
  pub held_then : held history ≡ fds ++ left result
