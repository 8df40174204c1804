-- ===== src/Sockets.antt =====
-- The system calls that the programs make on sockets. What the system answers is not in the
-- repository: it is a parameter that may depend on every call made before.
pub mod Held
use networks_course.Prelude.{
  ℕ, Bytes, ℤ, pos, negsuc, List, [], ◌∷◌, ◌++◌, Option, none, some, Run, ok, fault, length,
}

pub data Call : Type 0 where
  call_socket : Call
  call_setsockopt : ℤ → Call
  call_bind_port : ℤ → ℕ → Call
  call_bind_path : ℤ → Bytes → Call
  call_listen : ℤ → ℕ → Call
  call_connect : ℤ → Bytes → ℕ → Call
  call_accept : ℤ → Call
  call_send : ℤ → Bytes → Call
  call_recv : ℤ → ℕ → Call
  call_close : ℤ → Call
  call_unlink : Bytes → Call

-- A call and its answer.
pub record Entry : Type 0 where
  pub call : Call
  pub answer : ℤ

-- The calls so far, the last one at the end.
abbrev pub History : Type 0
History = List Entry

-- The answers of the system: the result of a call, what `recv` receives, none for an error, and the
-- address that `gethostbyname` finds.
pub record System : Type 0 where
  pub answer : History → Call → ℤ
  pub received : History → ℤ → ℕ → Option Bytes
  pub gethostbyname : History → Bytes → Option Bytes

-- Code that makes calls.
abbrev pub Calls : Type 0 → Type 0
Calls Result = History → Run (Result × History)

abbrev and_then :
    {First Next : Type 0} → Run (First × History) → (First → Calls Next) → Run (Next × History)
and_then fault next = fault
and_then (ok (result, h)) next = next result h

infixl 5 ◌>>=◌
abbrev pub ◌>>=◌ : {First Next : Type 0} → Calls First → (First → Calls Next) → Calls Next
(first >>= next) h = and_then (first h) next

abbrev pub give : {Result : Type 0} → Result → Calls Result
give result h = ok (result, h)

-- Code that makes no calls.
abbrev pub compute : {Result : Type 0} → Run Result → Calls Result
compute fault h = fault
compute (ok result) h = ok (result, h)

abbrev pub ask : System → Call → Calls ℤ
ask system call h =
    ok (system.answer h call, h ++ record { call = call; answer = system.answer h call } ∷ [])

abbrev pub received_answer : Option Bytes → ℤ
received_answer none = negsuc 0
received_answer (some bytes) = pos (length bytes)

-- `recv` into a buffer of a number of bytes.
abbrev pub receive : System → ℤ → ℕ → Calls (Option Bytes)
receive system sock size h = ok (
  system.received h sock size,
  h
      ++ record {
        call = call_recv sock size;
        answer = received_answer (system.received h sock size);
      }
        ∷ [],
)

abbrev pub find_host : System → Bytes → Calls (Option Bytes)
find_host system name h = ok (system.gethostbyname h name, h)
