-- ===== src/Week05/Worker/Greets.antt =====
-- A client of week05/client.c, which does what the client of week04 does, and a worker of
-- week05/server.c together.
use networks_course.Prelude.{
  ◌≤◌, ◌≡◌, refl, ap, ap₂, Bytes, Bool, true, List, [], ◌∷◌, ◌++◌, map, ok, length, take, drop,
  c_str, arith, length-append,
}
use networks_course.Week04.Message.{
  TestStruct, Student, message_size, data_buffer_size, struct_bytes,
}
use networks_course.Week04.Message.Laws.{
  IsStudent, Entered, Holds, greeting_of, enter-Entered, length-struct_bytes, greet-Entered,
  c_str-Holds,
}
use networks_course.Week06d.Wire.Laws.{take_all, length-drop}
use networks_course.Week04.Session.{client_round, client_rounds}
use networks_course.Week04.Session.Greets.{IsBuffer, AllStudents}
use networks_course.Week05.Worker.{WorkerContext, receive, worker_round, worker}

abbrev pub IsContext : WorkerContext → Type 0
IsContext context =
    (length context.data_buffer ≡ data_buffer_size) × (length context.message ≡ message_size)

abbrev pub answered : Bytes → Bytes × Bool
answered datagram = (datagram, true)

-- What a datagram leaves of the buffer.
abbrev old_bytes : Bytes → Bytes → Bytes
old_bytes data_buffer datagram = drop (length (take data_buffer_size datagram)) data_buffer

receive-whole :
    (data_buffer datagram : Bytes)
    → length datagram ≤ data_buffer_size
    → receive data_buffer datagram ≡ datagram ++ old_bytes data_buffer datagram
unfolding receive
receive-whole data_buffer datagram le =
    ap (λ l. l ++ old_bytes data_buffer datagram) (take_all data_buffer_size datagram le)

worker_round-Entered :
    (context : WorkerContext) (student : Student) (s : TestStruct)
    → IsContext context
    → IsStudent student
    → Entered student s
    → (context' : WorkerContext) × (worker_round context (struct_bytes s) ≡ ok context')
      × IsContext context'
      × Holds message_size context'.message (greeting_of student)
unfolding worker_round
worker_round-Entered context student s c h e =
    let n = length-struct_bytes student s e in
    let old : Bytes = old_bytes context.data_buffer (struct_bytes s) in
    let (message, run, holds) = greet-Entered student s old context.message h e c.1 in
    (
      record { data_buffer = struct_bytes s ++ old; message = message },
      rw (receive-whole context.data_buffer (struct_bytes s) (omega (arith, n)), run) refl,
      (
        omega (
          arith,
          length-append (struct_bytes s) old,
          c.0,
          n,
          length-drop (length (take data_buffer_size (struct_bytes s))) context.data_buffer,
          ap length (take_all data_buffer_size (struct_bytes s) (omega (arith, n))),
        ),
        holds.sized,
      ),
      holds,
    )

-- Where every datagram is received and every answer is sent, the datagrams of a client are answered
-- with the greeting of each student, in order and whatever datagrams came before: although the
-- buffers are never cleared, a whole struct leaves nothing of an older one in the answer. The
-- students have names and groups that fit their arrays, a name that is not empty, and an age of 32
-- bits; the buffers of client and worker have their sizes.
pub client_rounds-worker :
    (students : List Student) (client_data : TestStruct) (context : WorkerContext)
    → IsBuffer client_data
    → AllStudents students
    → IsContext context
    → (datagrams sent : List Bytes) × (client_rounds client_data students ≡ ok datagrams)
      × (worker context (map answered datagrams) ≡ ok sent)
      × (map c_str sent ≡ map greeting_of students)
unfolding client_rounds client_round struct_bytes worker
client_rounds-worker [] client_data context b h c = ([], [], refl, refl, refl)
client_rounds-worker (student ∷ students) client_data context b h c =
    let (s, run, e) = enter-Entered client_data student b.0 b.1 h.0 in
    let (context', round, c', holds) = worker_round-Entered context student s c h.0 e in
    let (datagrams, sent, sending, serving, greeted) =
      client_rounds-worker students s context' (e.name_area.sized, e.group_area.sized) h.1 c' in
    (
      struct_bytes s ∷ datagrams,
      context'.message ∷ sent,
      rw (run, sending) refl,
      rw (round, serving) refl,
      ap₂ (λ x l. x ∷ l) (c_str-Holds holds) greeted,
    )
