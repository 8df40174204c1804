-- ===== src/Week04/Session.antt =====
-- The loops of week04/server.c and of week04/client.c. What the sockets and the user give is an
-- argument.

pub mod Greets
use networks_course.Prelude.{
  ◌-◌, Bytes, List, [], ◌∷◌, ◌++◌, Option, none, some, Run, ok, ◌>>=◌, ◌>>◌, length, take,
  replicate, str_eq, if◌then◌else◌,
}
use networks_course.Week04.Message.{
  TestStruct, Student, struct_bytes, enter, greet, read_string, data_buffer_size,
}

-- A round of the client: the bytes that it sends, and its buffer for the next round.
unfoldable pub client_round : TestStruct → Student → Run (Bytes × TestStruct)
client_round client_data student = do
  client_data' ← enter client_data student
  ok (struct_bytes client_data', client_data')

unfoldable pub client_rounds : TestStruct → List Student → Run (List Bytes)
client_rounds client_data [] = ok []
client_rounds client_data (student ∷ students) = do
  (sent, client_data') ← client_round client_data student
  rest ← client_rounds client_data' students
  ok (sent ∷ rest)

-- `memset`, and then `recvfrom`, which gives at most as many bytes as there is room for.
unfoldable pub received : Bytes → Bytes
received bytes =
    let n = take data_buffer_size bytes in n ++ replicate (data_buffer_size - length n) 0

-- The inner loop, over the results of `recvfrom`: no bytes, and -1 as `none`. It ends when the
-- client closes or sends a struct with an empty name. `junk` is the array `result`, which is not set.
unfoldable pub session : Bytes → List (Option Bytes) → Run (List Bytes)
session junk [] = ok []
session junk (none ∷ results) = ok []
session junk (some [] ∷ results) = ok []
session junk (some (b ∷ bs) ∷ results) = do
  let data_buffer = received (b ∷ bs)
  name ← read_string data_buffer
  let rest = session junk results
  if str_eq name []
      then ok []
      else (greet data_buffer junk >>= λ message. rest >>= λ replies. ok (message ∷ replies))

-- The outer loop, over the results of `accept`: `exit` at an error, as `none`.
unfoldable pub server : Bytes → List (Option (List (Option Bytes))) → Run (List (List Bytes))
server junk [] = ok []
server junk (none ∷ clients) = ok []
server junk (some results ∷ clients) = do
  replies ← session junk results
  rest ← server junk clients
  ok (replies ∷ rest)
