-- ===== src/Tests/Sockets.antt =====
-- Sockets: a system that gives out descriptors larger than all that are in use.
use networks_course.Week06.EventLoop.{event_loop_init}
use networks_course.Week06.Listening
use networks_course.Week06.Listening.Starting.{server_main-event_loop_init}
use networks_course.Prelude.{
  ℕ, ◌+◌, ◌<◌, ◌≡◌, refl, ap, Bytes, ℤ, pos, magnitude, List, [], ◌∷◌, ◌++◌, some, ok, fault,
  replicate, codes, ◌==◌, if◌then◌else◌, arith,
}
use networks_course.Sockets.{
  Call, History, System, compute, call_socket, call_setsockopt, call_bind_port, call_listen,
  call_accept,
}
use networks_course.Sockets.Held.{
  without, given, held_after, held_from, held, IsAbsent, IsFresh, Settles,
}
use networks_course.Week06d.Directory.{Directory}
use networks_course.Week06d.Wire.{to_le, char_array, strcpy, Self, pack_context}
use networks_course.Week06d.Handlers.{magic_get_node_list}
use networks_course.Week06d.Bootstrap.{request_bytes, hello_body, bootstrap_known_nodes}
use networks_course.Week06d.Requests.{send_request_plain, bootstrap_on}
use networks_course.Week06d.Requests.Closing.{send_request_plain-Settles}
use networks_course.Week06d.Requests.Joining.{exchanged, bootstrap_on-bootstrap_known_nodes}
use networks_course.Week06d.Server.Listening.{
  listen_sock, bind_sock, set_up_sock, create_master_socket, Listens, create_master_socket-Listens,
}

abbrev total : List ℤ → ℕ
total [] = 0
total (x ∷ xs) = magnitude x + total xs

above-IsAbsent : (fds : List ℤ) (n : ℕ) → total fds < n → IsAbsent (pos n) fds
above-IsAbsent [] n h = tt
above-IsAbsent (x ∷ fds) n h =
    ((λ e. omega (arith, h, ap magnitude e)), above-IsAbsent fds n (omega (arith, h)))

abbrev answers : History → Call → ℤ
answers h call_socket = pos (total (held h) + 1)
answers h (call_accept fd) = pos (total (held h) + 1)
answers h _ = pos 0

-- The answer of bob to a greeting, and his empty list of nodes.
abbrev hello_answer : Bytes
hello_answer = replicate 22 0 ++ (66 ∷ (codes "bob" ++ replicate 17 0) ++ 80 ∷ 0 ∷ [])

abbrev list_answer : Bytes
list_answer = replicate 27 0

-- Every name has an address, where bob answers.
abbrev pub system : System
system = record {
  answer = answers;
  received = λ h sock size. some (if size == 45 then hello_answer else list_answer);
  gethostbyname = λ h name. some (codes "abcd");
}

system-IsFresh : IsFresh system
system-IsFresh = record {
  new_socket = λ h. above-IsAbsent (held h) (total (held h) + 1) (omega arith);
  new_client = λ h fd. above-IsAbsent (held h) (total (held h) + 1) (omega arith);
}

abbrev pub ann : Self
ann = record { node_name = codes "ann"; listen_port = 8080 }

abbrev pub ip : Bytes
ip = codes "10.0.0.9"

socket_program : Unit {0}
unfolding request_bytes pack_context strcpy char_array to_le held held_from held_after without given
socket_program = tt

abbrev packed : Bytes → Bytes
packed body = to_le 2 8080 ++ (codes "ann" ++ 0 ∷ replicate 16 0) ++ body

packs : (body : Bytes) → request_bytes ann [] body ≡ ok (packed body)
unfolding socket_program
packs body = refl

send_request_plain-Settles_example :
    Settles (send_request_plain system ann [] ip 80 (7 ∷ [])) [] (held []) (λ _. [])
send_request_plain-Settles_example =
    send_request_plain-Settles system system-IsFresh ann [] ip 80 (7 ∷ []) (packed (7 ∷ [])) []
      (packs (7 ∷ []))

abbrev no_nodes : Directory
no_nodes = replicate 63 []

bootstrap_on-bootstrap_known_nodes_example :
    bootstrap_on system ann [] [] [] [] no_nodes ip (pos 1) []
    ≡ compute (bootstrap_known_nodes ann ip (some hello_answer) (some list_answer) [] [] no_nodes) (
        exchanged system
          (pos 1)
          (packed (magic_get_node_list ∷ []))
          20502
          (exchanged system (pos 1) (packed (hello_body ann)) 45 []))
bootstrap_on-bootstrap_known_nodes_example =
    bootstrap_on-bootstrap_known_nodes system ann [] [] no_nodes (pos 1) ip
      (packed (hello_body ann)) (packed (magic_get_node_list ∷ [])) [] [] []
      (packs (hello_body ann)) (packs (magic_get_node_list ∷ []))

create_master_socket-Listens_example : Listens system 8080 []
create_master_socket-Listens_example = create_master_socket-Listens system 8080 []

abbrev master_opened : History
master_opened =
    record { call = call_socket; answer = pos 1 }
    ∷ record { call = call_setsockopt (pos 1); answer = pos 0 }
    ∷ record { call = call_bind_port (pos 1) 8080; answer = pos 0 }
    ∷ record { call = call_listen (pos 1) 1024; answer = pos 0 }
    ∷ []

opened_again :
    Listening.create_master_socket system 8080 []
    ≡ ok (
      pos 1,
      record { call = call_socket; answer = pos 1 }
          ∷ record { call = call_setsockopt (pos 1); answer = pos 0 }
          ∷ record { call = call_bind_port (pos 1) 8080; answer = pos 0 }
          ∷ record { call = call_listen (pos 1) 1024; answer = pos 0 }
          ∷ [],
    )
unfolding socket_program Listening.create_master_socket Listening.set_up_sock Listening.bind_sock
    Listening.listen_sock
opened_again = refl

server_main-event_loop_init_example :
    Listening.server_main system {H = ℕ} (event_loop_init 1025 10 10) 8080 0 1 (pos 3) (pos 100) []
    ≡ fault
server_main-event_loop_init_example =
    server_main-event_loop_init system 1025 10 10 8080 1 0 (pos 3) (pos 100) [] _ (pos 1)
      (omega arith) opened_again refl
