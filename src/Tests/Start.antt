-- ===== src/Tests/Start.antt =====
-- A node of week06d that is started with the address of another one.
use networks_course.Prelude.{
  ◌≡◌, refl, Bytes, pos, true, List, [], ◌∷◌, ◌++◌, some, Run, ok, fault, read, write, replicate,
  codes, str_eq, c_str, arith,
}
use networks_course.Hash.{char_value, hash_step, hash_from, known_node_hash}
use networks_course.Sockets.{History, call_socket, call_setsockopt, call_bind_port, call_listen}
use networks_course.Sockets.Held.{without, given, held_after, held_from, held}
use networks_course.Week06.Logging.{find_level, set_log_level}
use networks_course.Week06d.Directory.{
  Directory, init_known_nodes_hashmap, advance, store, add_known_node,
}
use networks_course.Week06d.Wire.{
  to_le, from_le, char_array, strcpy, strncpy, name_field, pack_context,
}
use networks_course.Week06d.EventLoop.{EventLoop}
use networks_course.Week06d.Main.{
  Arguments, copy, store_bootstrap, store_name, store_listen, option_action, parse_options,
  parse_args,
}
use networks_course.Week06d.Bootstrap.{
  request_bytes, receive_response, context_of, read_answer, hello_body, read_hello, read_nodes,
  get_known_nodes, add_nodes,
}
use networks_course.Week06d.Requests.{
  connect_sock, connect_to_node_plain, send_receive_sock, say_hello, request_known_nodes,
  bootstrap_on, bootstrap,
}
use networks_course.Week06d.Server.Listening.{
  Callback, listen_sock, bind_sock, set_up_sock, create_master_socket,
}
use networks_course.Week06d.Server.Clients.{polled}
use networks_course.Week06d.Start.{Leftovers, main}
use networks_course.Week06d.Start.Joined.{HasNone, main-Joined}
use networks_course.Tests.Programs.{unset, atoi, to_port}
use networks_course.Tests.Sockets.{system, ann, ip}

abbrev result_or : {A : Type 0} → A → Run A → A
result_or a fault = a
result_or a (ok b) = b

abbrev argv : List Bytes
argv =
    codes "--listen"
    ∷ codes "8080"
    ∷ codes "--name"
    ∷ codes "ann"
    ∷ codes "--bootstrap"
    ∷ codes "10.0.0.9:80"
    ∷ []

abbrev arguments : Arguments
arguments = record {
  node_name = codes "ann";
  listen_port = 8080;
  ping_interval = pos 3;
  bootstrap_addr = some (codes "10.0.0.9:80");
  log_level = codes "info";
  got_listen_ip = true;
  got_name = true;
}

start_program : Unit {0}
unfolding parse_args parse_options option_action store_listen store_name store_bootstrap copy str_eq
    set_log_level find_level read
start_program = tt

parsed : parse_args atoi to_port argv unset ≡ ok (some arguments)
unfolding start_program
parsed = refl

leveled : set_log_level (codes "info") ≡ ok (some 0)
unfolding start_program
leveled = refl

abbrev leftovers : Leftovers
leftovers = record {
  request = [];
  answer = [];
  hello = replicate 77 0;
  list = replicate 20479 0;
  address = [];
}

abbrev joins : Run (Directory × History)
joins =
    bootstrap system ann [] [] (replicate 77 0) (replicate 20479 0) init_known_nodes_hashmap ip 80
      []

abbrev joined : Directory × History
joined = result_or ([], []) joins

has_joined_program : Unit {0}
unfolding request_bytes pack_context strcpy char_array to_le held held_from held_after without given
    bootstrap connect_to_node_plain connect_sock bootstrap_on say_hello request_known_nodes
    send_receive_sock read_answer context_of receive_response read_hello hello_body strncpy
    name_field c_str from_le get_known_nodes read_nodes add_nodes add_known_node
    init_known_nodes_hashmap known_node_hash hash_from hash_step char_value read advance store write
has_joined_program = tt

has_joined : joins ≡ ok joined
unfolding has_joined_program
has_joined = refl

opened_next :
    create_master_socket system 8080 (joined.1)
    ≡ ok (
      pos 2,
      joined.1
          ++ record { call = call_socket; answer = pos 2 }
            ∷ record { call = call_setsockopt (pos 2); answer = pos 0 }
            ∷ record { call = call_bind_port (pos 2) 8080; answer = pos 0 }
            ∷ record { call = call_listen (pos 2) 1024; answer = pos 0 }
            ∷ [],
    )
unfolding has_joined_program create_master_socket set_up_sock bind_sock listen_sock
opened_next = refl

main-Joined_example :
    (loop : EventLoop Callback Bytes) × (main system atoi to_port leftovers argv unset (pos 100) []
      ≡ ok (
        some (joined.0, loop),
        joined.1
            ++ record { call = call_socket; answer = pos 2 }
              ∷ record { call = call_setsockopt (pos 2); answer = pos 0 }
              ∷ record { call = call_bind_port (pos 2) 8080; answer = pos 0 }
              ∷ record { call = call_listen (pos 2) 1024; answer = pos 0 }
              ∷ [],
      ))
    × (polled loop ≡ pos 2 ∷ [])
main-Joined_example =
    main-Joined system atoi to_port leftovers argv unset arguments (pos 100) 0 49 56
      (codes "0.0.0.9") (codes "0") (joined.0) [] (joined.1) _ (pos 2) parsed leveled refl ip_text
      port_text has_joined opened_next refl
  where
    ip_text : HasNone 58 (codes "10.0.0.9")
    ip_text = (
      (λ e. omega arith),
      (
        (λ e. omega arith),
        (
          (λ e. omega arith),
          (
            (λ e. omega arith),
            (
              (λ e. omega arith),
              ((λ e. omega arith), ((λ e. omega arith), ((λ e. omega arith), tt))),
            ),
          ),
        ),
      ),
    )

    port_text : HasNone 58 (codes "80")
    port_text = ((λ e. omega arith), ((λ e. omega arith), tt))
