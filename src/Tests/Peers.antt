-- ===== src/Tests/Peers.antt =====
-- week06: what nodes send each other, the commands, and the event loop.
use mathlib.Core.Option
use networks_course.Prelude.{
  ℕ, ◌+◌, ◌≡◌, refl, Bytes, pos, true, false, List, [], ◌∷◌, map, none, some, Run, ok, fault, read,
  write, set, replicate, codes, str_eq, c_str,
}
use networks_course.Hash.{char_value, hash_step, hash_from, polynomial_hash}
use networks_course.Week06.Machine.{Machine, Distinct}
use networks_course.Week06.Known.{
  Node, known_nodes_hash_fn, ip_and_port_known_node_compare_fn, known_node, add_known_node,
  for_each_known_node, look_up_known_node, get_known_nodes,
}
use networks_course.Week06.Hashmap.{
  hashmap_create, for_each_in_chain, hashmap_for_each_element, look_up_chain,
  hashmap_look_up_element, add_to_chain, hashmap_add_element,
}
use networks_course.Week06.Json.Value.{Json, of_table, null, integer, string, object}
use networks_course.Week06.Json.Interface.{
  json_hash_fn, json_hash_compare_fn, create_json_object, create_json_string, json_get_property,
  copies_key, json_set_property, json_destroy,
}
use networks_course.Week06.Serializers.{
  string_value, int_value, to_uint16, property, copy_property, serialize_node,
}
use networks_course.Week06.Files.{my_file_hash_fn, my_file_compare_fn, add_my_file, find_my_file}
use networks_course.Week06.Handlers.{
  Packing, Tables, Handled, push_node, push_to, client_node, hello_handler, get_file_handler,
}
use networks_course.Week06.Handlers.Hello.{addresses, receivers, hello_handler-pushes}
use networks_course.Week06.Control.{
  Answered, text_of, file_of, with_status, add_file, handle_control_add_file,
}
use networks_course.Week06.Control.Uploads.{get_file_handler-handle_control_add_file}
use networks_course.Week06.Requests.{Received, receive_request_sock, pr_recvs}
use networks_course.Week06.Requests.Waiting.{pr_recvs-receive_request_sock}
use networks_course.Week06.EventLoop.{EventLoop, event_loop_init, event_loop_add_periodic_task}
use networks_course.Week06.EventLoop.Rounds.{event_loop_run_loop}
use networks_course.Week06.EventLoop.Inert.{
  perform, Reach, IsInert, event_loop_run_loop-init, add_periodic_task, here, next,
}

abbrev pub machine : Machine
machine = record { usable = λ n. n + 24; entry_reads_as = λ stored key. false }

pub machine-Distinct : Distinct machine
machine-Distinct = record { no_key = λ stored key. refl }

-- A pack that keeps the type only.
abbrev packing : Packing
packing = record { pack = λ type payload. ok (string type); pack_from = ok null }

abbrev pub ann : Node
ann = record { name = codes "ann"; ip = codes "10.0.0.1"; port = 8000 }

abbrev bob : Node
bob = record { name = codes "bob"; ip = codes "10.0.0.2"; port = 8001 }

-- The result of a run that returns.
abbrev pub result_or {ℓ} : {A : Type ℓ} → A → Run A → A
result_or other (ok a) = a
result_or other fault = other

peers_program : Unit {0}
unfolding serialize_node json_set_property copies_key create_json_object hashmap_create
    hashmap_add_element add_to_chain json_hash_fn polynomial_hash hash_from hash_step char_value
    read json_get_property hashmap_look_up_element look_up_chain json_hash_compare_fn str_eq
    create_json_string c_str string_value int_value to_uint16 property copy_property
    known_nodes_hash_fn known_node ip_and_port_known_node_compare_fn add_known_node
    look_up_known_node for_each_known_node hashmap_for_each_element for_each_in_chain hello_handler
    client_node push_to push_node json_destroy my_file_hash_fn my_file_compare_fn add_my_file
    find_my_file text_of file_of with_status add_file handle_control_add_file
peers_program = tt

-- An object with properties in its first bucket.
abbrev object_of : List (Bytes × Json) → Json
object_of properties = object (of_table (properties ∷ []))

-- The sender of a request: bob.
abbrev from : Json
from = object_of (
    (codes "ip", string (codes "10.0.0.2"))
    ∷ (codes "name", string (codes "bob"))
    ∷ (codes "listen_port", integer (pos 8001))
    ∷ (codes "socket", integer (pos 5))
    ∷ [])

abbrev pub tables : Tables
tables = record {
  known_nodes = set (replicate 63 []) 17 (known_node ann ∷ []);
  known_files = replicate 63 [];
  my_files = replicate 63 [];
}

abbrev greeted : Handled
greeted =
    result_or
      (record { response = none; keep_alive = pos 0; tables = tables; sent = []; upload = none })
      (hello_handler machine packing (some from) tables)

hello_returns : hello_handler machine packing (some from) tables ≡ ok greeted
unfolding peers_program
hello_returns = refl

bob_reads : client_node machine packing (some from) ≡ ok bob
unfolding peers_program
bob_reads = refl

bob_unknown : look_up_known_node bob.ip bob.port tables.known_nodes ≡ ok none
unfolding peers_program
bob_unknown = refl

hello_handler-pushes_example :
    (look_up_known_node bob.ip bob.port greeted.tables.known_nodes ≡ ok (some (known_node bob)))
    × (receivers greeted.sent ≡ addresses (get_known_nodes tables.known_nodes))
    × (Option.map ok greeted.response ≡ some (ok (string (codes "hello_response"))))
    × (greeted.keep_alive ≡ pos 1)
hello_handler-pushes_example =
    hello_handler-pushes machine packing machine-Distinct (some from) tables greeted bob
      hello_returns bob_reads bob_unknown

-- add_file with a name and a path
abbrev command : Json
command =
    object_of (
      (codes "filename", string (codes "a.txt")) ∷ (codes "path", string (codes "/tmp/a.txt")) ∷ [])

abbrev added : Answered
added =
    result_or (record { response = none; tables = tables; download = none })
      (handle_control_add_file machine (some command) tables)

add_file_returns : handle_control_add_file machine (some command) tables ≡ ok added
unfolding peers_program
add_file_returns = refl

named : json_get_property command (codes "filename") ≡ some (string (codes "a.txt"))
unfolding peers_program
named = refl

located : json_get_property command (codes "path") ≡ some (string (codes "/tmp/a.txt"))
unfolding peers_program
located = refl

no_file_yet : find_my_file (codes "a.txt") tables.my_files ≡ ok none
unfolding peers_program
no_file_yet = refl

on_socket_5 : json_get_property from (codes "socket") ≡ some (integer (pos 5))
unfolding peers_program
on_socket_5 = refl

-- The path is part of the command and of no matter to the request.
get_file_handler-handle_control_add_file_example :
    get_file_handler machine packing (some command) (pos 0) (some from) added.tables
    ≡ ok (record {
      response = none;
      keep_alive = pos 1;
      tables = added.tables;
      sent = [];
      upload = some (pos 5, codes "/tmp/a.txt");
    })
get_file_handler-handle_control_add_file_example =
    get_file_handler-handle_control_add_file machine packing machine-Distinct command command from
      (codes "a.txt") (codes "/tmp/a.txt") tables added (pos 0) (pos 5) named located no_file_yet
      add_file_returns named on_socket_5

pr_recvs-receive_request_sock_example :
    (received : List Received) × (pr_recvs machine
        (codes "{\"status\"" ∷ codes ":0}" ∷ [])
        (receive_request_sock 1)
      ≡ ok received)
    × (map (λ r. r.delivered) received ≡ none ∷ none ∷ [])
pr_recvs-receive_request_sock_example =
    pr_recvs-receive_request_sock machine 1 (codes "{\"status\"" ∷ codes ":0}" ∷ [])

-- A loop for four descriptors, with a task that was added.
abbrev empty_loop : EventLoop ℕ
empty_loop = event_loop_init 4 2 1

abbrev with_task : EventLoop ℕ
with_task = record empty_loop {
  periodic_tasks =
      set (replicate 4 (record { callback = 0; interval = pos 0; last_done = pos 0 })) 0
        (record { callback = 3; interval = pos 10; last_done = pos 90 });
  next_periodic_task = 1;
}

task_added : perform (add_periodic_task 3 (pos 10) (pos 100)) empty_loop ≡ ok with_task
unfolding perform event_loop_add_periodic_task event_loop_init write
task_added = refl

with_task-Reach : Reach empty_loop with_task
with_task-Reach = next (add_periodic_task 3 (pos 10) (pos 100)) empty_loop with_task here task_added

event_loop_run_loop-init_example :
    IsInert with_task × (event_loop_run_loop [] with_task ≡ ok (true, with_task))
event_loop_run_loop-init_example = event_loop_run_loop-init 4 2 1 with_task [] with_task-Reach
