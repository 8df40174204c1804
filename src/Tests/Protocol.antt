-- ===== src/Tests/Protocol.antt =====
-- week06d: messages between two nodes.
use networks_course.Prelude.{
  ℕ, ◌≡◌, refl, Bytes, pos, false, List, [], ◌∷◌, ◌++◌, map, some, ok, fault, ◌>>=◌, length,
  replicate, codes, c_str, arith, length-replicate,
}
use networks_course.Week06d.Directory.{entries, look_up_known_node}
use networks_course.Week06d.Wire.{
  to_le, from_le, char_array, strcpy, strncpy, name_field, node_bytes, read_node, Self,
  pack_context, extract_context,
}
use networks_course.Week06d.Wire.Laws.{IsField}
use networks_course.Week06d.Wire.Context.{SelfFits, extract_context-pack_context}
use networks_course.Week06d.Handlers.{
  magic_push_node, Reply, Scratch, push_node, magic_get_node_list_handler, magic_ping_handler,
  magic_push_node_handler, dispatch, on_client_request,
}
use networks_course.Week06d.Server.{
  State, Event, input_buffer, handle_client_data, handle_new_connection, handle_event, serve,
  connected, arrived,
}
use networks_course.Week06d.Server.Inv.{IsServing, AllEvents, serve-IsServing}
use networks_course.Week06d.Handlers.PushNode.{push_node-unknown, push_node-known}
use networks_course.Week06d.Bootstrap.{receive_response, hello_body, get_known_nodes}
use networks_course.Week06d.Bootstrap.NodeList.{node_of, get_known_nodes-get_node_list}
use networks_course.Week06d.Bootstrap.Hello.{Greeted, hello-Greeted}
use networks_course.Tests.Directory.{
  program, with_alice, with_bob, bob_added, with_alice-IsValid, with_alice-Fits,
}

protocol : Unit {0}
unfolding program to_le from_le char_array strcpy strncpy name_field node_bytes read_node c_str
    pack_context extract_context push_node magic_ping_handler magic_push_node_handler dispatch
    on_client_request
protocol = tt

abbrev pub server : Self
server = record { node_name = codes "server"; listen_port = 2000 }

abbrev client : Self
client = record { node_name = codes "p"; listen_port = 3000 }

-- The node that `with_alice` knows, at 10.0.0.1:2000.
abbrev pusher : Self
pusher = record { node_name = codes "1"; listen_port = 2000 }

server-SelfFits : SelfFits server
server-SelfFits = omega arith

client-SelfFits : SelfFits client
client-SelfFits = omega arith

pusher-SelfFits : SelfFits pusher
pusher-SelfFits = omega arith

abbrev pub scratch : Scratch
scratch = record { preamble_name = 7 ∷ []; reply_name = []; node_ip = 9 ∷ 9 ∷ [] }

abbrev packed : Bytes
packed = to_le 2 3000 ++ (codes "p" ++ 0 ∷ replicate 18 0)

client-packed : pack_context client [] ≡ ok packed
unfolding protocol
client-packed = refl

abbrev pusher_packed : Bytes
pusher_packed = to_le 2 2000 ++ (codes "1" ++ 0 ∷ replicate 18 0)

pusher_packs : pack_context pusher [] ≡ ok pusher_packed
unfolding protocol
pusher_packs = refl

extract_context-pack_context_example :
    (bytes : Bytes) × (pack_context client (5 ∷ []) ≡ ok bytes)
    × (length bytes ≡ 22)
    × (extract_context with_alice (bytes ++ codes "H") (codes "10.0.0.2")
        ≡ ok (record {
          map_entry = look_up_known_node (codes "10.0.0.2") 3000 with_alice;
          node = record { name = codes "p"; ip = codes "10.0.0.2"; port = 3000 };
        }))
extract_context-pack_context_example =
    extract_context-pack_context client (5 ∷ []) (codes "H") (codes "10.0.0.2") with_alice
      client-SelfFits (omega arith)

hello-Greeted_example :
    (r : Reply) × (on_client_request server scratch with_alice
        (packed ++ (hello_body client ++ []))
        (codes "10.0.0.2")
      ≡ ok r)
    × Greeted server client (codes "10.0.0.2") (codes "10.0.0.9") (replicate 100 0) with_bob r
hello-Greeted_example =
    hello-Greeted server client scratch [] [] (codes "10.0.0.2") (codes "10.0.0.9") packed
      (replicate 100 0) with_alice server-SelfFits client-SelfFits (omega arith) (omega arith)
      client-packed (omega arith) bob_added

get_known_nodes-get_node_list_example :
    (reply : Reply) × (magic_get_node_list_handler scratch with_alice ≡ ok reply)
    × (receive_response (some (replicate 22 0 ++ reply.output)) (replicate 20480 0)
          >>= get_known_nodes
        ≡ ok (map node_of (entries with_alice)))
get_known_nodes-get_node_list_example =
    get_known_nodes-get_node_list scratch with_alice (replicate 22 0) (replicate 20480 0)
      with_alice-IsValid with_alice-Fits (length-replicate {A = ℕ} 22 0)
      (length-replicate {A = ℕ} 20480 0)

abbrev ping : Bytes
ping = packed ++ (1 ∷ [])

abbrev pong : Reply
pong = record {
  known_nodes = with_alice;
  output = to_le 2 2000 ++ (codes "server" ++ 0 ∷ replicate 13 0) ++ 2 ∷ [];
  keep_alive = false;
  sent = [];
}

ping_answered :
    on_client_request server
      (record scratch { preamble_name = [] })
      with_alice
      ping
      (codes "10.0.0.2")
    ≡ ok pong
unfolding protocol
ping_answered = refl

abbrev events : List Event
events = connected (codes "10.0.0.2") ∷ arrived (record scratch { preamble_name = [] }) [] ping ∷ []

abbrev before : State
before = record { known_nodes = with_alice; address = [] }

abbrev after : State
after = record { known_nodes = with_alice; address = codes "10.0.0.2" }

ping_input : input_buffer [] ping ≡ ping
unfolding input_buffer to_le
ping_input = refl

served : serve server events before ≡ ok after
unfolding serve handle_event handle_new_connection handle_client_data
served = rw (ping_input, ping_answered) refl

events-AllEvents : AllEvents events
unfolding to_le
events-AllEvents = (omega arith, ((tt, omega arith), tt))

before-IsServing : IsServing before
before-IsServing = record { valid = with_alice-IsValid; fits = with_alice-Fits; is_text = tt }

serve-IsServing_example : IsServing after
serve-IsServing_example =
    serve-IsServing server events before after events-AllEvents before-IsServing served

abbrev bob_name_area : Bytes
bob_name_area = codes "p" ++ 0 ∷ replicate 18 0

abbrev bob_ip_area : Bytes
bob_ip_area = codes "10.0.0.2" ++ 0 ∷ replicate 11 3

bob_name-IsField : IsField bob_name_area (codes "p")
bob_name-IsField = record { size = refl; tail = replicate 18 0; layout = refl; text = omega arith }

bob_ip-IsField : IsField bob_ip_area (codes "10.0.0.2")
bob_ip-IsField = record { size = refl; tail = replicate 11 3; layout = refl; text = omega arith }

push_node-unknown_example :
    on_client_request server scratch with_alice
      (packed ++ (magic_push_node ∷ (node_bytes bob_name_area bob_ip_area 3000 ++ [])))
      (codes "10.0.0.2")
    ≡ fault
unfolding program
push_node-unknown_example =
    push_node-unknown server client scratch [] [] (codes "10.0.0.2") packed with_alice
      server-SelfFits client-SelfFits (omega arith) client-packed bob_name_area (codes "p")
      bob_ip_area (codes "10.0.0.2") 3000 refl

push_node-known_example :
    (preamble : Bytes) × (on_client_request server scratch with_alice
        (pusher_packed ++ (magic_push_node ∷ (node_bytes bob_name_area bob_ip_area 3000 ++ [])))
        (codes "10.0.0.1")
      ≡ ok (record {
        known_nodes = with_bob;
        output = preamble ++ [];
        keep_alive = false;
        sent = [];
      }))
    × (length preamble ≡ 22)
unfolding program
push_node-known_example =
    push_node-known server pusher scratch [] [] (codes "10.0.0.1") pusher_packed with_alice
      server-SelfFits pusher-SelfFits (omega arith) pusher_packs bob_name_area (codes "p")
      bob_ip_area (codes "10.0.0.2") 3000 bob_name-IsField bob_ip-IsField (omega arith) alice_known
      bob_added
  where
    alice_known :
        look_up_known_node (codes "10.0.0.1") 2000 with_alice
        ≡ some (record {
          name = codes "1";
          ip = codes "10.0.0.1";
          port = 2000;
          waiting_pong_since = pos 0;
        })
    alice_known = refl
