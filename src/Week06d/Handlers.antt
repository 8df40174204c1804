-- ===== src/Week06d/Handlers.antt =====
-- week06d/src/handlers.c: what the node answers to a message, and whom it tells of a new node.
pub mod Inv
pub mod PushNode
use networks_course.Prelude.{
  ℕ, ◌+◌, Bytes, Bool, true, false, List, [], ◌∷◌, ◌++◌, Run, ok, ◌>>=◌, ◌>>◌, access, in_bounds,
  length, get_or, take, drop, c_str, leb, ◌==◌, if◌then◌else◌,
}
use networks_course.Week06d.Node.{Entry}
use networks_course.Week06d.Directory.{Directory, add_known_node, entries, for_each_known_node}
use networks_course.Week06d.Wire.{
  to_le, from_le, char_array, strcpy, name_field, node_bytes, read_node, sizeof_preamble, Self,
  pack_context, ClientContext, extract_context,
}

-- include/magic.h
abbrev pub magic_ping : ℕ
magic_ping = 1

abbrev pub magic_pong : ℕ
magic_pong = 2

abbrev pub magic_hello : ℕ
magic_hello = b'H'

abbrev pub magic_get_node_list : ℕ
magic_get_node_list = b'G'

abbrev pub magic_node_list : ℕ
magic_node_list = b'N'

abbrev pub magic_push_node : ℕ
magic_push_node = b'P'

abbrev pub payload_size : ℕ
payload_size = 20480

abbrev pub buffer_size : ℕ
buffer_size = 20480

-- A request that the node sends of its own: `send_request_plain(ip, port, body, …)`.
pub record Push : Type 0 where
  pub ip : Bytes
  pub port : ℕ
  pub body : Bytes

-- What a handler leaves: the table, its part of the output, the flag, and the requests it sent.
pub record Reply : Type 0 where
  pub known_nodes : Directory
  pub output : Bytes
  pub keep_alive : Bool
  pub sent : List Push

-- What the arrays on the stack held before they were written.
pub record Scratch : Type 0 where
  pub preamble_name : Bytes
  pub reply_name : Bytes
  pub node_ip : Bytes

unfoldable pub push_node : Bytes → Entry → Push
push_node node entry = record { ip = entry.ip; port = entry.port; body = magic_push_node ∷ node }

unfoldable pub magic_hello_handler : Self → Scratch → Directory → Bytes → ClientContext → Run Reply
magic_hello_handler self scratch known_nodes input context = do
  name ← strcpy (char_array scratch.reply_name) self.node_name
  let output = magic_hello ∷ (name ++ to_le 2 self.listen_port)
  client_ip ← strcpy (char_array scratch.node_ip) context.node.ip
  let client_name = name_field (c_str (drop 1 input))
  let client_port = from_le (take 2 (drop 21 input))
  known_nodes' ←
      add_known_node known_nodes
        (record { name = c_str client_name; ip = context.node.ip; port = client_port })
  let client_node = node_bytes client_name client_ip client_port
  ok (record {
    known_nodes = known_nodes';
    output = output;
    keep_alive = true;
    sent = for_each_known_node (push_node client_node) known_nodes';
  })

-- The loops of the node list. The one `struct node n` is reused: its ip area keeps what the node
-- before left behind the terminator.
unfoldable pub pack_nodes : Bytes → List Entry → Run Bytes
unfolding strcpy name_field node_bytes
pack_nodes area [] = ok []
pack_nodes area (current ∷ next) = do
  ip ← strcpy area current.ip
  rest ← pack_nodes ip next
  ok (node_bytes (name_field current.name) ip current.port ++ rest)

unfoldable pub magic_get_node_list_handler : Scratch → Directory → Run Reply
unfolding pack_nodes entries char_array
magic_get_node_list_handler scratch known_nodes = do
  nodes ← pack_nodes (char_array scratch.node_ip) (entries known_nodes)
  let cnt = length (entries known_nodes)
  let output = magic_node_list ∷ (to_le 4 cnt ++ nodes)
  in_bounds (leb (length output) payload_size)
  ok (record { known_nodes = known_nodes; output = output; keep_alive = false; sent = [] })

unfoldable pub magic_ping_handler : Directory → Run Reply
magic_ping_handler known_nodes =
    ok (record {
      known_nodes = known_nodes;
      output = magic_pong ∷ [];
      keep_alive = false;
      sent = [];
    })

-- The log line reads the port of `context.map_entry`, which is null if the sender is not known.
unfoldable pub magic_push_node_handler : Directory → Bytes → ClientContext → Run Reply
magic_push_node_handler known_nodes input context = do
  pusher ← access context.map_entry
  known_nodes' ← add_known_node known_nodes (read_node (drop 1 input))
  ok (record { known_nodes = known_nodes'; output = []; keep_alive = false; sent = [] })

-- `USE_DEFAULT_HANDLER` for each request: at most one of the tests on `input[0]` can hold.
unfoldable pub dispatch : Self → Scratch → Directory → Bytes → ClientContext → Run Reply
dispatch self scratch known_nodes input context =
    let magic = get_or input 0 0 in
    if magic == magic_hello
    then magic_hello_handler self scratch known_nodes input context
    else if magic == magic_get_node_list
    then magic_get_node_list_handler scratch known_nodes
    else if magic == magic_ping
    then magic_ping_handler known_nodes
    else if magic == magic_push_node
    then magic_push_node_handler known_nodes input context
    else ok (record { known_nodes = known_nodes; output = []; keep_alive = false; sent = [] })

unfoldable pub on_client_request : Self → Scratch → Directory → Bytes → Bytes → Run Reply
on_client_request self scratch known_nodes input ip = do
  context ← extract_context known_nodes input ip
  preamble ← pack_context self scratch.preamble_name
  reply ← dispatch self scratch known_nodes (drop sizeof_preamble input) context
  in_bounds (leb (length preamble + length reply.output) buffer_size)
  ok (record reply { output = preamble ++ reply.output })
