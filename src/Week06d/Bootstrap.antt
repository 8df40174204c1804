-- ===== src/Week06d/Bootstrap.antt =====
-- week06d/src/bootstrap.c, with the exchanges of src/requests.c: how a node joins the network
-- through another one. What the network returns is an argument.
pub mod NodeList
pub mod Hello
use networks_course.Prelude.{
  ℕ, zero, suc, ◌+◌, ◌-◌, ◌*◌, ◌^◌, Bytes, ℤ, pos, negsuc, Bool, List, [], ◌∷◌, ◌++◌, Option, none,
  some, Run, ok, ◌>>=◌, ◌>>◌, in_bounds, length, take, drop, str_eq, c_str, ltb, leb, if◌then◌else◌,
}
use networks_course.Week06d.Node.{Node}
use networks_course.Week06d.Directory.{Directory, add_known_node}
use networks_course.Week06d.Wire.{
  to_le, from_le, strncpy, name_field, sizeof_node, read_node, Self, sizeof_preamble, pack_context,
  ClientContext, extract_context,
}
use networks_course.Week06d.Handlers.{magic_hello, magic_get_node_list, buffer_size}

-- The message of `send_request_sock` and `send_receive_sock`: the preamble and the body.
unfoldable pub request_bytes : Self → Bytes → Bytes → Run Bytes
request_bytes self junk body = do preamble ← pack_context self junk; ok (preamble ++ body)

-- The receiving half of `send_receive_sock`: the contents of `response` afterwards. `none` is a
-- failed `recv`, which leaves it alone. A response shorter than a preamble makes the size of the
-- copy wrap around.
unfoldable pub receive_response : Option Bytes → Bytes → Run Bytes
receive_response none buf = ok buf
receive_response (some received) buf = do
  in_bounds (leb sizeof_preamble (length received))
  let payload = drop sizeof_preamble received
  in_bounds (leb (length payload) (length buf))
  ok (payload ++ drop (length payload) buf)

-- What `send_receive_sock` leaves: its result, the buffer for the response, and the context of the
-- sender where it is asked for.
pub record Exchange : Type 0 where
  pub result : ℤ
  pub response : Bytes
  pub context : Option ClientContext

-- The array for the answer holds what was received, and behind it what it held before.
unfoldable pub context_of : Bool → Directory → Bytes → Bytes → Bytes → Run (Option ClientContext)
context_of asked known_nodes ip junk received =
    let context =
      extract_context known_nodes (received ++ drop (length received) junk) ip >>= λ context.
      ok (some context) in
    if asked then context else ok none

-- After `recv`.
unfoldable pub read_answer : Bool → Directory → Bytes → Bytes → Bytes → Option Bytes → Run Exchange
read_answer asked known_nodes ip junk response none =
    ok (record { result = negsuc 0; response = response; context = none })
read_answer asked known_nodes ip junk response (some received) = do
  context ← context_of asked known_nodes ip junk received
  response' ← receive_response (some received) response
  ok (record {
    result = pos (length received - sizeof_preamble);
    response = response';
    context = context;
  })

-- The body of `say_hello`.
unfoldable pub hello_body : Self → Bytes
hello_body self = magic_hello ∷ (strncpy self.node_name 20 ++ to_le 2 self.listen_port)

-- What `say_hello` reads from its buffer: the other node's name and port.
unfoldable pub read_hello : Bytes → Bytes → Node
read_hello bootstrap_ip buf = record {
  name = c_str (name_field (c_str (drop 1 buf)));
  ip = bootstrap_ip;
  port = from_le (take 2 (drop 21 buf));
}

unfoldable pub read_nodes : ℕ → Bytes → List Node
unfolding read_node
read_nodes zero buf = []
read_nodes (suc cnt) buf = read_node buf ∷ read_nodes cnt (drop sizeof_node buf)

-- `get_known_nodes`, after the exchange. The count is an `int`; the copy stays in the buffer only
-- if it is not negative and the nodes fit.
unfoldable pub get_known_nodes : Bytes → Run (List Node)
get_known_nodes buf = do
  let cnt = from_le (take 4 (drop 1 buf))
  in_bounds (ltb cnt (2 ^ 31))
  in_bounds (leb (5 + cnt * sizeof_node) buffer_size)
  ok (read_nodes cnt (drop 5 buf))

-- The loop of `bootstrap_known_nodes`, which does not add the node itself.
unfoldable pub add_nodes : Self → List Node → Directory → Run Directory
unfolding str_eq
add_nodes self [] known_nodes = ok known_nodes
add_nodes self (node ∷ nodes) known_nodes =
    if str_eq node.name self.node_name
    then add_nodes self nodes known_nodes
    else (add_known_node known_nodes node >>= add_nodes self nodes)

-- `bootstrap_known_nodes` over the two responses and what the two buffers held before.
unfoldable pub bootstrap_known_nodes :
    Self → Bytes → Option Bytes → Option Bytes → Bytes → Bytes → Directory → Run Directory
bootstrap_known_nodes self bootstrap_ip hello_response list_response hello_rest list_rest
      known_nodes =
    do
      hello_buf ← receive_response hello_response (hello_body self ++ hello_rest)
      known_nodes' ← add_known_node known_nodes (read_hello bootstrap_ip hello_buf)
      list_buf ← receive_response list_response (magic_get_node_list ∷ list_rest)
      nodes ← get_known_nodes list_buf
      add_nodes self nodes known_nodes'
