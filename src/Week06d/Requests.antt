-- ===== src/Week06d/Requests.antt =====
-- The calls of week06d/src/requests.c, and of week06d/src/bootstrap.c, which connects and makes two
-- exchanges.
pub mod Closing
pub mod Joining
use networks_course.Prelude.{
  ℕ, ◌+◌, Bytes, ℤ, pos, negsuc, is_neg, int_eq, Bool, false, List, [], ◌∷◌, ◌++◌, Option, none,
  some, if◌then◌else◌,
}
use networks_course.Sockets.{
  System, Calls, ◌>>=◌, give, compute, ask, receive, find_host, call_socket, call_connect,
  call_send, call_close,
}
use networks_course.Week06d.Node.{Node}
use networks_course.Week06d.Directory.{Directory, add_known_node}
use networks_course.Week06d.Wire.{Self, sizeof_preamble}
use networks_course.Week06d.Handlers.{magic_get_node_list}
use networks_course.Week06d.Bootstrap.{
  request_bytes, Exchange, read_answer, hello_body, read_hello, get_known_nodes, add_nodes,
}

module _ (system : System) where
  -- An error after the socket was made.
  unfoldable pub give_up : ℤ → Calls ℤ
  give_up sock = do closed ← ask system (call_close sock); give (negsuc 0)

  unfoldable pub connect_sock : ℤ → ℕ → Option Bytes → Calls ℤ
  connect_sock sock port none = give_up sock
  connect_sock sock port (some address) = do
    answer ← ask system (call_connect sock address port)
    if int_eq answer (pos 0) then give sock else give_up sock

  unfoldable pub connect_to_node_plain : Bytes → ℕ → Calls ℤ
  connect_to_node_plain ip port = do
    sock ← ask system call_socket
    let found = find_host system ip >>= connect_sock sock port
    if is_neg sock then give (negsuc 0) else found

  unfoldable pub connect_to_node : Node → Calls ℤ
  connect_to_node node = connect_to_node_plain node.ip node.port

  module _ (self : Self) (junk : Bytes) where
    unfoldable pub send_request_sock : ℤ → Bytes → Calls (Unit {0})
    send_request_sock sock [] = give tt
    send_request_sock sock (byte ∷ body) = do
      request ← compute (request_bytes self junk (byte ∷ body))
      sent ← ask system (call_send sock request)
      give tt

    unfoldable pub send_request_plain : Bytes → ℕ → Bytes → Calls (Unit {0})
    send_request_plain ip port [] = give tt
    send_request_plain ip port (byte ∷ body) = do
      sock ← connect_to_node_plain ip port
      let sent = send_request_sock sock (byte ∷ body) >>= λ done.
          ask system (call_close sock) >>= λ closed. give tt
      if is_neg sock then give tt else sent

    unfoldable pub send_request : Node → Bytes → Calls (Unit {0})
    send_request node body = send_request_plain node.ip node.port body

    -- `response` is the buffer for the answer, of which `response_length` bytes are meant.
    module _ (asked : Bool) (known_nodes : Directory) (answer_junk : Bytes) where
      unfoldable pub send_receive_sock : ℤ → Bytes → Bytes → Bytes → ℕ → Calls Exchange
      send_receive_sock sock ip body response response_length = do
        request ← compute (request_bytes self junk body)
        sent ← ask system (call_send sock request)
        received ← receive system sock (sizeof_preamble + response_length)
        compute (read_answer asked known_nodes ip answer_junk response received)

      unfoldable pub send_receive_plain : Bytes → ℕ → Bytes → Bytes → ℕ → Calls Exchange
      send_receive_plain ip port body response response_length = do
        sock ← connect_to_node_plain ip port
        let exchanged = send_receive_sock sock ip body response response_length >>= λ exchange.
            ask system (call_close sock) >>= λ closed. give exchange
        if is_neg sock
            then give (record { result = negsuc 0; response = response; context = none })
            else exchanged

      unfoldable pub send_receive : Node → Bytes → Bytes → ℕ → Calls Exchange
      send_receive node body response response_length =
          send_receive_plain node.ip node.port body response response_length

  module _ (self : Self) where
    unfoldable pub say_hello : Bytes → Bytes → Bytes → Directory → ℤ → Bytes → Calls Node
    say_hello junk answer_junk hello_rest known_nodes sock ip = do
      exchange ←
          send_receive_sock self junk false known_nodes answer_junk sock ip (hello_body self)
            (hello_body self ++ hello_rest) 23
      give (read_hello ip exchange.response)

    unfoldable pub request_known_nodes :
        Bytes → Bytes → Bytes → Directory → ℤ → Bytes → Calls (List Node)
    request_known_nodes junk answer_junk list_rest known_nodes sock ip = do
      exchange ←
          send_receive_sock self junk false known_nodes answer_junk sock ip
            (magic_get_node_list ∷ []) (magic_get_node_list ∷ list_rest) 20480
      compute (get_known_nodes exchange.response)

    -- What the arrays held before: `junk` for those of requests and answers, `hello_rest` and
    -- `list_rest` behind what is put into the two buffers.
    unfoldable pub bootstrap_on :
        Bytes → Bytes → Bytes → Bytes → Directory → Bytes → ℤ → Calls Directory
    bootstrap_on junk answer_junk hello_rest list_rest known_nodes ip sock = do
      bootstrap_node ← say_hello junk answer_junk hello_rest known_nodes sock ip
      known_nodes' ← compute (add_known_node known_nodes bootstrap_node)
      nodes ← request_known_nodes junk answer_junk list_rest known_nodes' sock ip
      compute (add_nodes self nodes known_nodes')

    unfoldable pub bootstrap :
        Bytes → Bytes → Bytes → Bytes → Directory → Bytes → ℕ → Calls Directory
    bootstrap junk answer_junk hello_rest list_rest known_nodes ip port =
        connect_to_node_plain ip port
        >>= bootstrap_on junk answer_junk hello_rest list_rest known_nodes ip
