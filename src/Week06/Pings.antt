-- ===== src/Week06/Pings.antt =====
-- week06/src/pings.c: the nodes are pinged in turn, and answer in JSON. A known node and the socket on
-- which its answer is waited for are kept together.
use networks_course.Prelude.{
  ℕ, Bytes, ℤ, pos, negsuc, is_neg, int_eq, Bool, List, [], ◌∷◌, ◌++◌, Option, none, some, Run, ok,
  ◌>>=◌, ◌>>◌, in_bounds, length, take, codes, str_eq, ltb, if◌then◌else◌,
}
use networks_course.Week06.Machine.{Machine}
use networks_course.Week06.Known.{KnownNode}
use networks_course.Week06.Json.Value.{Json, null}
use networks_course.Week06.Json.Parser.{deserialize_json}
use networks_course.Week06.Serializers.{string_value, property}
use networks_course.Week06.Files.{buffer_size}
use networks_course.Week06.Handlers.{Packing}
use networks_course.Week06.Control.{answer_of}

pub record Peer : Type 0 where
  pub known : KnownNode
  pub socket : Option ℤ

-- What the system answers in a round: the sockets that connecting gives, negative where it fails;
-- the time; and whether the event loop has room for a socket.
pub record World : Type 0 where
  pub connect_plain : Bytes → ℕ → ℤ
  pub time : ℤ
  pub room : ℤ → Bool

abbrev pub is_idle : Peer → Bool
is_idle peer = int_eq peer.known.waiting_pong_since (pos 0)

-- What a node adds to the line that is logged.
unfoldable pub ping_status : Peer → Bytes
ping_status peer =
    codes " " ++ (peer.known.name ++ (if is_idle peer then codes ":ok " else codes ":failed "))

module _ (p : Packing) (w : World) where
  -- A socket that was opened for a ping. The request is handed over.
  unfoldable pub await_pong : Peer → ℤ → Run Peer
  await_pong peer node_sock = do
    request ← p.pack (codes "ping") null
    ok (record {
      known = record peer.known { waiting_pong_since = w.time };
      socket = if w.room node_sock then some node_sock else peer.socket;
    })

  unfoldable pub ping_node : Peer → Run Peer
  ping_node peer =
      let node_sock = w.connect_plain peer.known.ip peer.known.port in
      let lost = ok (record peer { known = record peer.known { waiting_pong_since = negsuc 0 } }) in
      let awaited = await_pong peer node_sock in
      if is_idle peer then (if is_neg node_sock then lost else awaited) else ok peer

  -- The callback of the loop over the nodes, with what is left of the line behind it. Both texts are
  -- written to buffers.
  unfoldable pub ping_nodes : List Peer → Bytes → Run (List Peer × Bytes)
  ping_nodes [] output = ok ([], output)
  ping_nodes (peer ∷ peers) output = do
    in_bounds (ltb (length (output ++ ping_status peer)) buffer_size)
    pinged ← ping_node peer
    rest ← ping_nodes peers (output ++ ping_status peer)
    ok (pinged ∷ rest.0, rest.1)

  unfoldable pub ping_all_nodes : List Peer → Run (List Peer × Bytes)
  ping_all_nodes peers = ping_nodes peers (codes "Pings: ")

module _ (m : Machine) where
  -- `json_get_property(json_get_property(request, "body"), "type")->string_value`
  unfoldable pub response_type : Option Json → Run Bytes
  response_type request = do
    body ← property request (codes "body")
    type ← property (some body) (codes "type")
    string_value type

  -- With the bytes received, none or empty for an error or a closed connection. The event loop lets go
  -- of the socket in all cases.
  unfoldable pub ping_sock : Option Bytes → Peer → Run (ℤ × Peer)
  ping_sock none peer = ok (negsuc 0, record peer { socket = none })
  ping_sock (some []) peer = ok (negsuc 0, record peer { socket = none })
  ping_sock (some (byte ∷ bytes)) peer = do
    request ← answer_of (deserialize_json m (take buffer_size (byte ∷ bytes)))
    type ← response_type request
    let pong : Peer = record {
      known = record peer.known { waiting_pong_since = pos 0 };
      socket = none;
    }
    ok (
        if str_eq type (codes "pong")
        then (pos 0, pong)
        else (negsuc 0, record peer { socket = none }))
