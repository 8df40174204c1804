-- ===== src/Week06d/Pings.antt =====
-- week06d/src/pings.c: the nodes are pinged in turn. A node's entry and the socket on which its answer
-- is waited for are kept together; the entries stand in the order of the chains of the directory.
pub mod Steps
pub mod Outcomes
use networks_course.Prelude.{
  ℕ, ◌+◌, Bytes, ℤ, pos, negsuc, is_neg, int_eq, Bool, List, [], ◌∷◌, ◌++◌, map, Option, none, some,
  Run, ok, ◌>>=◌, ◌>>◌, in_bounds, length, get_or, take, drop, codes, ltb, ◌==◌, if◌then◌else◌,
}
use networks_course.Week06d.Node.{Entry}
use networks_course.Week06d.Wire.{sizeof_preamble}
use networks_course.Week06d.Handlers.{magic_pong, buffer_size}

pub record Peer : Type 0 where
  pub entry : Entry
  pub socket : Option ℤ

-- What the system answers in a round: the sockets that connecting gives, negative where it fails;
-- the time; and whether the event loop has room for a socket.
pub record World : Type 0 where
  pub connect : Bytes → ℕ → ℤ
  pub time : ℤ
  pub room : ℤ → Bool

abbrev pub is_zero : ℤ → Bool
is_zero n = int_eq n (pos 0)

-- A socket that was opened for a node's ping.
unfoldable pub listen_to : World → Peer → ℤ → Peer
listen_to w peer node_sock = record {
  entry = record peer.entry { waiting_pong_since = w.time };
  socket = if w.room node_sock then some node_sock else peer.socket;
}

unfoldable pub ping_node : World → Peer → Peer
ping_node w peer =
    let node_sock = w.connect peer.entry.ip peer.entry.port in
    if is_zero peer.entry.waiting_pong_since
    then (if is_neg node_sock
        then record peer { entry = record peer.entry { waiting_pong_since = negsuc 0 } }
        else listen_to w peer node_sock)
    else peer

-- What a node adds to the line that is logged.
unfoldable pub ping_status : Peer → Bytes
ping_status peer =
    codes " "
    ++ (peer.entry.name
        ++ (if is_zero peer.entry.waiting_pong_since then codes ":ok " else codes ":failed "))

unfoldable pub ping_report : List Peer → Bytes
ping_report [] = []
ping_report (peer ∷ peers) = ping_status peer ++ ping_report peers

-- The nodes afterwards, and the line. A line that is longer than its buffer is written behind it.
unfoldable pub ping_all_nodes : World → List Peer → Run (List Peer × Bytes)
ping_all_nodes w peers = do
  let line = codes "Pings: " ++ ping_report peers
  in_bounds (ltb (length line) buffer_size)
  ok (map (ping_node w) peers, line)

-- What is looked at of the bytes received; what was not received of the buffer is `junk`.
unfoldable pub is_pong : Bytes → Bytes → Bool
is_pong junk bytes =
    let n = take (sizeof_preamble + 1) bytes in
    get_or (n ++ drop (length n) junk) sizeof_preamble 0 == magic_pong

-- `ping_sock`, with the bytes received, none for an error or a closed connection. The event loop lets
-- go of the socket in both cases.
unfoldable pub ping_sock : Bytes → Option Bytes → Peer → ℤ × Peer
ping_sock junk none peer = (negsuc 0, record peer { socket = none })
ping_sock junk (some bytes) peer =
    if is_pong junk bytes
    then (pos 0, record { entry = record peer.entry { waiting_pong_since = pos 0 }; socket = none })
    else (negsuc 0, record peer { socket = none })
