-- ===== src/Week06d/Server.antt =====
-- week06d/src/server.c: connections and what is received on them. The address that a connection is
-- added with points to the array of `inet_ntoa`, which holds the address of the last client that
-- connected.
pub mod Inv
pub mod Listening
pub mod Clients
use networks_course.Prelude.{
  Bytes, ℤ, pos, negsuc, List, [], ◌∷◌, ◌++◌, Run, ok, ◌>>=◌, ◌>>◌, length, take, drop,
  if◌then◌else◌,
}
use networks_course.Week06d.Directory.{Directory}
use networks_course.Week06d.Wire.{Self}
use networks_course.Week06d.Handlers.{buffer_size, Reply, Scratch, on_client_request}

-- What the server keeps: the directory, and the array of `inet_ntoa`.
pub record State : Type 0 where
  pub known_nodes : Directory
  pub address : Bytes

-- What happens: a client connects from an address, or bytes arrive on one of the connections, where
-- `junk` is what the array for them held before.
pub data Event : Type 0 where
  connected : Bytes → Event
  arrived : Scratch → Bytes → Bytes → Event

-- The array of the request: an error or a closed connection leave it as it was, as no bytes do.
unfoldable pub input_buffer : Bytes → Bytes → Bytes
input_buffer junk bytes = let n = take buffer_size bytes in n ++ drop (length n) junk

-- What the event loop is told, and what the handler left.
unfoldable pub handle_client_data :
    Self → Scratch → Directory → Bytes → Bytes → Bytes → Run (ℤ × Reply)
handle_client_data self scratch known_nodes junk bytes ip = do
  reply ← on_client_request self scratch known_nodes (input_buffer junk bytes) ip
  ok (if reply.keep_alive then pos 0 else negsuc 0, reply)

unfoldable pub handle_new_connection : Bytes → State → State
handle_new_connection ip state = record state { address = ip }

unfoldable pub handle_event : Self → Event → State → Run State
handle_event self (connected ip) state = ok (handle_new_connection ip state)
handle_event self (arrived scratch junk bytes) state = do
  served ← handle_client_data self scratch state.known_nodes junk bytes state.address
  ok (record state { known_nodes = served.1.known_nodes })

-- Events in the order in which the event loop reports them.
unfoldable pub serve : Self → List Event → State → Run State
serve self [] state = ok state
serve self (event ∷ events) state = handle_event self event state >>= serve self events
