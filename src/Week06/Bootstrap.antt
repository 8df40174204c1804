-- ===== src/Week06/Bootstrap.antt =====
-- week06/src/bootstrap.c: what a node asks of the first node that it knows. `send_receive_sock` is
-- declared nowhere in the repository: what it answers, and the sender that it tells of, are
-- parameters, as are `pack` and the sockets. An allocation succeeds, also one of no bytes.
pub mod NodeList
use networks_course.Prelude.{
  ℕ, zero, suc, Bytes, ℤ, pos, negsuc, is_neg, List, [], ◌∷◌, Option, none, some, Run, ok, ◌>>=◌,
  ◌>>◌, access, in_bounds, length, codes, str_eq, ltb, if◌then◌else◌,
}
use networks_course.Week06.Hashmap.{Hashmap}
use networks_course.Week06.Machine.{Machine}
use networks_course.Week06.Known.{
  Node, KnownNode, node_ip_len, add_known_node, KnownFile, add_known_file,
}
use networks_course.Week06.Json.Value.{Json, null}
use networks_course.Week06.Json.Interface.{
  json_get_property, json_array_length, json_array_index, json_destroy,
}
use networks_course.Week06.Serializers.{
  string_value, int_value, to_uint16, property, copy_property, deserialize_node,
}
use networks_course.Week06.Handlers.{Packing, Tables, answer}

-- The connection to the other node: the socket that `connect_plain` gives, and the response, with
-- its sender, to a request on a socket.
pub record Remote : Type 0 where
  pub connect_plain : Bytes → ℕ → ℤ
  pub send_receive_sock : ℤ → Bytes → Json → Run (Option Json × Option Json)

-- `strcpy` into an array of 20 bytes.
abbrev pub fits_ip : Bytes → Run (Unit {0})
fits_ip ip = in_bounds (ltb (length ip) node_ip_len)

-- The node that a response comes from.
unfoldable pub sender : Bytes → Option Json → Run Node
sender ip from = do
  port ← property from (codes "listen_port")
  name ← copy_property 20 from (codes "name")
  ok (record { name = name; ip = ip; port = to_uint16 (int_value port) })

-- The loop of `b_get_known_nodes`, with the elements that are left and the index of the first of them.
unfoldable pub read_nodes : Json → ℕ → ℕ → Run (List Node)
read_nodes payload zero i = ok []
read_nodes payload (suc left) i = do
  value ← json_array_index payload i
  node ← deserialize_node value
  nodes ← read_nodes payload left (suc i)
  ok (node ∷ nodes)

-- Whose file it is: the node in the entry, or else the one that was asked.
unfoldable pub file_node : Node → Json → Run Node
file_node b_node file = elim (json_get_property file (codes "node")) [
  | none ↦ ok b_node
  | some node ↦ deserialize_node (some node)
]

module _ (m : Machine) where
  -- The loop of `b_add_known_files`. A file keeps the address of its node, which for `b_node` is
  -- that of a variable of the function; the model keeps the node.
  unfoldable pub add_files : Node → Json → ℕ → ℕ → Hashmap KnownFile → Run (Hashmap KnownFile)
  add_files b_node payload zero i table = ok table
  add_files b_node payload (suc left) i table = do
    value ← json_array_index payload i
    file ← access value
    node ← file_node b_node file
    filename ← property (some file) (codes "filename") >>= string_value
    table' ← add_known_file m filename node table
    add_files b_node payload left (suc i) table'

  -- The nodes of a list, without the one with the own name.
  unfoldable pub add_nodes : Bytes → List Node → Hashmap KnownNode → Run (Hashmap KnownNode)
  add_nodes node_name [] table = ok table
  add_nodes node_name (node ∷ nodes) table =
      (if str_eq node.name node_name then ok table else add_known_node m node table)
      >>= add_nodes node_name nodes

  module _ (p : Packing) (remote : Remote) where
    unfoldable pub b_get_known_nodes : ℤ → Bytes → Run (List Node)
    b_get_known_nodes sock ip = do
      request ← p.pack (codes "get_node_list") null
      answer ← remote.send_receive_sock sock ip request
      response ← access answer.0
      payload ← access (json_get_property response (codes "payload"))
      cnt ← json_array_length payload
      nodes ← read_nodes payload cnt 0
      destroyed ← json_destroy m response
      ok nodes

    -- The files of a response.
    unfoldable pub files_of :
        Bytes → Option Json → Json → Hashmap KnownFile → Run (Hashmap KnownFile)
    files_of ip from response table = do
      fits_ip ip
      name ← copy_property 20 from (codes "name")
      port ← property from (codes "listen_port")
      payload ← access (json_get_property response (codes "payload"))
      cnt ← json_array_length payload
      table' ←
          add_files (record { name = name; ip = ip; port = to_uint16 (int_value port) }) payload cnt
            0 table
      destroyed ← json_destroy m response
      ok table'

    -- The result, and the table of files.
    unfoldable pub b_add_known_files : ℤ → Bytes → Hashmap KnownFile → Run (ℤ × Hashmap KnownFile)
    b_add_known_files sock ip table = do
      request ← p.pack (codes "get_file_list") null
      answer ← remote.send_receive_sock sock ip request
      elim answer.0 [
        | none ↦ ok (negsuc 0, table)
        | some response ↦ files_of ip answer.1 response table >>= λ table'. ok (pos 0, table')
      ]

    -- The node that was greeted: its response is not looked at.
    unfoldable pub say_hello : ℤ → Bytes → Run Node
    say_hello sock ip = do
      request ← p.pack (codes "hello") null
      answer ← remote.send_receive_sock sock ip request
      sender ip answer.1

    -- After the connection: the result, and the tables.
    unfoldable pub bootstrap_on : Bytes → ℤ → Bytes → Tables → Run (ℤ × Tables)
    bootstrap_on node_name sock bootstrap_ip tables = do
      bootstrap_node ← say_hello sock bootstrap_ip
      fits_ip bootstrap_ip
      known ← add_known_node m bootstrap_node tables.known_nodes
      nodes ← b_get_known_nodes sock bootstrap_ip
      known_nodes ← add_nodes node_name nodes known
      files ← b_add_known_files sock bootstrap_ip tables.known_files
      ok (files.0, record tables { known_nodes = known_nodes; known_files = files.1 })

    unfoldable pub bootstrap_known_nodes : Bytes → Bytes → ℕ → Tables → Run (ℤ × Tables)
    bootstrap_known_nodes node_name bootstrap_ip bootstrap_port tables =
        let sock = remote.connect_plain bootstrap_ip bootstrap_port in
        let greeted = bootstrap_on node_name sock bootstrap_ip tables in
        if is_neg sock then ok (negsuc 0, tables) else greeted
