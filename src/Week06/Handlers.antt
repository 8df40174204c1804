-- ===== src/Week06/Handlers.antt =====
-- week06/src/handlers.c: the requests of other nodes. `pack` and `pack_from` are declared nowhere
-- in the repository and are parameters. What is handed to the functions that send is part of the
-- outcome.
pub mod Hello
use networks_course.Prelude.{
  ℕ, Bytes, ℤ, pos, List, [], ◌∷◌, ◌++◌, Option, none, some, Run, ok, fault, ◌>>=◌, ◌>>◌, access,
  in_bounds, length, take, codes, str_eq, leb, if◌then◌else◌,
}
use networks_course.Hash.{hashmap_entries}
use networks_course.Week06.Machine.{Machine}
use networks_course.Week06.Hashmap.{Hashmap}
use networks_course.Week06.Known.{
  Node, KnownNode, add_known_node, for_each_known_node, get_known_nodes, KnownFile, get_known_files,
}
use networks_course.Week06.Files.{MyFile, find_my_file, get_my_files}
use networks_course.Week06.Json.Value.{Json, null}
use networks_course.Week06.Json.Interface.{
  create_json_object, create_json_string, json_get_property, create_json_array, json_array_append,
  json_set_property, json_destroy,
}
use networks_course.Week06.Json.Serializer.{serialize_json}
use networks_course.Week06.Serializers.{
  string_value, int_value, to_uint16, property, copy_property, serialize_node, deserialize_node,
}

-- What is packed, and where this node can be reached.
pub record Packing : Type 0 where
  pub pack : Bytes → Json → Run Json
  pub pack_from : Run Json

-- The tables of the server.
pub record Tables : Type 0 where
  pub known_nodes : Hashmap KnownNode
  pub known_files : Hashmap KnownFile
  pub my_files : Hashmap MyFile

-- A request that is handed to `send_request_plain`.
pub record Push : Type 0 where
  pub ip : Bytes
  pub port : ℕ
  pub request : Json

-- What a handler leaves: its response, `*keep_alive`, the tables, the requests that it sent, and the
-- socket and the path of the upload that it began.
pub record Handled : Type 0 where
  pub response : Option Json
  pub keep_alive : ℤ
  pub tables : Tables
  pub sent : List Push
  pub upload : Option (ℤ × Bytes)

-- `strncpy` to an array of 20 bytes, whose last one is cleared.
abbrev pub copy_name : Bytes → Bytes
copy_name name = take 19 name

-- A handler that only answers.
abbrev pub answer : ℤ → Tables → Option Json → Handled
answer keep_alive tables response = record {
  response = response;
  keep_alive = keep_alive;
  tables = tables;
  sent = [];
  upload = none;
}

-- The array of pointers that the elements of a table are written to.
abbrev pub fits_array {ℓ} : {E : Type ℓ} → List E → Run (Unit {0})
fits_array elements = in_bounds (leb (length elements) hashmap_entries)

module _ (m : Machine) (p : Packing) where
  -- The request is destroyed after it was handed over.
  unfoldable pub push_node : KnownNode → Node → Run Push
  push_node to node = do
    payload ← serialize_node m node
    push_request ← p.pack (codes "push") payload
    destroyed ← json_destroy m push_request
    ok (record { ip = to.ip; port = to.port; request = push_request })

  -- `push_node` as the callback of a loop.
  unfoldable pub push_to : Node → KnownNode → Run (List Push) → Run (List Push)
  push_to node to sent = do pushes ← sent; push ← push_node to node; ok (pushes ++ push ∷ [])

  -- The node that says hello: its address is the one that the server has put to the request.
  unfoldable pub client_node : Option Json → Run Node
  client_node from = do
    ip ← copy_property 20 from (codes "ip")
    name ← property from (codes "name") >>= string_value
    port ← property from (codes "listen_port")
    ok (record { name = copy_name name; ip = ip; port = to_uint16 (int_value port) })

  unfoldable pub hello_handler : Option Json → Tables → Run Handled
  hello_handler from tables = do
    response ← p.pack (codes "hello_response") null
    node ← client_node from
    sent ← for_each_known_node (push_to node) tables.known_nodes (ok [])
    known_nodes ← add_known_node m node tables.known_nodes
    ok (record {
      response = some response;
      keep_alive = pos 1;
      tables = record tables { known_nodes = known_nodes };
      sent = sent;
      upload = none;
    })

  -- The loop of `get_node_list_handler`.
  unfoldable pub append_nodes : List KnownNode → Json → Run Json
  append_nodes [] node_list = ok node_list
  append_nodes (known ∷ nodes) node_list = do
    value ←
        serialize_node m (record { name = copy_name known.name; ip = known.ip; port = known.port })
    node_list' ← json_array_append m node_list value
    append_nodes nodes node_list'

  unfoldable pub get_node_list_handler : Tables → Run Handled
  get_node_list_handler tables = do
    let nodes = get_known_nodes tables.known_nodes
    fits_array nodes
    node_list ← append_nodes nodes (create_json_array m)
    response ← p.pack (codes "node_list_response") node_list
    ok (answer (pos 1) tables (some response))

  unfoldable pub ping_handler : ℤ → Tables → Run Handled
  ping_handler keep_alive tables = do
    response ← p.pack (codes "pong") null
    ok (answer keep_alive tables (some response))

  unfoldable pub push_node_handler : Option Json → ℤ → Tables → Run Handled
  push_node_handler payload keep_alive tables = do
    pushed_node ← deserialize_node payload
    known_nodes ← add_known_node m pushed_node tables.known_nodes
    ok (answer keep_alive (record tables { known_nodes = known_nodes }) none)

  -- The two loops of `get_file_list_handler`.
  unfoldable pub append_known_files : List KnownFile → Json → Run Json
  append_known_files [] response = ok response
  append_known_files (known ∷ files) response = do
    named ←
        json_set_property m create_json_object (codes "filename")
          (create_json_string known.filename)
    node ← serialize_node m known.node
    file ← json_set_property m named (codes "node") node
    response' ← json_array_append m response file
    append_known_files files response'

  unfoldable pub append_my_files : List MyFile → Json → Run Json
  append_my_files [] response = ok response
  append_my_files (my_file ∷ files) response = do
    file ←
        json_set_property m create_json_object (codes "filename")
          (create_json_string my_file.filename)
    response' ← json_array_append m response file
    append_my_files files response'

  unfoldable pub get_file_list_handler : ℤ → Tables → Run Handled
  get_file_list_handler keep_alive tables = do
    let known_files = get_known_files tables.known_files
    fits_array known_files
    let my_files = get_my_files tables.my_files
    fits_array my_files
    listed ← append_known_files known_files (create_json_array m)
    response ← append_my_files my_files listed
    packed ← p.pack (codes "file_list_response") response
    ok (answer keep_alive tables (some packed))

  -- The object that tells of a file that this node does not have.
  unfoldable pub no_such_file : Run Json
  no_such_file = do
    response ←
        json_set_property m create_json_object (codes "status") (create_json_string (codes "error"))
    json_set_property m response (codes "message") (create_json_string (codes "no such file"))

  unfoldable pub upload_file : Option Json → MyFile → Tables → Run Handled
  upload_file from my_file tables = do
    socket ← property from (codes "socket")
    ok (record {
      response = none;
      keep_alive = pos 1;
      tables = tables;
      sent = [];
      upload = some (int_value socket, my_file.path);
    })

  unfoldable pub get_file_handler : Option Json → ℤ → Option Json → Tables → Run Handled
  get_file_handler payload keep_alive from tables = do
    filename ← property payload (codes "filename") >>= string_value
    found ← find_my_file filename tables.my_files
    elim found [
      | none ↦ no_such_file >>= λ response. ok (answer keep_alive tables (some response))
      | some my_file ↦ upload_file from my_file tables
    ]

  -- `USE_DEFAULT_HANDLER` for every request. For another one `response_body` is not set, and it is
  -- used.
  unfoldable pub handle : Bytes → Option Json → ℤ → Option Json → Tables → Run Handled
  handle type payload keep_alive from tables =
      if str_eq type (codes "hello")
      then hello_handler from tables
      else if str_eq type (codes "get_node_list")
      then get_node_list_handler tables
      else if str_eq type (codes "ping")
      then ping_handler keep_alive tables
      else if str_eq type (codes "push_node")
      then push_node_handler payload keep_alive tables
      else if str_eq type (codes "get_file_list")
      then get_file_list_handler keep_alive tables
      else if str_eq type (codes "get_file")
      then get_file_handler payload keep_alive from tables
      else fault

  -- The response around the answer of a handler.
  unfoldable pub respond : Handled → Run Handled
  respond handled = elim handled.response [
    | none ↦ ok handled
    | some response_body ↦ p.pack_from >>= λ from.
        json_set_property m create_json_object (codes "from") from >>= λ signed.
        json_set_property m signed (codes "body") response_body >>= λ response.
        serialize_json m response >>= λ text. ok (record handled { response = some response })
  ]

  -- A request is printed before it is handled.
  unfoldable pub on_client_request : Option Json → ℤ → Tables → Run Handled
  on_client_request request keep_alive tables = do
    value ← access request
    let body = json_get_property value (codes "body")
    type ← property body (codes "type") >>= string_value
    text ← serialize_json m value
    payload ← access body >>= λ b. ok (json_get_property b (codes "payload"))
    handled ← handle type payload keep_alive (json_get_property value (codes "from")) tables
    respond handled
