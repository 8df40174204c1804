-- ===== src/Week06d/Bootstrap/Hello.antt =====
-- The exchange of hellos through which two nodes learn of one another.
use networks_course.Prelude.{
  ◌<◌, ◌≤◌, ◌≡◌, refl, Bytes, true, [], ◌∷◌, ◌++◌, map, map-append, some, ok, length, get_or, take,
  drop, c_str, IsText, arith, length-append,
}
use networks_course.Week06d.Node.{Entry, node_ip_len}
use networks_course.Week06d.Directory.{
  Directory, add_known_node, entries, look_up_known_node, for_each_known_node,
}
use networks_course.Week06d.Wire.{
  to_le, from_le, char_array, strcpy, name_field, node_bytes, read_node, Self, pack_context,
}
use networks_course.Week06d.Wire.Laws.{
  IsField, strcpy-IsField, name_field-IsField, strncpy-IsField, field_then_port, c_str-name_field,
  length-char_array, read_node-node_bytes, length-to_le,
}
use networks_course.Week06d.Wire.Context.{SelfFits}
use networks_course.Week06d.Handlers.{
  Scratch, Reply, push_node, dispatch, magic_hello_handler, on_client_request, magic_hello,
}
use networks_course.Week06d.Handlers.PushNode.{on_client_request-packed}
use networks_course.Week06d.Bootstrap.{hello_body, receive_response, read_hello}
use networks_course.Week06d.Bootstrap.NodeList.{receive_response-append}

for_each_known_node-entries {ℓ} :
    {A : Type ℓ} (f : Entry → A) (d : Directory) → for_each_known_node f d ≡ map f (entries d)
unfolding for_each_known_node entries
for_each_known_node-entries f [] = refl
for_each_known_node-entries f (c ∷ cs) = rw (map-append, for_each_known_node-entries f cs)

-- What the client of a hello reads from the response: the server's name and port.
read_hello-response :
    (self : Self) (area rest ip : Bytes)
    → SelfFits self
    → IsField area self.node_name
    → read_hello ip (magic_hello ∷ ((area ++ to_le 2 self.listen_port) ++ rest))
      ≡ record { name = self.node_name; ip = ip; port = self.listen_port }
unfolding read_hello
read_hello-response self area rest ip f g =
    let (name, port) = field_then_port self.listen_port rest g f.port in
    rw (name, port, c_str-name_field self.node_name f.short f.text)

-- What the server of a hello reads from the request.
read_request :
    (client : Self) (rest : Bytes)
    → SelfFits client
    → (c_str (drop 1 (hello_body client ++ rest)) ≡ client.node_name)
      × (from_le (take 2 (drop 21 (hello_body client ++ rest))) ≡ client.listen_port)
unfolding hello_body
read_request client rest f =
    field_then_port client.listen_port rest (strncpy-IsField client.node_name f.short f.text) f.port

hello_body-head :
    (client : Self) (rest : Bytes) → get_or (hello_body client ++ rest) 0 0 ≡ magic_hello
unfolding hello_body
hello_body-head client rest = refl

hello-dispatch :
    (server client : Self) (scratch : Scratch) (rest client_ip area ip_area : Bytes) (d : Directory)
    {d' : Directory}
    → SelfFits client
    → strcpy (char_array scratch.reply_name) server.node_name ≡ ok area
    → strcpy (char_array scratch.node_ip) client_ip ≡ ok ip_area
    → add_known_node d
        (record { name = client.node_name; ip = client_ip; port = client.listen_port })
      ≡ ok d'
    → dispatch server scratch d (hello_body client ++ rest) (record {
      map_entry = look_up_known_node client_ip client.listen_port d;
      node = record { name = client.node_name; ip = client_ip; port = client.listen_port };
    })
      ≡ ok (record {
        known_nodes = d';
        output = magic_hello ∷ (area ++ to_le 2 server.listen_port);
        keep_alive = true;
        sent =
            for_each_known_node
              (push_node (node_bytes (name_field client.node_name) ip_area client.listen_port))
              d';
      })
unfolding dispatch magic_hello_handler
hello-dispatch server client scratch rest client_ip area ip_area d fc run run' a =
    let (name, port) = read_request client rest fc in
    rw (
      hello_body-head,
      run,
      run',
      name,
      port,
      c_str-name_field client.node_name fc.short fc.text,
      a,
    )

-- What the exchange of hellos leaves: the table and the messages of the server, and what the
-- client has read.
pub record Greeted (server client : Self) (client_ip server_ip buf : Bytes) (d' : Directory)
    (r : Reply) : Type 0 where
  pub table : r.known_nodes ≡ d'
  pub keeps : r.keep_alive ≡ true
  pub image : Bytes
  pub sent : r.sent ≡ map (push_node image) (entries d')
  pub pushed :
      (rest : Bytes)
      → read_node (image ++ rest)
        ≡ record { name = client.node_name; ip = client_ip; port = client.listen_port }
  pub client_buf : Bytes
  pub received : receive_response (some r.output) buf ≡ ok client_buf
  pub read :
      read_hello server_ip client_buf
      ≡ record { name = server.node_name; ip = server_ip; port = server.listen_port }

-- A client's hello, from an address that fits its array, to a server that can add the client to
-- its table: the server answers, its table is the one with the client added, it keeps the
-- connection, and it pushes to every node of the new table a struct in which any reader finds the
-- client. The client, in a buffer that the response fits, reads the server's name and port.
pub hello-Greeted :
    (server client : Self) (scratch : Scratch) (junk rest client_ip server_ip packed buf : Bytes)
    (d : Directory) {d' : Directory}
    → SelfFits server
    → SelfFits client
    → IsText client_ip
    → length client_ip < node_ip_len
    → pack_context client junk ≡ ok packed
    → 23 ≤ length buf
    → add_known_node d
        (record { name = client.node_name; ip = client_ip; port = client.listen_port })
      ≡ ok d'
    → (r : Reply) × (on_client_request server scratch d
          (packed ++ (hello_body client ++ rest))
          client_ip
        ≡ ok r)
      × Greeted server client client_ip server_ip buf d' r
hello-Greeted server client scratch junk rest client_ip server_ip packed buf d {d'} fs fc t h e b
      a =
    let (area, run, field) =
      strcpy-IsField (char_array scratch.reply_name) server.node_name
        (length-char_array scratch.reply_name) fs.short fs.text in
    let (ip_area, run', ip_field) =
      strcpy-IsField (char_array scratch.node_ip) client_ip (length-char_array scratch.node_ip) h
        t in
    let image = node_bytes (name_field client.node_name) ip_area client.listen_port in
    let payload = magic_hello ∷ (area ++ to_le 2 server.listen_port) in
    let size : length payload ≡ 23 = omega (
      arith,
      length-append area (to_le 2 server.listen_port),
      field.size,
      length-to_le 2 server.listen_port,
    ) in
    let reply : Reply = record {
      known_nodes = d';
      output = payload;
      keep_alive = true;
      sent = for_each_known_node (push_node image) d';
    } in
    let (preamble, answered, width) =
      on_client_request-packed server client scratch junk (hello_body client ++ rest) client_ip
        packed d {reply = reply} fs fc h e
        (hello-dispatch server client scratch rest client_ip area ip_area d fc run run' a)
        (omega arith) in
    (
      record reply { output = preamble ++ payload },
      answered,
      record {
        table = refl;
        keeps = refl;
        image = image;
        sent = for_each_known_node-entries (push_node image) d';
        pushed = λ rest'.
            read_node-node_bytes client.listen_port rest'
              (name_field-IsField client.node_name fc.short fc.text) ip_field fc.port;
        client_buf = payload ++ drop (length payload) buf;
        received = receive_response-append preamble payload buf width (omega arith);
        read = read_hello-response server area (drop (length payload) buf) server_ip fs field;
      },
    )
