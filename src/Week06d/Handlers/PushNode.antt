-- ===== src/Week06d/Handlers/PushNode.antt =====
-- A pushed node: what the receiver does with it.
use networks_course.Prelude.{
  ℕ, ◌+◌, ◌<◌, ◌≤◌, ◌≡◌, sym, ◌∙◌, Bytes, false, [], ◌∷◌, ◌++◌, none, some, ok, fault, ok-injective,
  length, arith, drop-append, le→leb,
}
use networks_course.Week06d.Node.{Entry, node_ip_len}
use networks_course.Week06d.Directory.{Directory, add_known_node, look_up_known_node}
use networks_course.Week06d.Wire.{node_bytes, sizeof_preamble, Self, pack_context}
use networks_course.Week06d.Wire.Laws.{IsField, read_node-node_bytes}
use networks_course.Week06d.Wire.Context.{SelfFits, extract_context-pack_context}
use networks_course.Week06d.Handlers.{
  Scratch, Reply, dispatch, magic_push_node_handler, on_client_request, magic_push_node,
  buffer_size,
}

-- The reply to a request that arrives behind a preamble is the reply of the dispatch, behind the
-- node's own preamble.
pub on_client_request-packed :
    (self client : Self) (scratch : Scratch) (junk body ip packed : Bytes) (d : Directory)
    {reply : Reply}
    → SelfFits self
    → SelfFits client
    → length ip < node_ip_len
    → pack_context client junk ≡ ok packed
    → dispatch self scratch d body (record {
      map_entry = look_up_known_node ip client.listen_port d;
      node = record { name = client.node_name; ip = ip; port = client.listen_port };
    })
      ≡ ok reply
    → sizeof_preamble + length reply.output ≤ buffer_size
    → (preamble : Bytes) × (on_client_request self scratch d (packed ++ body) ip
        ≡ ok (record reply { output = preamble ++ reply.output }))
      × (length preamble ≡ sizeof_preamble)
unfolding on_client_request
on_client_request-packed self client scratch junk body ip packed d {reply} fs fc h e run small =
    let (packed', e', size, read) = extract_context-pack_context client junk body ip d fc h in
    let (preamble, e'', size', _) =
      extract_context-pack_context self scratch.preamble_name [] ip d fs h in
    let same : packed' ≡ packed = ok-injective (sym e' ∙ e) in
    (
      preamble,
      rw (
        rw same at read,
        e'',
        drop-append sizeof_preamble packed body (rw same at size),
        run,
        le→leb (length preamble + length reply.output) buffer_size (omega arith),
      ),
      size',
    )

-- The same for a request that the dispatch does not survive.
pub on_client_request_fault :
    (self client : Self) (scratch : Scratch) (junk body ip packed : Bytes) (d : Directory)
    → SelfFits self
    → SelfFits client
    → length ip < node_ip_len
    → pack_context client junk ≡ ok packed
    → dispatch self scratch d body (record {
      map_entry = look_up_known_node ip client.listen_port d;
      node = record { name = client.node_name; ip = ip; port = client.listen_port };
    })
      ≡ fault
    → on_client_request self scratch d (packed ++ body) ip ≡ fault
unfolding on_client_request
on_client_request_fault self client scratch junk body ip packed d fs fc h e run =
    let (packed', e', size, read) = extract_context-pack_context client junk body ip d fc h in
    let (preamble, e'', size', _) =
      extract_context-pack_context self scratch.preamble_name [] ip d fs h in
    let same : packed' ≡ packed = ok-injective (sym e' ∙ e) in
    rw (rw same at read, e'', drop-append sizeof_preamble packed body (rw same at size), run)

module _ (self client : Self) (scratch : Scratch) (junk rest ip packed : Bytes) (d : Directory)
    (fs : SelfFits self) (fc : SelfFits client) (h : length ip < node_ip_len)
    (e : pack_context client junk ≡ ok packed) (name_area name ip_area node_ip : Bytes)
    (port : ℕ) where
  abbrev push_body : Bytes
  push_body = magic_push_node ∷ (node_bytes name_area ip_area port ++ rest)

  -- A push from a sender whose address and port the node does not know makes it read through a
  -- null pointer.
  pub push_node-unknown :
      look_up_known_node ip client.listen_port d ≡ none
      → on_client_request self scratch d (packed ++ push_body) ip ≡ fault
  unfolding dispatch magic_push_node_handler
  push_node-unknown u =
      on_client_request_fault self client scratch junk push_body ip packed d fs fc h e (rw u)

  -- A push from a sender that the node knows adds the pushed node to the table, if that can be
  -- added. The reply has no payload, and the connection is not kept.
  pub push_node-known :
      {pusher : Entry} {d' : Directory}
      → IsField name_area name
      → IsField ip_area node_ip
      → port < 65536
      → look_up_known_node ip client.listen_port d ≡ some pusher
      → add_known_node d (record { name = name; ip = node_ip; port = port }) ≡ ok d'
      → (preamble : Bytes) × (on_client_request self scratch d (packed ++ push_body) ip
          ≡ ok
              (record { known_nodes = d'; output = preamble ++ []; keep_alive = false; sent = [] }))
        × (length preamble ≡ sizeof_preamble)
  unfolding dispatch magic_push_node_handler
  push_node-known {pusher} {d'} f g p u a =
      on_client_request-packed self client scratch junk push_body ip packed d fs fc h e
        (rw (u, read_node-node_bytes port rest f g p, a)) (omega arith)
