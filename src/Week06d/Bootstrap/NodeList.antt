-- ===== src/Week06d/Bootstrap/NodeList.antt =====
-- The node list that one node sends is the list that another reads.
use networks_course.Prelude.{
  ℕ, ◌+◌, ◌*◌, ◌^◌, ◌≤◌, ◌≡◌, refl, ap, ◌∙◌, Bytes, false, List, [], ◌∷◌, ◌++◌, map, append_assoc,
  some, ok, ◌>>=◌, length, drop, arith, length-append, drop-append, take-append, lt→ltb, le→leb,
}
use networks_course.Week06d.Node.{Node, Entry}
use networks_course.Week06d.Directory.{Directory, entries}
use networks_course.Week06d.Directory.Fits.{AllFit, Fits, Fits-AllFit}
use networks_course.Week06d.Directory.Inv.{IsValid}
use networks_course.Week06d.Directory.Lookup.{entries-bound}
use networks_course.Week06d.Wire.{
  to_le, char_array, name_field, node_bytes, sizeof_node, sizeof_preamble,
}
use networks_course.Week06d.Wire.Laws.{
  strcpy-IsField, name_field-IsField, length-char_array, read_node-node_bytes, length-node_bytes,
  length-to_le, from_le-to_le_four,
}
use networks_course.Week06d.Bootstrap.{read_nodes, receive_response, get_known_nodes}
use networks_course.Week06d.Handlers.{
  Scratch, Reply, pack_nodes, magic_get_node_list_handler, magic_node_list, buffer_size,
  payload_size,
}

pub node_of : Entry → Node
node_of e = record { name = e.name; ip = e.ip; port = e.port }

-- What the loop of the handler packs.
pub record Packed (es : List Entry) (bytes : Bytes) : Type 0 where
  pub size : length bytes ≡ length es * sizeof_node
  pub reads : (rest : Bytes) → read_nodes (length es) (bytes ++ rest) ≡ map node_of es

pub pack_nodes-Packed :
    (area : Bytes) (es : List Entry)
    → length area ≡ 20
    → AllFit es
    → (bytes : Bytes) × (pack_nodes area es ≡ ok bytes) × Packed es bytes
unfolding pack_nodes read_nodes node_of
pack_nodes-Packed area [] h f = ([], refl, record { size = refl; reads = λ rest. refl })
pack_nodes-Packed area (e ∷ es) h (f, fs) =
    let (ip, run, ip_field) = strcpy-IsField area e.ip h f.ip_short f.ip_text in
    let name = name_field-IsField e.name f.name_short f.name_text in
    let (bytes, run', p) = pack_nodes-Packed ip es ip_field.size fs in
    let node = node_bytes (name_field e.name) ip e.port in
    let size = length-node_bytes e.port name ip_field in
    (
      node ++ bytes,
      rw (run, run'),
      record {
        size = omega (arith, length-append node bytes, size, p.size);
        reads = λ rest. rw (
          append_assoc,
          read_node-node_bytes e.port (bytes ++ rest) name ip_field f.port,
          drop-append sizeof_node node (bytes ++ rest) size,
          p.reads rest,
        );
      },
    )

-- A response that is long enough lands in the buffer without its preamble.
pub receive_response-append :
    (preamble payload buf : Bytes)
    → length preamble ≡ sizeof_preamble
    → length payload ≤ length buf
    → receive_response (some (preamble ++ payload)) buf ≡ ok (payload ++ drop (length payload) buf)
unfolding receive_response
receive_response-append preamble payload buf h h' = rw (
  le→leb sizeof_preamble (length (preamble ++ payload))
      (omega (arith, length-append preamble payload)),
  drop-append sizeof_preamble preamble payload h,
  le→leb _ _ h',
)

get_known_nodes-list :
    (cnt : ℕ) (nodes : Bytes)
    → cnt ≤ 487
    → get_known_nodes (magic_node_list ∷ (to_le 4 cnt ++ nodes)) ≡ ok (read_nodes cnt nodes)
unfolding get_known_nodes
get_known_nodes-list cnt nodes h = rw (
  take-append 4 (to_le 4 cnt) nodes (length-to_le 4 cnt),
  from_le-to_le_four cnt (omega arith),
  lt→ltb cnt (2 ^ 31) (omega arith),
  le→leb (5 + cnt * 42) buffer_size (omega arith),
  drop-append 4 (to_le 4 cnt) nodes (length-to_le 4 cnt),
)

-- For a valid table whose entries fit their arrays, the handler of a node list request returns a
-- reply. A node that receives it behind a preamble, in a buffer of 20480 bytes whatever that held,
-- reads the nodes of the table in their order.
pub get_known_nodes-get_node_list :
    (scratch : Scratch) (d : Directory) (preamble buf : Bytes)
    → IsValid d
    → Fits d
    → length preamble ≡ sizeof_preamble
    → length buf ≡ buffer_size
    → (reply : Reply) × (magic_get_node_list_handler scratch d ≡ ok reply)
      × (receive_response (some (preamble ++ reply.output)) buf >>= get_known_nodes
          ≡ ok (map node_of (entries d)))
unfolding magic_get_node_list_handler
get_known_nodes-get_node_list scratch d preamble buf v f hp hb =
    let (bytes, run, p) =
      pack_nodes-Packed (char_array scratch.node_ip) (entries d) (length-char_array scratch.node_ip)
        (Fits-AllFit d f) in
    let cnt = length (entries d) in
    let few = entries-bound v in
    let output = magic_node_list ∷ (to_le 4 cnt ++ bytes) in
    let size : length output ≡ 5 + cnt * 42 =
      omega (arith, length-append (to_le 4 cnt) bytes, length-to_le 4 cnt, p.size) in
    (
      record { known_nodes = d; output = output; keep_alive = false; sent = [] },
      rw (run, le→leb (length output) payload_size (omega arith)),
      rw (receive_response-append preamble output buf hp (omega arith), append_assoc)
          (get_known_nodes-list cnt (bytes ++ drop (length output) buf) (omega arith)
            ∙ ap ok (p.reads (drop (length output) buf))),
    )
