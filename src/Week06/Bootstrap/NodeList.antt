-- ===== src/Week06/Bootstrap/NodeList.antt =====
-- The list of nodes that week06/src/handlers.c answers with, as week06/src/bootstrap.c reads it.
use mathlib.Core.Option.{some-injective}
use networks_course.Prelude.{
  ℕ, suc, ◌+◌, ◌^◌, ◌<◌, ◌≡◌, refl, sym, ap, subst, ◌∙◌, Bytes, ℤ, List, [], ◌∷◌, ◌++◌, map,
  append-nil, append_assoc, Option, some, ok, ok-injective, >>=-eq-ok, >>-eq-ok, length, get_elem?,
  codes, c_str, leb, arith, length-take_le,
}
use networks_course.Hash.{hashmap_entries}
use networks_course.Week06.Machine.{Machine, Distinct}
use networks_course.Week06.Known.{Node, KnownNode, get_known_nodes}
use networks_course.Week06.Json.Value.{Json, null}
use networks_course.Week06.Json.Interface.{
  json_get_property, create_json_array, json_array_append, json_destroy,
}
use networks_course.Week06.Json.Interface.Arrays.{
  Listed, create_json_array-Listed, json_array_append-Listed, json_array_index-Listed,
  json_array_length-Listed,
}
use networks_course.Week06.Serializers.{serialize_node, deserialize_node}
use networks_course.Week06.Serializers.RoundTrip.{deserialize_node-serialize_node}
use networks_course.Week06.Handlers.{
  Packing, Tables, Handled, copy_name, append_nodes, get_node_list_handler,
}
use networks_course.Week06.Bootstrap.{Remote, read_nodes, b_get_known_nodes}

-- The node that is sent of a known node.
abbrev pub node_of : KnownNode → Node
node_of known = record { name = copy_name known.name; ip = known.ip; port = known.port }

-- A known node whose strings end where they are said to end and fit their arrays.
pub record IsSendable (known : KnownNode) : Type 0 where
  pub name_text : c_str (copy_name known.name) ≡ copy_name known.name
  pub ip_text : c_str known.ip ≡ known.ip
  pub ip_fits : length known.ip < 20
  pub port_fits : known.port < 2 ^ 16

abbrev pub AllSendable : List KnownNode → Type 0
AllSendable [] = Unit {0}
AllSendable (known ∷ nodes) = IsSendable known × AllSendable nodes

-- Values that are read as nodes.
abbrev pub AreRead : List Json → List Node → Type 0
AreRead [] [] = Unit {0}
AreRead (v ∷ values) (node ∷ nodes) = (deserialize_node (some v) ≡ ok node) × AreRead values nodes
AreRead _ _ = ⊥

-- What the loop of the handler has added to an array.
record Appends (list : Json) (values : List Json) (nodes : List KnownNode) : Type 0 where
  added : List Json
  listed : Listed list (values ++ added)
  are_read : AreRead added (map node_of nodes)

module _ (m : Machine) (p : Packing) (d : Distinct m) where
  append_nodes-Appends :
      (nodes : List KnownNode) (list list' : Json) (values : List Json)
      → AllSendable nodes
      → Listed list values
      → append_nodes m p nodes list ≡ ok list'
      → Appends list' values nodes
  unfolding append_nodes
  append_nodes-Appends [] list list' values s l h = record {
    added = [];
    listed =
        subst (λ x. Listed x (values ++ [])) (ok-injective h)
          (subst (λ x. Listed list x) (sym (append-nil values)) l);
    are_read = tt;
  }
  append_nodes-Appends (known ∷ nodes) list list' values s l h =
      let (value, e, k) = >>=-eq-ok (serialize_node m (node_of known)) _ h in
      let (list1, e1, k1) = >>=-eq-ok (json_array_append m list value) _ k in
      let a =
        append_nodes-Appends nodes list1 list' (values ++ value ∷ []) s.1
          (json_array_append-Listed m list list1 value values l e1) k1 in
      record {
        added = value ∷ a.added;
        listed = subst (λ x. Listed list' x) (append_assoc values (value ∷ []) a.added) a.listed;
        are_read = (
          deserialize_node-serialize_node m d (node_of known) value s.0.name_text s.0.ip_text
              (omega (arith, length-take_le 19 known.name)) s.0.ip_fits s.0.port_fits e,
          a.are_read,
        );
      }

-- The loop of the reader, where the elements from `i` on are those values.
read_nodes-AreRead :
    (list : Json) (all values : List Json) (nodes : List Node) (i : ℕ)
    → Listed list all
    → AreRead values nodes
    → ((k n : ℕ) (v : Json) → n ≡ i + k → get_elem? values k ≡ some v → get_elem? all n ≡ some v)
    → read_nodes list (length values) i ≡ ok nodes
unfolding read_nodes
read_nodes-AreRead list all [] [] i l r at = refl
read_nodes-AreRead list all [] (node ∷ nodes) i l r at = absurd r
read_nodes-AreRead list all (v ∷ values) [] i l r at = absurd r
read_nodes-AreRead list all (v ∷ values) (node ∷ nodes) i l r at =
    rw
      (
        json_array_index-Listed list all i v l (at 0 i v (omega arith) refl),
        r.0,
        read_nodes-AreRead list all values nodes (suc i) l r.1
            (λ k n w e found. at (suc k) n w (omega (arith, e)) found),
      )
      refl

-- The nodes that a handler lists are the nodes that a node reads which starts up: all that the server
-- knows, in the order of its table, with their names cut to 19 bytes. Assumed is that the handler and
-- the requester's calls return, that the response that arrives has what was packed as its payload,
-- that the memory of a table's entry is never taken for a key, and that the nodes' strings fit.
pub b_get_known_nodes-get_node_list_handler :
    (m : Machine) (p : Packing)
    → Distinct m
    → (tables : Tables) (handled : Handled) (packed : Json) (remote : Remote) (sock : ℤ)
      (ip : Bytes) (request response : Json) (from : Option Json)
    → AllSendable (get_known_nodes tables.known_nodes)
    → get_node_list_handler m p tables ≡ ok handled
    → handled.response ≡ some packed
    → p.pack (codes "get_node_list") null ≡ ok request
    → remote.send_receive_sock sock ip request ≡ ok (some response, from)
    → ((payload : Json)
        → p.pack (codes "node_list_response") payload ≡ ok packed
        → json_get_property response (codes "payload") ≡ some payload)
    → json_destroy m response ≡ ok tt
    → b_get_known_nodes m p remote sock ip ≡ ok (map node_of (get_known_nodes tables.known_nodes))
unfolding get_node_list_handler b_get_known_nodes
b_get_known_nodes-get_node_list_handler m p d tables handled packed remote sock ip request response
      from s h hp rq sent arrives destroyed =
    let nodes = get_known_nodes tables.known_nodes in
    let (_, h1) = >>-eq-ok (leb (length nodes) hashmap_entries) _ h in
    let (node_list, e2, h2) = >>=-eq-ok (append_nodes m p nodes (create_json_array m)) _ h1 in
    let (reply, e3, h3) = >>=-eq-ok (p.pack (codes "node_list_response") node_list) _ h2 in
    let same : reply ≡ packed = some-injective _ _ (ap (λ x. x.response) (ok-injective h3) ∙ hp) in
    let a =
      append_nodes-Appends m p d nodes (create_json_array m) node_list [] s
        (create_json_array-Listed m) e2 in
    rw
      (
        rq,
        sent,
        arrives node_list (e3 ∙ ap ok same),
        json_array_length-Listed node_list a.added a.listed,
        read_nodes-AreRead node_list a.added a.added (map node_of nodes) 0 a.listed a.are_read
            (λ k n v e found. ap (get_elem? a.added) (omega (arith, e)) ∙ found),
        destroyed,
      )
      refl
