-- ===== src/Week06/Handlers/Hello.antt =====
-- What `hello_handler` of week06/src/handlers.c does to the other nodes.
use mathlib.Core.Option
use networks_course.Prelude.{
  ℕ, ◌≡◌, sym, ap, ◌∙◌, Bytes, pos, List, [], ◌∷◌, ◌++◌, map, map-append, append-nil, append_assoc,
  Option, none, some, Run, ok, ok-injective, >>=-eq-ok, codes,
}
use networks_course.Week06.Machine.{Machine, Distinct}
use networks_course.Week06.Hashmap.{
  Hashmap, hashmap_get_entries, for_each_in_chain, hashmap_for_each_element,
}
use networks_course.Week06.Known.{
  Node, KnownNode, known_node, add_known_node, for_each_known_node, look_up_known_node,
  get_known_nodes,
}
use networks_course.Week06.Known.LookUp.{look_up_known_node-add_known_node}
use networks_course.Week06.Json.Value.{Json, null}
use networks_course.Week06.Json.Interface.{json_destroy}
use networks_course.Week06.Serializers.{serialize_node}
use networks_course.Week06.Handlers.{
  Packing, Tables, Push, Handled, push_node, push_to, client_node, hello_handler,
}

-- Where the nodes are reached, and where the requests are sent.
abbrev pub addresses : List KnownNode → List (Bytes × ℕ)
addresses = map (λ known. (known.ip, known.port))

abbrev pub receivers : List Push → List (Bytes × ℕ)
receivers = map (λ push. (push.ip, push.port))

-- The requests that a loop sends, after those that were sent before.
record Pushed (start : Run (List Push)) (nodes : List KnownNode) (sent : List Push) : Type 0 where
  before : List Push
  start-eq : start ≡ ok before
  receivers-eq : receivers sent ≡ receivers before ++ addresses nodes

module _ (m : Machine) (p : Packing) (node : Node) where
  push_node_goes_to :
      (to : KnownNode) (push : Push)
      → push_node m p to node ≡ ok push
      → ◌≡◌ {A = Bytes × ℕ} (push.ip, push.port) (to.ip, to.port)
  unfolding push_node
  push_node_goes_to to push h =
      let (payload, _, k1) = >>=-eq-ok (serialize_node m node) _ h in
      let (request, _, k2) = >>=-eq-ok (p.pack (codes "push") payload) _ k1 in
      let (_, _, k3) = >>=-eq-ok (json_destroy m request) _ k2 in
      ap (λ x. (x.ip, x.port)) (sym (ok-injective k3))

  push_to-Pushed :
      (to : KnownNode) (start : Run (List Push)) (sent : List Push)
      → push_to m p node to start ≡ ok sent
      → Pushed start (to ∷ []) sent
  unfolding push_to
  push_to-Pushed to start sent h =
      let (before, e, k) = >>=-eq-ok _ _ h in
      let (push, e', k') = >>=-eq-ok _ _ k in
      record {
        before = before;
        start-eq = e;
        receivers-eq =
            ap receivers (sym (ok-injective k'))
            ∙ map-append _ before (push ∷ [])
            ∙ ap (λ x. receivers before ++ x ∷ []) (push_node_goes_to to push e');
      }

  push_chain-Pushed :
      (chain : List KnownNode) (start : Run (List Push)) (sent : List Push)
      → for_each_in_chain (push_to m p node) chain start ≡ ok sent
      → Pushed start chain sent
  unfolding for_each_in_chain
  push_chain-Pushed [] start sent h = record {
    before = sent;
    start-eq = h;
    receivers-eq = sym (append-nil _);
  }
  push_chain-Pushed (to ∷ chain) start sent h =
      let a = push_chain-Pushed chain (push_to m p node to start) sent h in
      let b = push_to-Pushed to start a.before a.start-eq in
      record {
        before = b.before;
        start-eq = b.start-eq;
        receivers-eq =
            a.receivers-eq
            ∙ ap (λ x. x ++ addresses chain) b.receivers-eq
            ∙ append_assoc (receivers b.before) _ _;
      }

  push_all-Pushed :
      (table : Hashmap KnownNode) (start : Run (List Push)) (sent : List Push)
      → hashmap_for_each_element (push_to m p node) table start ≡ ok sent
      → Pushed start (hashmap_get_entries table) sent
  unfolding hashmap_for_each_element hashmap_get_entries
  push_all-Pushed [] start sent h = record {
    before = sent;
    start-eq = h;
    receivers-eq = sym (append-nil _);
  }
  push_all-Pushed (chain ∷ table) start sent h =
      let a = push_all-Pushed table (for_each_in_chain (push_to m p node) chain start) sent h in
      let b = push_chain-Pushed chain start a.before a.start-eq in
      record {
        before = b.before;
        start-eq = b.start-eq;
        receivers-eq =
            a.receivers-eq
            ∙ ap (λ x. x ++ addresses (hashmap_get_entries table)) b.receivers-eq
            ∙ append_assoc (receivers b.before) _ _
            ∙ ap (λ x. receivers b.before ++ x)
                (sym (map-append _ chain (hashmap_get_entries table)));
      }

-- A node that says hello and whose address was not known is found by it afterwards, and every node
-- that was known before is sent exactly one request, in the order of the table; the answer is packed
-- as `hello_response` and the connection is kept. Assumed is that the handler returns and that the
-- memory of a table's entry is never taken for a name.
pub hello_handler-pushes :
    (m : Machine) (p : Packing)
    → Distinct m
    → (from : Option Json) (tables : Tables) (handled : Handled) (node : Node)
    → hello_handler m p from tables ≡ ok handled
    → client_node m p from ≡ ok node
    → look_up_known_node node.ip node.port tables.known_nodes ≡ ok none
    → (look_up_known_node node.ip node.port handled.tables.known_nodes
        ≡ ok (some (known_node node)))
      × (receivers handled.sent ≡ addresses (get_known_nodes tables.known_nodes))
      × (Option.map ok handled.response ≡ some (p.pack (codes "hello_response") null))
      × (handled.keep_alive ≡ pos 1)
unfolding hello_handler for_each_known_node get_known_nodes
hello_handler-pushes m p d from tables handled node h c n =
    let (response, e1, k1) = >>=-eq-ok _ _ h in
    let (node', e2, k2) = >>=-eq-ok _ _ k1 in
    let (sent, e3, k3) = >>=-eq-ok _ _ k2 in
    let (known, e4, k4) = >>=-eq-ok _ _ k3 in
    let same : node' ≡ node = ok-injective (sym e2 ∙ c) in
    let a = push_all-Pushed m p node' tables.known_nodes (ok []) sent e3 in
    let e = ok-injective k4 in
    (
      ap (λ x. look_up_known_node node.ip node.port x.tables.known_nodes) (sym e)
          ∙ look_up_known_node-add_known_node m d node tables.known_nodes known
              (ap (λ x. add_known_node m x tables.known_nodes) (sym same) ∙ e4) n,
      ap (λ x. receivers x.sent) (sym e)
          ∙ a.receivers-eq
          ∙ ap (λ x. receivers x ++ addresses (get_known_nodes tables.known_nodes))
              (sym (ok-injective a.start-eq)),
      ap (λ x. Option.map ok x.response) (sym e) ∙ ap some (sym e1),
      ap (λ x. x.keep_alive) (sym e),
    )
