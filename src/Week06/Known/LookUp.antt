-- ===== src/Week06/Known/LookUp.antt =====
-- Nodes and files that were added to the tables of week06/src/known_nodes.c and known_files.c are
-- found.
use networks_course.Prelude.{
  ◌≡◌, refl, ap, Bytes, none, some, ok, ok-injective, >>-eq-ok, length, ltb, str_eq_refl, ==_refl,
}
use networks_course.Week06.Machine.{Machine, Distinct}
use networks_course.Week06.Hashmap.{Hashmap}
use networks_course.Week06.Hashmap.Keys.{hashmap_add_element-Added, look_up-set_new}
use networks_course.Week06.Known.{
  Node, KnownNode, node_name_len, node_ip_len, known_filename_len, known_nodes_hash_fn,
  ip_and_port_known_node_compare_fn, known_node, add_known_node, look_up_known_node, KnownFile,
  known_file_hash_fn, known_file_compare_fn, add_known_file, find_known_file,
}

-- A node whose address was not known is found by its address after it was added, whatever nodes are
-- known. Assumed is that adding returns, as it does not for a name or an address that does not fit,
-- and that the memory of a table's entry is never taken for a name.
pub look_up_known_node-add_known_node :
    (m : Machine)
    → Distinct m
    → (node : Node) (table table' : Hashmap KnownNode) → add_known_node m node table ≡ ok table'
    → look_up_known_node node.ip node.port table ≡ ok none
    → look_up_known_node node.ip node.port table' ≡ ok (some (known_node node))
unfolding add_known_node look_up_known_node known_node ip_and_port_known_node_compare_fn
look_up_known_node-add_known_node m d node table table' h n =
    let (room, n') = >>-eq-ok (ltb (length node.ip) node_ip_len) _ n in
    let (_, h1) = >>-eq-ok (ltb (length node.name) node_name_len) _ h in
    let (_, h2) = >>-eq-ok (ltb (length node.ip) node_ip_len) _ h1 in
    let a =
      hashmap_add_element-Added known_nodes_hash_fn _ (known_node node) table table'
        (λ x y. d.no_key x.name y.name) h2 in
    rw (room, a.table'-eq)
      (ap ok (
        look_up-set_new ip_and_port_known_node_compare_fn _ (known_node node) table a.index a.chain
          a.found (rw (str_eq_refl node.ip, ==_refl node.port) refl) (ok-injective n')))

-- The same of a file and its name.
find_known_file-add_known_file :
    (m : Machine)
    → Distinct m
    → (unset node : Node) (filename : Bytes) (table table' : Hashmap KnownFile)
    → add_known_file m filename node table ≡ ok table'
    → find_known_file unset filename table ≡ ok none
    → find_known_file unset filename table'
      ≡ ok (some (record { filename = filename; node = node }))
unfolding add_known_file find_known_file known_file_compare_fn
find_known_file-add_known_file m d unset node filename table table' h n =
    let (room, n') = >>-eq-ok (ltb (length filename) known_filename_len) _ n in
    let (_, h') = >>-eq-ok (ltb (length filename) known_filename_len) _ h in
    let a =
      hashmap_add_element-Added known_file_hash_fn _ (record { filename = filename; node = node })
        table table' (λ x y. d.no_key x.filename y.filename) h' in
    rw (room, a.table'-eq)
      (ap ok (
        look_up-set_new known_file_compare_fn _ (record { filename = filename; node = node }) table
          a.index a.chain a.found (str_eq_refl filename) (ok-injective n')))
