-- ===== src/Week06/Known.antt =====
-- week06/src/known_nodes.c and known_files.c: what the node knows, in tables by name.
pub mod LookUp
use networks_course.Prelude.{
  ℕ, Bytes, ℤ, pos, Bool, ◌&&◌, List, [], Option, Run, ok, ◌>>=◌, ◌>>◌, in_bounds, length, str_eq,
  ltb, ◌==◌,
}
use networks_course.Hash.{polynomial_hash, hashmap_entries}
use networks_course.Week06.Machine.{Machine}
use networks_course.Week06.Hashmap.{
  Hashmap, hashmap_create, hashmap_get_entries, hashmap_for_each_element, hashmap_look_up_element,
  hashmap_add_element,
}

-- `struct node` and `struct known_node`
pub record Node : Type 0 where
  pub name : Bytes
  pub ip : Bytes
  pub port : ℕ

pub record KnownNode : Type 0 where
  pub name : Bytes
  pub ip : Bytes
  pub port : ℕ
  pub waiting_pong_since : ℤ

abbrev pub node_name_len : ℕ
node_name_len = 20

abbrev pub node_ip_len : ℕ
node_ip_len = 20

abbrev pub known_filename_len : ℕ
known_filename_len = 100

unfoldable pub known_nodes_hash_fn : KnownNode → ℤ
known_nodes_hash_fn el = polynomial_hash el.name 257 hashmap_entries

-- Whether `ip_and_port_known_node_compare_fn` answers 0.
unfoldable pub ip_and_port_known_node_compare_fn : KnownNode → KnownNode → Bool
ip_and_port_known_node_compare_fn a b = str_eq a.ip b.ip && a.port == b.port

unfoldable pub init_known_nodes_hashmap : Hashmap KnownNode
init_known_nodes_hashmap = hashmap_create hashmap_entries

-- The node that is recorded.
unfoldable pub known_node : Node → KnownNode
known_node node = record {
  name = node.name;
  ip = node.ip;
  port = node.port;
  waiting_pong_since = pos 0;
}

unfoldable pub add_known_node : Machine → Node → Hashmap KnownNode → Run (Hashmap KnownNode)
add_known_node m node table = do
  in_bounds (ltb (length node.name) node_name_len)
  in_bounds (ltb (length node.ip) node_name_len)
  hashmap_add_element known_nodes_hash_fn (λ stored el. m.entry_reads_as stored.name el.name)
      (known_node node) table

unfoldable pub for_each_known_node {ℓ} :
    {S : Type ℓ} → (KnownNode → S → S) → Hashmap KnownNode → S → S
for_each_known_node callback table s = hashmap_for_each_element callback table s

unfoldable pub look_up_known_node : Bytes → ℕ → Hashmap KnownNode → Run (Option KnownNode)
look_up_known_node ip port table = do
  in_bounds (ltb (length ip) node_ip_len)
  ok (
      hashmap_look_up_element ip_and_port_known_node_compare_fn
        (record { name = []; ip = ip; port = port; waiting_pong_since = pos 0 }) table)

unfoldable pub get_known_nodes : Hashmap KnownNode → List KnownNode
get_known_nodes table = hashmap_get_entries table

pub record KnownFile : Type 0 where
  pub filename : Bytes
  pub node : Node

unfoldable pub known_file_hash_fn : KnownFile → ℤ
known_file_hash_fn element = polynomial_hash element.filename 257 hashmap_entries

unfoldable pub known_file_compare_fn : KnownFile → KnownFile → Bool
known_file_compare_fn a b = str_eq a.filename b.filename

unfoldable pub init_known_files_hashmap : Hashmap KnownFile
init_known_files_hashmap = hashmap_create hashmap_entries

unfoldable pub add_known_file : Machine → Bytes → Node → Hashmap KnownFile → Run (Hashmap KnownFile)
add_known_file m filename node table = do
  in_bounds (ltb (length filename) known_filename_len)
  hashmap_add_element known_file_hash_fn (λ stored el. m.entry_reads_as stored.filename el.filename)
      (record { filename = filename; node = node }) table

unfoldable pub get_known_files : Hashmap KnownFile → List KnownFile
get_known_files table = hashmap_get_entries table

-- The node of the element that is looked for is not set, nor looked at.
unfoldable pub find_known_file : Node → Bytes → Hashmap KnownFile → Run (Option KnownFile)
find_known_file unset filename table = do
  in_bounds (ltb (length filename) known_filename_len)
  ok (
      hashmap_look_up_element known_file_compare_fn (record { filename = filename; node = unset })
        table)
