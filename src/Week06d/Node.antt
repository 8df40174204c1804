-- ===== src/Week06d/Node.antt =====
-- The nodes of week06d: include/node.h and the entries of include/known_nodes_hashmap.h.
-- A `char` array that holds a string is the string.
use networks_course.Prelude.{ℕ, Bytes, ℤ}

-- `struct node`
pub record Node : Type 0 where
  pub name : Bytes
  pub ip : Bytes
  pub port : ℕ

-- `struct known_node_hashmap_entry`, without its link
pub record Entry : Type 0 where
  pub name : Bytes
  pub ip : Bytes
  pub port : ℕ
  pub waiting_pong_since : ℤ

abbrev pub node_name_len : ℕ
node_name_len = 20

abbrev pub node_ip_len : ℕ
node_ip_len = 20
