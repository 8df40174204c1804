-- ===== src/Week06d/Directory.antt =====
-- week06d/src/known_nodes_hashmap.c: the table of known nodes, an array of 63 linked lists.
pub mod Inv
pub mod Lookup
pub mod Fits
use networks_course.Prelude.{
  ℕ, Bytes, pos, Bool, ◌&&◌, List, [], ◌∷◌, ◌++◌, map, Option, none, some, Run, ok, ◌>>=◌, ◌>>◌,
  access, in_bounds, length, get_elem?, set, replicate, str_eq, ltb, ◌==◌, if◌then◌else◌,
}
use networks_course.Hash.{known_node_hash, bucket_index, hashmap_entries}
use networks_course.Week06d.Node.{Node, Entry, node_name_len, node_ip_len}

abbrev pub Directory : Type 0
Directory = List (List Entry)

unfoldable pub init_known_nodes_hashmap : Directory
init_known_nodes_hashmap = replicate hashmap_entries []

-- The loop of `add_known_node`. It moves the head of the bucket itself, `*pos = (*pos)->next`, so
-- what it passes is no longer in the bucket: the result is the bucket when the loop stops.
unfoldable pub advance : Bytes → List Entry → List Entry
advance name [] = []
advance name (e ∷ es) = if str_eq e.name name then e ∷ es else advance name es

-- The write that follows: `calloc` makes an entry with zero fields where the list has ended.
unfoldable pub store : Node → List Entry → List Entry
store node [] =
    record { name = node.name; ip = node.ip; port = node.port; waiting_pong_since = pos 0 } ∷ []
store node (e ∷ es) = record e { name = node.name; ip = node.ip; port = node.port } ∷ es

-- `strcpy` into an array of `char` needs room for the terminator.
unfoldable pub add_known_node : Directory → Node → Run Directory
unfolding advance store
add_known_node known_nodes node = do
  i ← access (bucket_index (known_node_hash node.name))
  chain ← access (get_elem? known_nodes i)
  in_bounds (ltb (length node.name) node_name_len)
  in_bounds (ltb (length node.ip) node_ip_len)
  ok (set known_nodes i (store node (advance node.name chain)))

-- The entries in the order in which `for_each_known_node` hands them to its callback.
unfoldable pub entries : Directory → List Entry
entries [] = []
entries (chain ∷ chains) = chain ++ entries chains

-- `for_each_known_node` with a callback that appends its effect to a log.
unfoldable pub for_each_known_node {ℓ} : {A : Type ℓ} → (Entry → A) → Directory → List A
for_each_known_node callback [] = []
for_each_known_node callback (chain ∷ chains) =
    map callback chain ++ for_each_known_node callback chains

unfoldable pub matches : Bytes → ℕ → Entry → Bool
matches ip port current = str_eq current.ip ip && port == current.port

unfoldable pub look_up_chain : Bytes → ℕ → List Entry → Option Entry
unfolding matches
look_up_chain ip port [] = none
look_up_chain ip port (current ∷ next) =
    if matches ip port current then some current else look_up_chain ip port next

-- The first match of a bucket ends the search.
unfoldable pub look_up_known_node : Bytes → ℕ → Directory → Option Entry
unfolding look_up_chain
look_up_known_node ip port [] = none
look_up_known_node ip port (chain ∷ chains) = elim (look_up_chain ip port chain) [
  | some entry ↦ some entry
  | none ↦ look_up_known_node ip port chains
]
