-- ===== src/Tests/Directory.antt =====
-- week06d: the table of known nodes, at nodes whose names share a bucket.
use networks_course.Prelude.{
  ℕ, ◌<◌, ◌≡◌, ◌↔◌, refl, pos, [], ◌∷◌, none, ok, fault, length, set, replicate, codes, str_eq,
  arith,
}
use networks_course.Hash.{
  char_value, hash_step, hash_from, polynomial_hash, known_node_hash, hashmap_entries,
}
use networks_course.Week06d.Node.{Node, Entry}
use networks_course.Week06d.Directory.{
  Directory, init_known_nodes_hashmap, advance, store, add_known_node, entries, for_each_known_node,
  matches, look_up_chain, look_up_known_node,
}
use networks_course.Week06d.Directory.Inv.{IsValid, init-IsValid, add_known_node-IsValid}
use networks_course.Week06d.Directory.Fits.{Fits, NodeFits, add_known_node-Fits, init-Fits}
use networks_course.Week06d.Directory.Lookup.{
  recorded, recorded-add_known_node_collision, add_known_node-ok_iff,
}

unfoldable pub program : Unit {0}
unfolding char_value hash_step hash_from polynomial_hash known_node_hash init_known_nodes_hashmap
    advance store add_known_node entries for_each_known_node matches look_up_chain
    look_up_known_node str_eq
program = tt

abbrev pub alice : Node
alice = record { name = codes "1"; ip = codes "10.0.0.1"; port = 2000 }

-- The names "1" and "p" have the same hash.
abbrev pub bob : Node
bob = record { name = codes "p"; ip = codes "10.0.0.2"; port = 3000 }

abbrev pub carol : Node
carol = record { name = codes "carol"; ip = codes "10.0.0.3"; port = 4000 }

abbrev pub entry_of : Node → Entry
entry_of n = record { name = n.name; ip = n.ip; port = n.port; waiting_pong_since = pos 0 }

abbrev pub with_alice : Directory
with_alice = set (replicate hashmap_entries []) 56 (entry_of alice ∷ [])

abbrev pub with_bob : Directory
with_bob = set (replicate hashmap_entries []) 56 (entry_of bob ∷ [])

pub alice_added : add_known_node init_known_nodes_hashmap alice ≡ ok with_alice
unfolding program
alice_added = refl

pub bob_added : add_known_node with_alice bob ≡ ok with_bob
unfolding program
bob_added = refl

pub with_alice-IsValid : IsValid with_alice
with_alice-IsValid = add_known_node-IsValid init_known_nodes_hashmap alice init-IsValid alice_added

pub alice-NodeFits : NodeFits alice
alice-NodeFits = omega arith

pub with_alice-Fits : Fits with_alice
with_alice-Fits =
    add_known_node-Fits init_known_nodes_hashmap alice init-Fits alice-NodeFits alice_added

high_byte : add_known_node init_known_nodes_hashmap (record alice { name = 128 ∷ [] }) ≡ fault
unfolding program
high_byte = refl

add_known_node-IsValid_example : IsValid with_bob
add_known_node-IsValid_example = add_known_node-IsValid with_alice bob with_alice-IsValid bob_added

recorded-add_known_node_collision_example : recorded with_bob (codes "1") ≡ none
recorded-add_known_node_collision_example =
    recorded-add_known_node_collision with_alice bob (codes "1") with_alice-IsValid bob_added
      (λ e. ground (arith, e)) (unfold program in refl)

add_known_node-ok_iff_example : ((d' : Directory) × (add_known_node with_alice bob ≡ ok d')) ↔ (
    ((i : ℕ) × (known_node_hash (codes "p") ≡ pos i))
    × (length (codes "p") < 20)
    × (length (codes "10.0.0.2") < 20))
add_known_node-ok_iff_example = add_known_node-ok_iff with_alice bob with_alice-IsValid
