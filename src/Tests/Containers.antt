-- ===== src/Tests/Containers.antt =====
-- week06: the vector, the table and the reference counts.
use networks_course.Prelude.{
  ℕ, ◌%◌, ◌≡◌, refl, ℤ, pos, Bool, false, [], ◌∷◌, none, some, ok, fault, read, set, replicate,
  codes, arith,
}
use networks_course.Hash.{char_value, hash_step, hash_from, polynomial_hash}
use networks_course.Week06.Machine.{Machine, Distinct}
use networks_course.Week06.Known.{
  Node, KnownNode, known_nodes_hash_fn, known_node, add_known_node, look_up_known_node,
}
use networks_course.Week06.Known.LookUp.{look_up_known_node-add_known_node}
use networks_course.Week06.Vector.{Vector, vector_append}
use networks_course.Week06.Vector.Append.{vector_append-full}
use networks_course.Week06.Hashmap.{
  Hashmap, look_up_chain, hashmap_look_up_element, add_to_chain, hashmap_add_element,
}

-- An allocator that gives exactly the bytes asked for.
abbrev exact : ℕ → ℕ
exact n = n

abbrev two : Vector ℕ
two = record { slots = some 7 ∷ some 8 ∷ none ∷ []; length = 2; capacity = 3 }

abbrev three : Vector ℕ
three = record { slots = some 7 ∷ some 8 ∷ some 9 ∷ []; length = 3; capacity = 3 }

vector_append-full_example : vector_append exact three 10 ≡ fault
vector_append-full_example = vector_append-full exact three 10 refl (omega arith)

abbrev hash_of : ℕ → ℤ
hash_of n = pos (n % 2)

abbrev unequal : ℕ → ℕ → Bool
unequal a b = false

abbrev machine : Machine
machine = record { usable = λ n. n; entry_reads_as = λ stored key. false }

machine-Distinct : Distinct machine
machine-Distinct = record { no_key = λ stored key. refl }

abbrev ann : Node
ann = record { name = codes "ab"; ip = codes "10.0.0.1"; port = 8000 }

-- The hash of "ab" is 17.
abbrev nodes : Hashmap KnownNode
nodes = set (replicate 63 []) 17 (known_node ann ∷ [])

known_program : Unit {0}
unfolding add_known_node look_up_known_node hashmap_add_element add_to_chain known_nodes_hash_fn
    known_node polynomial_hash hash_from hash_step char_value read hashmap_look_up_element
    look_up_chain
known_program = tt

node_added : add_known_node machine ann (replicate 63 []) ≡ ok nodes
unfolding known_program
node_added = refl

node_absent : look_up_known_node (codes "10.0.0.1") 8000 (replicate 63 []) ≡ ok none
unfolding known_program
node_absent = refl

look_up_known_node-add_known_node_example :
    look_up_known_node (codes "10.0.0.1") 8000 nodes ≡ ok (some (known_node ann))
look_up_known_node-add_known_node_example =
    look_up_known_node-add_known_node machine machine-Distinct ann (replicate 63 []) nodes
      node_added node_absent
