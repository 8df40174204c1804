-- ===== src/Week06d/Directory/Lookup.antt =====
-- What the table of known nodes records, and what one more node does to it.
use networks_course.Prelude.{
  ℕ, suc, ◌<◌, ◌≤◌, ◌≡◌, ◌≢◌, ◌↔◌, refl, sym, ap, ◌∙◌, Bytes, ℤ, pos, negsuc, magnitude, List, [],
  ◌∷◌, Option, none, some, ok, length, get_elem?, set, arith, length-append, get_elem?-set_self,
  get_elem?-set_ne, get_elem?-IsSome, get_elem?-lt, str_eq_iff, str_eq_ne, lt→ltb,
}
use networks_course.Hash.{known_node_hash, hashmap_entries}
use networks_course.Hash.Bounds.{magnitude-known_node_hash}
use networks_course.Week06d.Node.{Node, Entry, node_name_len, node_ip_len}
use networks_course.Week06d.Directory.{Directory, advance, store, add_known_node, entries}
use networks_course.Week06d.Directory.Inv.{IsPlaced, IsValid, Added, add_known_node-Added}

abbrev bucket_of : Directory → ℤ → Option (List Entry)
bucket_of d (pos i) = get_elem? d i
bucket_of d (negsuc i) = none

abbrev first : List Entry → Option Entry
first [] = none
first (e ∷ es) = some e

abbrev found : Bytes → Option (List Entry) → Option Entry
found q none = none
found q (some chain) = first (advance q chain)

-- The entry that the table holds under a name.
pub recorded : Directory → Bytes → Option Entry
recorded d q = found q (bucket_of d (known_node_hash q))

-- The ping state of a recorded entry; a fresh entry has 0.
abbrev pub waiting : Option Entry → ℤ
waiting none = pos 0
waiting (some e) = e.waiting_pong_since

module _ (d : Directory) (n : Node) {d' : Directory} (t : Added d n d') where
  abbrev stored : List Entry
  stored = store n (advance n.name t.chain)

  bucket_self : get_elem? d' t.index ≡ some stored
  bucket_self =
      ap (λ x. get_elem? x t.index) t.written
      ∙ get_elem?-set_self d t.index stored (get_elem?-lt d t.index t.read)

  bucket_ne : (i : ℕ) → t.index ≢ i → get_elem? d' i ≡ get_elem? d i
  bucket_ne i p = ap (λ x. get_elem? x i) t.written ∙ get_elem?-set_ne d t.index i stored p

first-advance-store_ne :
    (i : ℕ) (n : Node) (c : List Entry) (q : Bytes)
    → n.name ≢ q
    → IsPlaced i c
    → first (advance q (store n (advance n.name c))) ≡ none
unfolding advance store
first-advance-store_ne i n [] q p v = rw (str_eq_ne n.name q p)
first-advance-store_ne i n (e ∷ []) q p v =
    ground (arith, str_eq_ne n.name q p, str_eq_iff e.name n.name)
first-advance-store_ne i n (e ∷ f ∷ es) q p v = absurd v

-- In a valid table, when `add_known_node` returns, no other name of the added name's bucket is
-- recorded any more, whether or not it was before.
pub recorded-add_known_node_collision :
    (d : Directory) (n : Node) (q : Bytes) {d' : Directory}
    → IsValid d
    → add_known_node d n ≡ ok d'
    → n.name ≢ q
    → known_node_hash q ≡ known_node_hash n.name
    → recorded d' q ≡ none
unfolding recorded
recorded-add_known_node_collision d n q v h p e =
    let t = add_known_node-Added d n h in
    rw (e, t.hashed, bucket_self d n t)
      (first-advance-store_ne t.index n t.chain q p (v.placed t.index t.read))

-- When `add_known_node` returns, what is recorded under the names of the other buckets is as
-- before.
pub recorded-add_known_node_other :
    (d : Directory) (n : Node) (q : Bytes) {d' : Directory}
    → IsValid d
    → add_known_node d n ≡ ok d'
    → known_node_hash q ≢ known_node_hash n.name
    → recorded d' q ≡ recorded d q
unfolding recorded
recorded-add_known_node_other d n q {d'} v h p = ap (found q) (same (known_node_hash q) p)
  where
    t : Added d n d'
    t = add_known_node-Added d n h

    same : (x : ℤ) → x ≢ known_node_hash n.name → bucket_of d' x ≡ bucket_of d x
    same (pos i) ne = bucket_ne d n t i (λ e. ne (ap pos (sym e) ∙ sym t.hashed))
    same (negsuc i) ne = refl

-- `add_known_node` returns for every node whose name hashes to an index and whose strings fit
-- their arrays, and touches memory outside its arrays for every other node.
pub add_known_node-ok_iff :
    (d : Directory) (n : Node)
    → IsValid d
    → ((d' : Directory) × (add_known_node d n ≡ ok d')) ↔ (
        ((i : ℕ) × (known_node_hash n.name ≡ pos i))
        × (length n.name < node_name_len)
        × (length n.ip < node_ip_len))
unfolding add_known_node
add_known_node-ok_iff d n v = (
  λ (d', e). let t = add_known_node-Added d n e in ((t.index, t.hashed), t.name_fits, t.ip_fits),
  λ ((i, e), p, q).
      let (c, e') = get_elem?-IsSome d i (in_range i e) in
      (set d i (store n (advance n.name c)), rw (e, e', lt→ltb _ _ p, lt→ltb _ _ q)),
)
  where
    in_range : (i : ℕ) → known_node_hash n.name ≡ pos i → i < length d
    in_range i e = omega (arith, v.width, ap magnitude e, magnitude-known_node_hash n.name)

length-entries-le :
    (d : Directory)
    → ((i : ℕ) (c : List Entry) → get_elem? d i ≡ some c → length c ≤ 1)
    → length (entries d) ≤ length d
unfolding entries
length-entries-le [] h = omega arith
length-entries-le (c ∷ cs) h =
    omega
      (arith, length-append c (entries cs), h 0 c refl, length-entries-le cs (λ i e. h (suc i) e))

-- A valid table holds at most one node for each of its 63 buckets.
pub entries-bound : {d : Directory} → IsValid d → length (entries d) ≤ hashmap_entries
entries-bound {d} v =
    omega (arith, length-entries-le d (λ i c e. short i c (v.placed i e)), v.width)
  where
    short : (i : ℕ) (c : List Entry) → IsPlaced i c → length c ≤ 1
    short i [] p = omega arith
    short i (e ∷ []) p = omega arith
    short i (e ∷ f ∷ es) p = absurd p
