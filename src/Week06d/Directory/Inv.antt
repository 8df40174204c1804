-- ===== src/Week06d/Directory/Inv.antt =====
-- The invariant of the table: 63 buckets, at most one entry in each, under its name's hash.
use networks_course.Prelude.{
  ℕ, ◌<◌, ◌≡◌, inl, inr, sym, ap, subst, ◌∙◌, ℤ, pos, negsuc, List, [], ◌∷◌, some, ok, length,
  get_elem?, set, arith, length-set, length-replicate, get_elem?-set_self, get_elem?-set_ne,
  get_elem?-lt, get_elem?-replicate_inv, Option-cases,
}
use native.Mathlib.Decide.{ℕ_discrete}
use networks_course.Hash.{known_node_hash, bucket_index, hashmap_entries}
use networks_course.Week06d.Node.{Node, Entry, node_name_len, node_ip_len}
use networks_course.Week06d.Directory.{
  Directory, init_known_nodes_hashmap, advance, store, add_known_node,
}

-- A bucket of the table: empty, or one entry whose name hashes to it.
abbrev pub IsPlaced : ℕ → List Entry → Type 0
IsPlaced i [] = Unit
IsPlaced i (e ∷ []) = known_node_hash e.name ≡ pos i
IsPlaced i (e ∷ f ∷ es) = ⊥

pub record IsValid (d : Directory) : Type 0 where
  pub width : length d ≡ hashmap_entries
  pub placed : (i : ℕ) {c : List Entry} → get_elem? d i ≡ some c → IsPlaced i c

-- The table that `init_known_nodes_hashmap` makes is valid.
pub init-IsValid : IsValid init_known_nodes_hashmap
unfolding init_known_nodes_hashmap
init-IsValid = record {
  width = length-replicate {A = List Entry} hashmap_entries [];
  placed = λ i e. subst (IsPlaced i) (sym (get_elem?-replicate_inv hashmap_entries i [] e)) tt;
}

-- What the loop and the write make of a bucket with at most one entry.
pub store-advance :
    (i : ℕ) (n : Node) (c : List Entry)
    → known_node_hash n.name ≡ pos i
    → IsPlaced i c
    → IsPlaced i (store n (advance n.name c))
unfolding store advance
store-advance i n [] h p = h
store-advance i n (e ∷ []) h p = ground arith
store-advance i n (e ∷ f ∷ es) h p = absurd p

pub bucket_index-pos : (h : ℤ) {i : ℕ} → bucket_index h ≡ some i → h ≡ pos i
bucket_index-pos (pos j) e = cc
bucket_index-pos (negsuc j) e = cc

-- What a call of `add_known_node` that returns has found and done.
pub record Added (d : Directory) (n : Node) (d' : Directory) : Type 0 where
  pub index : ℕ
  pub chain : List Entry
  pub hashed : known_node_hash n.name ≡ pos index
  pub read : get_elem? d index ≡ some chain
  pub name_fits : length n.name < node_name_len
  pub ip_fits : length n.ip < node_ip_len
  pub written : d' ≡ set d index (store n (advance n.name chain))

pub add_known_node-Added :
    (d : Directory) (n : Node) {d' : Directory} → add_known_node d n ≡ ok d' → Added d n d'
unfolding add_known_node
add_known_node-Added d n h = elim (Option-cases (bucket_index (known_node_hash n.name))) [
  | inl e ↦ absurd (ground arith)
  | inr (i, e) ↦ elim (Option-cases (get_elem? d i)) [
    | inl e' ↦ absurd (ground arith)
    | inr (c, e') ↦ record {
      index = i;
      chain = c;
      hashed = bucket_index-pos (known_node_hash n.name) e;
      read = e';
      name_fits = ground arith;
      ip_fits = ground arith;
      written = ground arith;
    }
  ]
]

-- A property of the buckets that holds before, and of the bucket that is written, holds after.
pub bucketwise :
    {d : Directory} {n : Node} {d' : Directory} (P : ℕ → List Entry → Type 0) (t : Added d n d')
    → ((i : ℕ) (c : List Entry) → get_elem? d i ≡ some c → P i c)
    → P t.index (store n (advance n.name t.chain))
    → (i : ℕ) (c : List Entry) → get_elem? d' i ≡ some c
    → P i c
bucketwise {d} {n} {d'} P t old new i c e = elim (ℕ_discrete t.index i) [
  | yes p ↦ subst (P i) (cc (kept, ap (get_elem? d') p)) (subst (λ k. P k bucket) p new)
  | no p ↦
      old i c (
        sym (get_elem?-set_ne d t.index i bucket p) ∙ (sym (ap (λ x. get_elem? x i) t.written) ∙ e))
]
  where
    bucket : List Entry
    bucket = store n (advance n.name t.chain)

    kept : get_elem? d' t.index ≡ some bucket
    kept =
        ap (λ x. get_elem? x t.index) t.written
        ∙ get_elem?-set_self d t.index bucket (get_elem?-lt d t.index t.read)

-- `add_known_node` keeps the table valid.
pub add_known_node-IsValid :
    (d : Directory) (n : Node) {d' : Directory}
    → IsValid d
    → add_known_node d n ≡ ok d'
    → IsValid d'
add_known_node-IsValid d n {d'} v h =
    let t = add_known_node-Added d n h in
    record {
      width = rw (t.written, length-set) v.width;
      placed = λ i {c} e.
          bucketwise IsPlaced t (λ j b r. v.placed j r)
            (store-advance t.index n t.chain t.hashed (v.placed t.index t.read)) i c e;
    }
