-- ===== src/Week06d/Directory/Fits.antt =====
-- Entries that fit the arrays of the structs, as every entry does that came over the wire.
use networks_course.Prelude.{
  ℕ, suc, ◌<◌, ◌≡◌, inl, inr, refl, sym, subst, Bytes, List, [], ◌∷◌, ◌++◌, some, ok, length,
  get_elem?, str_eq, IsText, get_elem?-replicate_inv, Bool-cases,
}
use networks_course.Week06d.Node.{Node, Entry, node_name_len, node_ip_len}
use networks_course.Hash.{hashmap_entries}
use networks_course.Week06d.Directory.{
  Directory, init_known_nodes_hashmap, advance, store, add_known_node, entries,
}
use networks_course.Week06d.Directory.Inv.{add_known_node-Added, bucketwise}

-- An entry whose strings fit their arrays and whose port is a 16-bit number.
pub record EntryFits (e : Entry) : Type 0 where
  pub name_text : IsText e.name
  pub name_short : length e.name < node_name_len
  pub ip_text : IsText e.ip
  pub ip_short : length e.ip < node_ip_len
  pub port : e.port < 65536

abbrev pub AllFit : List Entry → Type 0
AllFit [] = Unit
AllFit (e ∷ es) = EntryFits e × AllFit es

-- Every entry of the table fits.
abbrev pub Fits : Directory → Type 0
Fits d = (i : ℕ) (c : List Entry) → get_elem? d i ≡ some c → AllFit c

-- A node whose fields were read as strings and as a 16-bit number.
pub record NodeFits (n : Node) : Type 0 where
  pub name_text : IsText n.name
  pub ip_text : IsText n.ip
  pub port : n.port < 65536

AllFit-append : (xs ys : List Entry) → AllFit xs → AllFit ys → AllFit (xs ++ ys)
AllFit-append [] ys f g = g
AllFit-append (x ∷ xs) ys f g = (f.0, AllFit-append xs ys f.1 g)

pub Fits-AllFit : (d : Directory) → Fits d → AllFit (entries d)
unfolding entries
Fits-AllFit [] f = tt
Fits-AllFit (c ∷ cs) f =
    AllFit-append c (entries cs) (f 0 c refl) (Fits-AllFit cs (λ i e h. f (suc i) e h))

AllFit-advance : (name : Bytes) (c : List Entry) → AllFit c → AllFit (advance name c)
unfolding advance
AllFit-advance name [] f = tt
AllFit-advance name (e ∷ es) f = elim (Bool-cases (str_eq e.name name)) [
  | inl same ↦ rw same f
  | inr other ↦ rw other (AllFit-advance name es f.1)
]

AllFit-store :
    (n : Node) (c : List Entry)
    → NodeFits n
    → length n.name < node_name_len
    → length n.ip < node_ip_len
    → AllFit c
    → AllFit (store n c)
unfolding store
AllFit-store n [] f p q g = (
  record {
    name_text = f.name_text;
    name_short = p;
    ip_text = f.ip_text;
    ip_short = q;
    port = f.port;
  },
  tt,
)
AllFit-store n (e ∷ es) f p q g = (
  record {
    name_text = f.name_text;
    name_short = p;
    ip_text = f.ip_text;
    ip_short = q;
    port = f.port;
  },
  g.1,
)

pub init-Fits : Fits init_known_nodes_hashmap
unfolding init_known_nodes_hashmap
init-Fits i c e = subst AllFit (sym (get_elem?-replicate_inv hashmap_entries i [] e)) tt

-- `add_known_node` keeps every entry fitting when the added node's fields were read as strings
-- and as a 16-bit number: it checks nothing, but returns only if the strings were short enough.
pub add_known_node-Fits :
    (d : Directory) (n : Node) {d' : Directory}
    → Fits d
    → NodeFits n
    → add_known_node d n ≡ ok d'
    → Fits d'
add_known_node-Fits d n f g h =
    let t = add_known_node-Added d n h in
    bucketwise (λ i c. AllFit c) t f
      (AllFit-store n (advance n.name t.chain) g t.name_fits t.ip_fits
        (AllFit-advance n.name t.chain (f t.index t.chain t.read)))
