-- ===== src/Week06d/Wire.antt =====
-- What week06d puts on the wire: the structs of include/node.h and include/client_context.h as
-- their bytes on a little-endian machine, src/client_context.c, and the string functions of C.
pub mod Laws
pub mod Context
use networks_course.Prelude.{
  ℕ, zero, suc, ◌+◌, ◌-◌, ◌*◌, ◌/◌, ◌%◌, Bytes, [], ◌∷◌, ◌++◌, Option, Run, ok, ◌>>=◌, ◌>>◌,
  in_bounds, length, set, take, drop, replicate, c_str, ltb,
}
use networks_course.Week06d.Node.{Node, Entry, node_name_len, node_ip_len}
use networks_course.Week06d.Directory.{Directory, look_up_known_node}

-- `unsigned short` (2 bytes) and `int` (4 bytes)
unfoldable pub to_le : ℕ → ℕ → Bytes
to_le zero n = []
to_le (suc k) n = (n % 256) ∷ to_le k (n / 256)

unfoldable pub from_le : Bytes → ℕ
from_le [] = 0
from_le (b ∷ bs) = b + 256 * from_le bs

-- A `char[20]` on the stack holds whatever was there: `junk`, in 20 bytes.
unfoldable pub char_array : Bytes → Bytes
char_array junk = take 20 (junk ++ replicate 20 0)

-- `strcpy(dest, s)`
unfoldable pub strcpy : Bytes → Bytes → Run Bytes
strcpy dest s = do in_bounds (ltb (length s) (length dest)); ok (s ++ 0 ∷ drop (length s + 1) dest)

-- What `strncpy(dest, s, n)` puts in the n bytes of dest.
unfoldable pub strncpy : Bytes → ℕ → Bytes
strncpy s n = take n s ++ replicate (n - length s) 0

-- `strncpy(name, s, NODE_NAME_LEN); name[NODE_NAME_LEN - 1] = 0;`
unfoldable pub name_field : Bytes → Bytes
unfolding strncpy
name_field s = set (strncpy s node_name_len) (node_name_len - 1) 0

-- `struct node`: 20 bytes of name, 20 of ip, 2 of port
abbrev pub sizeof_node : ℕ
sizeof_node = 42

unfoldable pub node_bytes : Bytes → Bytes → ℕ → Bytes
unfolding to_le
node_bytes name ip port = name ++ (ip ++ to_le 2 port)

-- The strings and the port of a `struct node`. A string that has no terminator in its array reads
-- on into the next field.
unfoldable pub read_node : Bytes → Node
unfolding c_str from_le
read_node bs = record {
  name = c_str bs;
  ip = c_str (drop 20 bs);
  port = from_le (take 2 (drop 40 bs));
}

-- The globals `node_name` and `listen_port`.
pub record Self : Type 0 where
  pub node_name : Bytes
  pub listen_port : ℕ

-- `struct preamble`: 2 bytes of port, 20 of name
abbrev pub sizeof_preamble : ℕ
sizeof_preamble = 22

unfoldable pub pack_context : Self → Bytes → Run Bytes
pack_context self junk = do
  name ← strcpy (char_array junk) self.node_name
  ok (to_le 2 self.listen_port ++ name)

-- `struct client_context`
pub record ClientContext : Type 0 where
  pub map_entry : Option Entry
  pub node : Node

-- The input is the whole receive buffer.
unfoldable pub extract_context : Directory → Bytes → Bytes → Run ClientContext
extract_context known_nodes input ip = do
  in_bounds (ltb (length ip) node_ip_len)
  let preamble = take sizeof_preamble input
  let name = c_str (drop 2 preamble)
  let port = from_le (take 2 preamble)
  in_bounds (ltb (length name) node_name_len)
  ok (record {
    map_entry = look_up_known_node ip port known_nodes;
    node = record { name = name; ip = ip; port = port };
  })
