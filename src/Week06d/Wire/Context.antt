-- ===== src/Week06d/Wire/Context.antt =====
-- The preamble that a node packs in front of a message tells the receiver who it is.
use networks_course.Prelude.{
  ◌<◌, ◌≡◌, sym, ap, ◌∙◌, Bytes, [], ◌++◌, append-nil, ok, length, c_str, IsText, arith,
  length-append, drop-append, take-append, lt→ltb,
}
use networks_course.Week06d.Node.{node_name_len, node_ip_len}
use networks_course.Week06d.Directory.{Directory, look_up_known_node}
use networks_course.Week06d.Wire.{
  to_le, char_array, Self, sizeof_preamble, pack_context, extract_context,
}
use networks_course.Week06d.Wire.Laws.{
  length-to_le, from_le-to_le_two, length-char_array, IsField, c_str-IsField, strcpy-IsField,
}

-- The globals of a node: a name that fits its array, and a 16-bit port.
pub record SelfFits (self : Self) : Type 0 where
  pub text : IsText self.node_name
  pub short : length self.node_name < node_name_len
  pub port : self.listen_port < 65536

pub pack_context-ok :
    (self : Self) (junk : Bytes)
    → SelfFits self
    → (area : Bytes) × (pack_context self junk ≡ ok (to_le 2 self.listen_port ++ area))
      × IsField area self.node_name
unfolding pack_context
pack_context-ok self junk f =
    let (area, run, field) =
      strcpy-IsField (char_array junk) self.node_name (length-char_array junk) f.short f.text in
    (area, rw run, field)

-- `pack_context` returns 22 bytes, whatever the stack held before, and from these bytes in front
-- of any others `extract_context` reads the sender's name and port. With them and the sender's
-- address, if that fits its array, it looks the sender up.
pub extract_context-pack_context :
    (self : Self) (junk rest ip : Bytes) (d : Directory)
    → SelfFits self
    → length ip < node_ip_len
    → (packed : Bytes) × (pack_context self junk ≡ ok packed)
      × (length packed ≡ sizeof_preamble)
      × (extract_context d (packed ++ rest) ip
          ≡ ok (record {
            map_entry = look_up_known_node ip self.listen_port d;
            node = record { name = self.node_name; ip = ip; port = self.listen_port };
          }))
unfolding extract_context
extract_context-pack_context self junk rest ip d f h =
    let (area, run, field) = pack_context-ok self junk f in
    let packed = port_bytes ++ area in
    let size : length packed ≡ 22 =
      omega (arith, length-append port_bytes area, length-to_le 2 self.listen_port, field.size) in
    let name : c_str area ≡ self.node_name =
      ap c_str (sym (append-nil area)) ∙ c_str-IsField [] field in
    (
      packed,
      run,
      size,
      rw (
        lt→ltb _ _ h,
        take-append 22 packed rest size,
        drop-append 2 port_bytes area (length-to_le 2 self.listen_port),
        take-append 2 port_bytes area (length-to_le 2 self.listen_port),
        from_le-to_le_two self.listen_port f.port,
        name,
        lt→ltb _ _ f.short,
      ),
    )
  where
    port_bytes : Bytes
    port_bytes = to_le 2 self.listen_port
