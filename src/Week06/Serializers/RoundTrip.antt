-- ===== src/Week06/Serializers/RoundTrip.antt =====
-- A node that week06/src/serializers.c writes is read back.
use networks_course.Prelude.{
  ℕ, ◌^◌, ◌<◌, ◌≡◌, refl, ap, ◌∙◌, Bytes, pos, some, ok, >>=-eq-ok, length, codes, c_str, arith,
  lt→ltb,
}
use networks_course.Week06.Machine.{Machine, Distinct}
use networks_course.Week06.Known.{Node}
use networks_course.Week06.Json.Value.{Json, integer}
use networks_course.Week06.Json.Interface.{
  create_json_object, create_json_string, json_get_property,
}
use networks_course.Week06.Json.Interface.Objects.{
  json_set_property-Extends, create_json_object-IsObject, json_get_property-create,
}
use networks_course.Week06.Serializers.{
  string_value, int_value, to_uint16, property, copy_property, serialize_node, deserialize_node,
}

pub property-some :
    (o : Json) (k : Bytes) {v : Json} → json_get_property o k ≡ some v → property (some o) k ≡ ok v
unfolding property
property-some o k e = rw e refl

pub copy_property-text :
    (n : ℕ) (o : Json) (k text : Bytes)
    → json_get_property o k ≡ some (create_json_string text)
    → c_str text ≡ text
    → length text < n
    → copy_property n (some o) k ≡ ok text
unfolding copy_property create_json_string string_value
copy_property-text n o k text e t h = rw (property-some o k e, t, lt→ltb (length text) n h) refl

to_uint16-pos : (n : ℕ) → n < 2 ^ 16 → to_uint16 (int_value (integer (pos n))) ≡ n
unfolding to_uint16 int_value
to_uint16-pos n h = omega arith

-- A node whose strings fit their arrays and whose port has 16 bits is read back from the object that it
-- is written to, where the memory of a table's entry is never taken for a key and the writing
-- returns.
pub deserialize_node-serialize_node :
    (m : Machine)
    → Distinct m
    → (node : Node) (value : Json) → c_str node.name ≡ node.name
    → c_str node.ip ≡ node.ip
    → length node.name < 20
    → length node.ip < 20
    → node.port < 2 ^ 16
    → serialize_node m node ≡ ok value
    → deserialize_node (some value) ≡ ok node
unfolding serialize_node deserialize_node
deserialize_node-serialize_node m d node value n i ln li p h =
    let (named, h1, k1) = >>=-eq-ok _ _ h in
    let (located, h2, h3) = >>=-eq-ok _ _ k1 in
    let a =
      json_set_property-Extends m d create_json_object (codes "name") (create_json_string node.name)
        named create_json_object-IsObject h1 (json_get_property-create (codes "name")) in
    let b =
      json_set_property-Extends m d named (codes "ip") (create_json_string node.ip) located
        a.is_object h2
        (a.others (codes "ip") (λ e. omega (arith, ap length e))
          ∙ json_get_property-create (codes "ip")) in
    let c =
      json_set_property-Extends m d located (codes "listen_port") (integer (pos node.port)) value
        b.is_object h3
        (b.others (codes "listen_port") (λ e. omega (arith, ap length e))
          ∙ a.others (codes "listen_port") (λ e. omega (arith, ap length e))
          ∙ json_get_property-create (codes "listen_port")) in
    let name : copy_property 20 (some value) (codes "name") ≡ ok node.name =
      copy_property-text 20 value (codes "name") node.name
        (c.others (codes "name") (λ e. omega (arith, ap length e))
          ∙ b.others (codes "name") (λ e. omega (arith, ap length e))
          ∙ a.self)
        n ln in
    let ip : copy_property 20 (some value) (codes "ip") ≡ ok node.ip =
      copy_property-text 20 value (codes "ip") node.ip
        (c.others (codes "ip") (λ e. omega (arith, ap length e)) ∙ b.self) i li in
    rw (name, ip, property-some value (codes "listen_port") c.self, to_uint16-pos node.port p) refl
