-- ===== src/Week06d/Handlers/Inv.antt =====
-- Every message keeps the table of known nodes valid, and its entries fitting.
use networks_course.Prelude.{
  ℕ, zero, suc, ◌+◌, ◌<◌, ◌≡◌, sym, ap, subst, Bytes, false, [], ◌∷◌, ◌++◌, Run, ok, access,
  ok-injective, >>=-eq-ok, >>-eq-ok, if-cases, length, get_or, take, drop, c_str, IsText, ltb, leb,
  ◌==◌, arith,
}
use networks_course.Week06d.Node.{Node, node_name_len, node_ip_len}
use networks_course.Week06d.Directory.{Directory, add_known_node, entries}
use networks_course.Week06d.Directory.Inv.{IsValid, add_known_node-IsValid}
use networks_course.Week06d.Directory.Fits.{Fits, NodeFits, add_known_node-Fits}
use networks_course.Week06d.Wire.{
  to_le, from_le, char_array, strcpy, name_field, read_node, sizeof_preamble, Self, pack_context,
  ClientContext, extract_context,
}
use networks_course.Week06d.Handlers.{
  magic_node_list, pack_nodes, Scratch, Reply, dispatch, magic_hello_handler,
  magic_get_node_list_handler, magic_ping_handler, magic_push_node_handler, on_client_request,
  magic_hello, magic_get_node_list, magic_ping, magic_push_node, payload_size, buffer_size,
}

-- The bytes of a received message.
abbrev pub IsBytes : Bytes → Type 0
IsBytes [] = Unit
IsBytes (b ∷ bs) = (b < 256) × IsBytes bs

pub c_str-IsText : (bs : Bytes) → IsText (c_str bs)
unfolding c_str
c_str-IsText [] = tt
c_str-IsText (zero ∷ bs) = tt
c_str-IsText (suc b ∷ bs) = (omega arith, c_str-IsText bs)

pub drop-IsBytes : (n : ℕ) (bs : Bytes) → IsBytes bs → IsBytes (drop n bs)
drop-IsBytes zero bs h = h
drop-IsBytes (suc n) [] h = tt
drop-IsBytes (suc n) (b ∷ bs) h = drop-IsBytes n bs h.1

pub from_le-lt : (bs : Bytes) → IsBytes bs → from_le (take 2 bs) < 65536
unfolding from_le
from_le-lt [] h = omega arith
from_le-lt (a ∷ []) h = omega arith
from_le-lt (a ∷ b ∷ bs) h = omega arith

read_node-NodeFits : (bs : Bytes) → IsBytes bs → NodeFits (read_node bs)
unfolding read_node
read_node-NodeFits bs b = record {
  name_text = c_str-IsText bs;
  ip_text = c_str-IsText (drop 20 bs);
  port = from_le-lt (drop 40 bs) (drop-IsBytes 40 bs b);
}

extract_context-ip :
    (d : Directory) (input ip : Bytes) {context : ClientContext}
    → extract_context d input ip ≡ ok context
    → context.node.ip ≡ ip
unfolding extract_context
extract_context-ip d input ip h =
    let (_, h₁) = >>-eq-ok (ltb (length ip) node_ip_len) _ h in
    let (_, h₂) =
      >>-eq-ok (ltb (length (c_str (drop 2 (take sizeof_preamble input)))) node_name_len) _ h₁ in
    sym (ap (λ (x : ClientContext). x.node.ip) (ok-injective h₂))

-- The tables that a message may leave: the one that was there, or that one with a node added whose
-- fields were read as strings and as a 16-bit number.
pub data Step (d : Directory) : Directory → Type 0 where
  same : Step d d
  added : {d' : Directory} (n : Node) → NodeFits n → add_known_node d n ≡ ok d' → Step d d'

module _ (self : Self) (scratch : Scratch) (d : Directory) (input : Bytes)
    (context : ClientContext) where
  hello-Step :
      {r : Reply}
      → IsBytes input
      → IsText context.node.ip
      → magic_hello_handler self scratch d input context ≡ ok r
      → Step d r.known_nodes
  unfolding magic_hello_handler
  hello-Step b t h =
      let (name, _, h₁) = >>=-eq-ok (strcpy (char_array scratch.reply_name) self.node_name) _ h in
      let (ip, _, h₂) = >>=-eq-ok (strcpy (char_array scratch.node_ip) context.node.ip) _ h₁ in
      let (d', e, h₃) = >>=-eq-ok (add_known_node d _) _ h₂ in
      subst (Step d) (ap (λ (x : Reply). x.known_nodes) (ok-injective h₃)) (
        added _
          (record {
            name_text = c_str-IsText (name_field (c_str (drop 1 input)));
            ip_text = t;
            port = from_le-lt (drop 21 input) (drop-IsBytes 21 input b);
          })
          e)

  node_list-Step : {r : Reply} → magic_get_node_list_handler scratch d ≡ ok r → Step d r.known_nodes
  unfolding magic_get_node_list_handler
  node_list-Step h =
      let (nodes, _, h₁) = >>=-eq-ok (pack_nodes (char_array scratch.node_ip) (entries d)) _ h in
      let (_, h₂) =
        >>-eq-ok
          (leb (length (magic_node_list ∷ (to_le 4 (length (entries d)) ++ nodes))) payload_size) _
          h₁ in
      subst (Step d) (ap (λ (x : Reply). x.known_nodes) (ok-injective h₂)) same

  push_node-Step :
      {r : Reply}
      → IsBytes input
      → magic_push_node_handler d input context ≡ ok r
      → Step d r.known_nodes
  unfolding magic_push_node_handler
  push_node-Step b h =
      let (_, _, h₁) = >>=-eq-ok (access context.map_entry) _ h in
      let (d', e, h₂) = >>=-eq-ok (add_known_node d (read_node (drop 1 input))) _ h₁ in
      subst (Step d) (ap (λ (x : Reply). x.known_nodes) (ok-injective h₂)) (
        added (read_node (drop 1 input))
          (read_node-NodeFits (drop 1 input) (drop-IsBytes 1 input b)) e)

  dispatch-Step :
      {r : Reply}
      → IsBytes input
      → IsText context.node.ip
      → dispatch self scratch d input context ≡ ok r
      → Step d r.known_nodes
  unfolding dispatch magic_ping_handler
  dispatch-Step {r} b t = if-cases (get_or input 0 0 == magic_hello) returned (hello-Step b t) (
      if-cases (get_or input 0 0 == magic_get_node_list) returned node_list-Step (
        if-cases (get_or input 0 0 == magic_ping) returned unchanged
          (if-cases (get_or input 0 0 == magic_push_node) returned (push_node-Step b) unchanged)))
    where
      returned : Run Reply → Type 0
      returned x = x ≡ ok r

      unchanged :
          {output : Bytes}
          → ok (record { known_nodes = d; output = output; keep_alive = false; sent = [] }) ≡ ok r
          → Step d r.known_nodes
      unchanged e = subst (Step d) (ap (λ (x : Reply). x.known_nodes) (ok-injective e)) same

-- What a message makes of the table: nothing, or one more node with fitting fields.
pub on_client_request-Step :
    (self : Self) (scratch : Scratch) (d : Directory) (input ip : Bytes) {r : Reply}
    → IsBytes input
    → IsText ip
    → on_client_request self scratch d input ip ≡ ok r
    → Step d r.known_nodes
unfolding on_client_request
on_client_request-Step self scratch d input ip b t h =
    let (context, e, h₁) = >>=-eq-ok (extract_context d input ip) _ h in
    let (preamble, _, h₂) = >>=-eq-ok (pack_context self scratch.preamble_name) _ h₁ in
    let (reply, e', h₃) =
      >>=-eq-ok (dispatch self scratch d (drop sizeof_preamble input) context) _ h₂ in
    let (_, h₄) = >>-eq-ok (leb (length preamble + length reply.output) buffer_size) _ h₃ in
    subst (Step d) (ap (λ (x : Reply). x.known_nodes) (ok-injective h₄)) (
      dispatch-Step self scratch d (drop sizeof_preamble input) context
        (drop-IsBytes sizeof_preamble input b)
        (subst IsText (sym (extract_context-ip d input ip e)) t) e')

-- Whatever bytes arrive from whatever address: if the node answers at all, a valid table whose
-- entries fit their arrays stays one.
pub on_client_request-IsValid :
    (self : Self) (scratch : Scratch) (d : Directory) (input ip : Bytes) {r : Reply}
    → IsBytes input
    → IsText ip
    → IsValid d
    → Fits d
    → on_client_request self scratch d input ip ≡ ok r
    → IsValid r.known_nodes × Fits r.known_nodes
on_client_request-IsValid self scratch d input ip {r} b t v f h =
    kept (on_client_request-Step self scratch d input ip b t h)
  where
    kept : {d' : Directory} → Step d d' → IsValid d' × Fits d'
    kept same = (v, f)
    kept (added n g e) = (add_known_node-IsValid d n v e, add_known_node-Fits d n f g e)
