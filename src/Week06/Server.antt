-- ===== src/Week06/Server.antt =====
-- week06/src/server.c: what is received from a node, and what is sent back.
use mathlib.Core.Option
use networks_course.Week06.Files.{buffer_size}
use networks_course.Prelude.{
  Bytes, ℤ, pos, negsuc, int_eq, Option, none, some, Run, ok, fault, ◌>>=◌, access, take, codes,
  str_eq, if◌then◌else◌,
}
use networks_course.Week06.Machine.{Machine}
use networks_course.Week06.Json.Value.{
  Json, Chain, Table, integer, object, chain_end, entry, no_buckets, bucket,
}
use networks_course.Week06.Json.Interface.{
  create_json_string, json_get_property, json_set_property, json_destroy,
}
use networks_course.Week06.Json.Parser.{deserialize_json}
use networks_course.Week06.Json.Serializer.{serialize_json}
use networks_course.Week06.Handlers.{Packing, Tables, Handled, answer, on_client_request}
use networks_course.Week06.Control.{answer_of}

-- The value at the first place with a key, which was changed through a pointer to it:
-- `json_get_property` gives that pointer.
unfoldable pub replace_in_chain : Bytes → Json → Chain → Option Chain
replace_in_chain key value chain_end = none
replace_in_chain key value (entry k v next) =
    if str_eq key k
    then some (entry k value next)
    else Option.map (λ next'. entry k v next') (replace_in_chain key value next)

unfoldable pub replace_in_table : Bytes → Json → Table → Table
replace_in_table key value no_buckets = no_buckets
replace_in_table key value (bucket chain next) = elim (replace_in_chain key value chain) [
  | some chain' ↦ bucket chain' next
  | none ↦ bucket chain (replace_in_table key value next)
]

unfoldable pub replace_property : Bytes → Json → Json → Json
replace_property key value (object t) = object (replace_in_table key value t)
replace_property key value other = other

-- The result of `handle_client_data`, what is sent, and what the handler left.
pub record Served : Type 0 where
  pub result : ℤ
  pub output : Option Bytes
  pub handled : Handled

module _ (m : Machine) (p : Packing) where
  -- The request with the address and the socket of its sender.
  unfoldable pub sign_request : Json → Bytes → ℤ → Run Json
  sign_request request ip socket = do
    request_from ← access (json_get_property request (codes "from"))
    located ← json_set_property m request_from (codes "ip") (create_json_string ip)
    signed ← json_set_property m located (codes "socket") (integer socket)
    ok (replace_property (codes "from") signed request)

  unfoldable pub print_output : Option Json → Run (Option Bytes)
  print_output none = ok none
  print_output (some response) = do
    output ← serialize_json m response
    destroyed ← json_destroy m response
    ok (some output)

  -- The bytes received, none for an error: its -1 is then taken for a length.
  unfoldable pub handle_client_data : Option Bytes → Bytes → ℤ → Tables → Run Served
  handle_client_data none ip socket tables = fault
  handle_client_data (some input) ip socket tables = do
    answer ← answer_of (deserialize_json m (take buffer_size input))
    request ← access answer
    signed ← sign_request request ip socket
    handled ← on_client_request m p (some signed) (pos 0) tables
    output ← print_output handled.response
    let result = if int_eq handled.keep_alive (pos 0) then negsuc 0 else pos 0
    ok (record { result = result; output = output; handled = handled })
