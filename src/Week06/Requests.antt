-- ===== src/Week06/Requests.antt =====
-- week06/src/requests.c: requests that are sent and answered by callbacks of the event loop. Which
-- socket is listened to and which callbacks are called is part of the outcome.
pub mod Waiting
use networks_course.Prelude.{
  ℕ, ◌+◌, ◌-◌, Bytes, ℤ, pos, Bool, false, not, List, [], ◌∷◌, ◌++◌, Option, none, some, Run, ok,
  ◌>>=◌, ◌>>◌, access, length, take, drop, replicate, codes, ◌==◌,
}
use networks_course.Week06.Machine.{Machine}
use networks_course.Week06.Json.Value.{Json, integer}
use networks_course.Week06.Json.Interface.{
  create_json_object, create_json_string, json_get_property, json_set_property,
}
use networks_course.Week06.Json.Parser.{deserialize_json}
use networks_course.Week06.Json.Serializer.{serialize_json}
use networks_course.Week06.Serializers.{string_value, int_value, to_uint16, property}
use networks_course.Week06.Files.{buffer_size}
use networks_course.Week06.Control.{answer_of}

-- `struct request_context`, while a response is waited for. The buffer is `none` once it is freed.
pub record ReceiveContext : Type 0 where
  pub response_buf : Option Bytes
  pub response_len : ℕ
  pub max_response_len : ℕ
  pub flags : ℕ

-- `response_t` and its `response_context_t`.
pub record Response : Type 0 where
  pub status : ℤ
  pub body : Option Json
  pub name : Bytes
  pub listen_port : ℕ

-- What a call of `pr_recv` does: the context afterwards, what the callback is given, whether the event
-- loop is told to release the socket, and whether the socket is closed.
pub record Received : Type 0 where
  pub context : ReceiveContext
  pub delivered : Option Response
  pub released : Bool
  pub closed : Bool

-- `context->flags | X == 0`, where the comparison of the constant X comes first and is 0.
abbrev pub flags_test : ℕ → Bool
flags_test flags = not (flags == 0)

-- The context of `receive_request_sock`.
unfoldable pub receive_request_sock : ℕ → ReceiveContext
receive_request_sock flags = record {
  response_buf = some (replicate buffer_size 0);
  response_len = 0;
  max_response_len = buffer_size;
  flags = flags;
}

-- The bytes received, at most as many as the buffer has room for, behind the first `at` bytes.
abbrev pub store : ℕ → Bytes → Bytes → Bytes
store at bytes buf = take at buf ++ (bytes ++ drop (at + length bytes) buf)

-- The fields of a response.
unfoldable pub response_of : Json → Run Response
response_of response_json = do
  status ← property (some response_json) (codes "status")
  let from = json_get_property response_json (codes "from")
  name ← property from (codes "name") >>= string_value
  port ← property from (codes "listen_port")
  ok (record {
    status = int_value status;
    body = json_get_property response_json (codes "body");
    name = name;
    listen_port = to_uint16 (int_value port);
  })

-- After the text was read.
unfoldable pub deliver : Option Json → ReceiveContext → Run Received
deliver none context = ok (record {
  context = context;
  delivered = none;
  released = false;
  closed = flags_test context.flags;
})
deliver (some response_json) context = do
  response ← response_of response_json
  ok (record {
    context = record context { response_buf = none };
    delivered = some response;
    released = flags_test context.flags;
    closed = flags_test context.flags;
  })

module _ (m : Machine) where
  unfoldable pub pr_recv : Bytes → ReceiveContext → Run Received
  pr_recv bytes context = do
    buf ← access context.response_buf
    let room = context.max_response_len - context.response_len
    let buf' = store context.response_len (take room bytes) buf
    response_json ← answer_of (deserialize_json m (take context.response_len buf'))
    deliver response_json (record context { response_buf = some buf' })

  -- Calls of `pr_recv`, one for each time that bytes arrive.
  unfoldable pub pr_recvs : List Bytes → ReceiveContext → Run (List Received)
  pr_recvs [] context = ok []
  pr_recvs (bytes ∷ arrivals) context = do
    received ← pr_recv bytes context
    rest ← pr_recvs arrivals received.context
    ok (received ∷ rest)

  -- The request of `pr_send`, as the text that is sent.
  unfoldable pub pr_send : Bytes → ℕ → Bytes → Json → Run Bytes
  pr_send node_name listen_port method body = do
    named ← json_set_property m create_json_object (codes "method") (create_json_string method)
    filled ← json_set_property m named (codes "body") body
    signed ← json_set_property m create_json_object (codes "name") (create_json_string node_name)
    from ← json_set_property m signed (codes "listen_port") (integer (pos listen_port))
    request ← json_set_property m filled (codes "from") from
    serialize_json m request
