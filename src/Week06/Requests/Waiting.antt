-- ===== src/Week06/Requests/Waiting.antt =====
-- What is received by `pr_recv` of week06/src/requests.c is never looked at.
use networks_course.Prelude.{
  ℕ, ◌-◌, ◌≡◌, refl, ap₂, Bytes, false, List, [], ◌∷◌, map, none, some, ok, take, replicate,
}
use networks_course.Week06.Machine.{Machine}
use networks_course.Week06.Json.Parser.{parse_fuel, parse_json, deserialize_json}
use networks_course.Week06.Json.Tokenizer.{tokenize, tokenize_json}
use networks_course.Week06.Files.{buffer_size}
use networks_course.Week06.Control.{answer_of}
use networks_course.Week06.Requests.{
  ReceiveContext, Received, flags_test, receive_request_sock, store, deliver, pr_recv, pr_recvs,
}

-- The buffer is there, and nothing in it is counted.
record IsWaiting (context : ReceiveContext) : Type 0 where
  buf : Bytes
  allocated : context.response_buf ≡ some buf
  uncounted : context.response_len ≡ 0

no_text : (m : Machine) → answer_of (deserialize_json m []) ≡ ok none
unfolding answer_of deserialize_json tokenize_json tokenize parse_json parse_fuel
no_text m = refl

module _ (m : Machine) where
  -- A call of `pr_recv` that delivers nothing.
  record Ignored (bytes : Bytes) (context : ReceiveContext) : Type 0 where
    received : Received
    returns : pr_recv m bytes context ≡ ok received
    silent : received.delivered ≡ none
    waits : IsWaiting received.context

  pr_recv-Ignored :
      (bytes : Bytes) (context : ReceiveContext) → IsWaiting context → Ignored bytes context
  unfolding pr_recv deliver
  pr_recv-Ignored bytes context w =
      let buf = store 0 (take (context.max_response_len - 0) bytes) w.buf in
      record {
        received = record {
          context = record context { response_buf = some buf };
          delivered = none;
          released = false;
          closed = flags_test context.flags;
        };
        returns = rw (w.allocated, w.uncounted, no_text m) refl;
        silent = refl;
        waits = record { buf = buf; allocated = refl; uncounted = w.uncounted };
      }

  pr_recvs-silent :
      (arrivals : List Bytes) (context : ReceiveContext)
      → IsWaiting context
      → (received : List Received) × (pr_recvs m arrivals context ≡ ok received)
        × (map (λ r. r.delivered) received ≡ map (λ _. none) arrivals)
  unfolding pr_recvs
  pr_recvs-silent [] context w = ([], refl, refl)
  pr_recvs-silent (bytes ∷ arrivals) context w =
      let i = pr_recv-Ignored bytes context w in
      let (rest, returns, silent) = pr_recvs-silent arrivals i.received.context i.waits in
      (i.received ∷ rest, rw (i.returns, returns) refl, ap₂ (λ x y. x ∷ y) i.silent silent)

-- Whatever arrives on a socket that a response is awaited on, in however many pieces: every call of
-- `pr_recv` returns, and none gives a response to the callback, since the length of what was received
-- is never counted.
pub pr_recvs-receive_request_sock :
    (m : Machine) (flags : ℕ) (arrivals : List Bytes)
    → (received : List Received) × (pr_recvs m arrivals (receive_request_sock flags) ≡ ok received)
      × (map (λ r. r.delivered) received ≡ map (λ _. none) arrivals)
unfolding receive_request_sock
pr_recvs-receive_request_sock m flags arrivals =
    pr_recvs-silent m arrivals (receive_request_sock flags)
      (record { buf = replicate buffer_size 0; allocated = refl; uncounted = refl })
