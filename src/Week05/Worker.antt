-- ===== src/Week05/Worker.antt =====
-- The loop of a worker of week05/server.c. Its buffers are not cleared between two datagrams.
pub mod Greets
use networks_course.Prelude.{
  Bytes, Bool, true, false, List, [], ◌∷◌, ◌++◌, Run, ok, ◌>>=◌, ◌>>◌, length, take, drop,
}
use networks_course.Week04.Message.{greet, data_buffer_size}

-- The part of `struct worker_context` that the loop works on.
pub record WorkerContext : Type 0 where
  pub data_buffer : Bytes
  pub message : Bytes

-- `recvfrom` writes a datagram over the start of the buffer.
unfoldable pub receive : Bytes → Bytes → Bytes
receive data_buffer datagram =
    let n = take data_buffer_size datagram in n ++ drop (length n) data_buffer

-- One round; what is sent is the whole struct, and the result of `sendto` is an argument.
unfoldable pub worker_round : WorkerContext → Bytes → Run WorkerContext
worker_round context datagram = do
  let data_buffer = receive context.data_buffer datagram
  message ← greet data_buffer context.message
  ok (record { data_buffer = data_buffer; message = message })

-- The loop over the datagrams that arrive, with whether they can be answered: what is sent.
unfoldable pub worker : WorkerContext → List (Bytes × Bool) → Run (List Bytes)
worker context [] = ok []
worker context ((datagram, true) ∷ rest) = do
  context' ← worker_round context datagram
  sent ← worker context' rest
  ok (context'.message ∷ sent)
worker context ((datagram, false) ∷ rest) = do context' ← worker_round context datagram; ok []
