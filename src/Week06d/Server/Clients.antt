-- ===== src/Week06d/Server/Clients.antt =====
-- Clients that connect to the server of week06d/src/server.c are polled by its event loop.
use networks_course.Prelude.{
  ℕ, ◌+◌, ◌≡◌, refl, Bytes, ℤ, pos, ◌-ℤ◌, List, [], ◌∷◌, ◌++◌, map, some, ok, write, length,
  replicate,
}
use networks_course.Sockets.{History, System, Calls}
use networks_course.Sockets.Held.{given, held}
use networks_course.Week06d.EventLoop.{
  EventLoop, event_loop_init, event_loop_add_fd, event_loop_add_periodic_task,
}
use networks_course.Week06d.EventLoop.Slots.{registered, IsValid}
use networks_course.Week06d.Server.Listening.{
  poll_events, Callback, no_slot, no_task, start_loop, server_main, accept_connections,
  on_new_connection, on_ping,
}

abbrev pub concat_given : List ℤ → List ℤ
concat_given [] = []
concat_given (fd ∷ fds) = given fd ++ concat_given fds

-- A loop that polls the server's socket, and the sockets of clients.
abbrev pub polled : EventLoop Callback Bytes → List ℤ
polled loop = map (λ slot. slot.fd) (registered loop)

-- What clients that connect leave.
pub record Connected (system : System) (code : Calls (EventLoop Callback Bytes))
    (loop : EventLoop Callback Bytes) (h : History) (count : ℕ) : Type 0 where
  pub loop' : EventLoop Callback Bytes
  pub history : History
  pub returns : code h ≡ ok (loop', history)
  pub valid : IsValid loop'
  pub size : loop'.max_fds ≡ loop.max_fds
  pub next : loop'.next_fd ≡ loop.next_fd + count
  pub clients : List ℤ
  pub counted : length clients ≡ count
  pub polled_then : polled loop' ≡ polled loop ++ clients
  pub held_then : held history ≡ held h ++ concat_given clients

-- The loop that `server_main` runs.
abbrev pub first_loop : ℤ → ℤ → ℤ → EventLoop Callback Bytes
first_loop ping_interval now master = record {
  slots =
      record {
        fd = master;
        events = poll_events;
        revents = 0;
        callback = on_new_connection;
        args = [];
      }
      ∷ replicate 1024 no_slot;
  next_fd = 1;
  max_fds = 1025;
  tasks =
      record { callback = on_ping; interval = ping_interval; last_done = now -ℤ ping_interval }
      ∷ replicate 1024 no_task;
  next_periodic_task = 1;
  max_periodic_tasks = 10;
  to_remove = replicate 1025 (pos 0);
  next_to_remove = 0;
}

pub start_loop-first_loop :
    (system : System) (ping_interval now master : ℤ) (h : History)
    → start_loop system ping_interval now master h
      ≡ ok (some (first_loop ping_interval now master), h)
unfolding start_loop event_loop_init event_loop_add_fd event_loop_add_periodic_task write
start_loop-first_loop system ping_interval now master h = refl

-- A server that was started on the socket `master`, and its clients.
pub record Started (system : System) (listen_port : ℕ) (ping_interval now : ℤ)
    (addresses : List Bytes) (h h' : History) (master : ℤ) : Type 0 where
  pub loop : EventLoop Callback Bytes
  pub starts : server_main system listen_port ping_interval now h ≡ ok (some loop, h')
  pub polled_first : polled loop ≡ master ∷ []
  pub connected :
      Connected system (accept_connections system master addresses loop) loop h' (length addresses)
