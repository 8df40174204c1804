-- ===== src/Week06/Listening.antt =====
-- The sockets of week06: `connect_plain` of week06/src/requests.c with the requests that are sent
-- over it, the server's socket of week06/src/server.c and the control socket of
-- week06/src/control.c.
pub mod Starting
pub mod Connecting
use networks_course.Prelude.{
  ℕ, Bytes, ℤ, pos, negsuc, is_neg, int_eq, Option, none, some, in_bounds, length, ltb,
  if◌then◌else◌,
}
use networks_course.Sockets.{
  System, Calls, ◌>>=◌, give, compute, ask, find_host, call_socket, call_setsockopt, call_bind_port,
  call_bind_path, call_listen, call_connect, call_accept, call_close, call_unlink,
}
use networks_course.Week06.EventLoop.{EventLoop, event_loop_listen_fd, event_loop_add_periodic_task}

abbrev pub max_clients : ℕ
max_clients = 1024

-- The size of `sun_path`.
abbrev pub sun_path_size : ℕ
sun_path_size = 108

-- `POLLIN | POLLHUP | POLLERR` and `POLLOUT`
abbrev pub poll_in : ℤ
poll_in = pos 25

abbrev pub poll_out : ℤ
poll_out = pos 4

module _ (system : System) where
  unfoldable pub give_up : ℤ → Calls ℤ
  give_up sock = do closed ← ask system (call_close sock); give (negsuc 0)

  unfoldable pub connect_sock : ℤ → ℕ → Option Bytes → Calls ℤ
  connect_sock sock port none = give_up sock
  connect_sock sock port (some address) = do
    answer ← ask system (call_connect sock address port)
    if int_eq answer (pos 0) then give sock else give_up sock

  unfoldable pub connect_plain : Bytes → ℕ → Calls ℤ
  connect_plain ip port = do
    sock ← ask system call_socket
    let found = find_host system ip >>= connect_sock sock port
    if is_neg sock then give (negsuc 0) else found

  -- The server's socket.
  unfoldable pub listen_sock : ℤ → Calls ℤ
  listen_sock sock = do
    answer ← ask system (call_listen sock max_clients)
    if is_neg answer then give (negsuc 0) else give sock

  unfoldable pub bind_sock : ℤ → ℕ → Calls ℤ
  bind_sock sock listen_port = do
    answer ← ask system (call_bind_port sock listen_port)
    if is_neg answer then give (negsuc 0) else listen_sock sock

  unfoldable pub set_up_sock : ℤ → ℕ → Calls ℤ
  set_up_sock sock listen_port = do
    answer ← ask system (call_setsockopt sock)
    if int_eq answer (pos 0) then bind_sock sock listen_port else give (negsuc 0)

  unfoldable pub create_master_socket : ℕ → Calls ℤ
  create_master_socket listen_port = do
    master_socket ← ask system call_socket
    if is_neg master_socket then give (negsuc 0) else set_up_sock master_socket listen_port

  -- The control socket, which takes the place of what has its name.
  unfoldable pub listen_control : ℤ → Calls ℤ
  listen_control sock = do
    answer ← ask system (call_listen sock max_clients)
    if int_eq answer (pos 0) then give sock else give (negsuc 0)

  unfoldable pub bind_control : ℤ → Bytes → Calls ℤ
  bind_control sock filename = do
    copied ← compute (in_bounds (ltb (length filename) sun_path_size))
    unlinked ← ask system (call_unlink filename)
    answer ← ask system (call_bind_path sock filename)
    if int_eq answer (pos 0) then listen_control sock else give (negsuc 0)

  unfoldable pub create_control_socket : Bytes → Calls ℤ
  create_control_socket filename = do
    control_socket ← ask system call_socket
    if is_neg control_socket then give (negsuc 0) else bind_control control_socket filename

  -- What registers a handler with the event loop; its answer is not looked at.
  module _ {H : Type 0} where
    unfoldable pub listen_fd : EventLoop H → ℤ → ℤ → H → Calls (EventLoop H)
    listen_fd loop fd events handler = do
      listened ← compute (event_loop_listen_fd loop fd events handler)
      give listened.1

    -- `handler` is `pr_send` with the request, or `pr_recv` with its buffer.
    unfoldable pub send_request_sock : EventLoop H → ℤ → H → Calls (EventLoop H)
    send_request_sock loop sock handler = listen_fd loop sock poll_out handler

    unfoldable pub send_request_plain : EventLoop H → Bytes → ℕ → H → Calls (EventLoop H)
    send_request_plain loop ip port handler = do
      sock ← connect_plain ip port
      if is_neg sock then give loop else send_request_sock loop sock handler

    -- The event loop with the client, for which `handler` is `handle_client_data` with its address.
    unfoldable pub accept_connection : EventLoop H → ℤ → H → Calls (EventLoop H)
    accept_connection loop sock handler = do
      client_socket ← ask system (call_accept sock)
      listen_fd loop client_socket poll_in handler

    unfoldable pub start_listening : EventLoop H → ℤ → H → ℕ → ℤ → ℤ → Calls (Option (EventLoop H))
    start_listening loop master_socket handler ping ping_interval now = do
      listened ← listen_fd loop master_socket poll_in handler
      scheduled ← compute (event_loop_add_periodic_task listened ping ping_interval now)
      give (some scheduled.1)

    -- None for the answer -1.
    unfoldable pub server_main : EventLoop H → ℕ → H → ℕ → ℤ → ℤ → Calls (Option (EventLoop H))
    server_main loop listen_port handler ping ping_interval now = do
      master_socket ← create_master_socket listen_port
      if is_neg master_socket
          then give none
          else start_listening loop master_socket handler ping ping_interval now
